-- ===== src/Server/Mirror/Kept.antt =====
-- Operations of src/server.rs that leave the tables of connections as they are: sending and
-- receiving change the connections, but not which there are.
use carrier_pigeon.Base.{
  ℕ, ◌≡◌, refl, ap, ◌∙◌, List, [], ◌∷◌, true, some, Io, ok, err, panic, ◌==◌, ==→eq, Option-cases,
  Outcome-cases, inl, inr, arith, Bool-cases,
}
use carrier_pigeon.Base.HashMap
use carrier_pigeon.Base.HashMap.{get-insert, HashMap}
use carrier_pigeon.Net.{CId, MId, Any, Transport}
use carrier_pigeon.Net.Transport.{tcp, udp}
use carrier_pigeon.Time.{Host}
use carrier_pigeon.Table.Parts.Codec.{encode}
use carrier_pigeon.Tcp
use carrier_pigeon.Tcp.{TcpCon}
use carrier_pigeon.Server.{Server, alive}
use carrier_pigeon.Server.Send.{
  send_tcp, send_udp, send_over, send_to, go_on, send_each, close_con, disconnect,
}
use carrier_pigeon.Server.Mirror.{IsMirror, IsNumbered, tags}

same_key : (m : HashMap TcpCon) (c d : CId) → (c == d) ≡ true → HashMap.get m c ≡ HashMap.get m d
same_key m c d e = ap (HashMap.get m) (==→eq c d e)

-- A connection that changes its state stays.
pub replaced :
    (m : HashMap TcpCon) (cid : CId) (con con' : TcpCon) (c : CId)
    → HashMap.get m cid ≡ some con
    → HashMap.contains_key (HashMap.insert m cid con') c ≡ HashMap.contains_key m c
unfolding HashMap.contains_key
replaced m cid con con' c held = ground (arith, get-insert m cid con' c, same_key m cid c)

module _ {V : Type 0} where
  -- The tables of addresses and what waits are the same, and the same `CId`s have a connection.
  pub record Kept (self s : Server V) : Type 0 where
    pub current : s.current_cid ≡ self.current_cid
    pub waiting : tags s.new_cons ≡ tags self.new_cons
    pub cid_addr : s.cid_addr ≡ self.cid_addr
    pub addr_cid : s.addr_cid ≡ self.addr_cid
    pub tcp : (c : CId) → HashMap.contains_key s.tcp c ≡ HashMap.contains_key self.tcp c

  pub Kept-refl : (self : Server V) → Kept self self
  Kept-refl self = record {
    current = refl;
    waiting = refl;
    cid_addr = refl;
    addr_cid = refl;
    tcp = λ c. refl;
  }

  pub Kept-trans : {a b c : Server V} → Kept a b → Kept b c → Kept a c
  Kept-trans p q = record {
    current = q.current ∙ p.current;
    waiting = q.waiting ∙ p.waiting;
    cid_addr = q.cid_addr ∙ p.cid_addr;
    addr_cid = q.addr_cid ∙ p.addr_cid;
    tcp = λ c. q.tcp c ∙ p.tcp c;
  }

  -- The tables mirror each other afterwards if they did before.
  pub Kept-IsMirror : (self s : Server V) → Kept self s → IsMirror self → IsMirror s
  Kept-IsMirror self s k m = record {
    there = λ c a e. rw k.addr_cid (m.there c a (rw k.cid_addr at e));
    back = λ a c e. rw k.cid_addr (m.back a c (rw k.addr_cid at e));
    connected = λ c a e. k.tcp c ∙ m.connected c a (rw k.cid_addr at e);
    addressed = λ c e. k.tcp c ∙ m.addressed c (rw k.cid_addr at e);
  }

  -- The same for the numbers.
  pub Kept-IsNumbered :
      (self s : Server V)
      → Kept self s
      → IsNumbered self (tags self.new_cons)
      → IsNumbered s (tags s.new_cons)
  Kept-IsNumbered self s k n = rw (k.waiting) (record {
    bounded = rw k.current n.bounded;
    new_cids = rw k.cid_addr n.new_cids;
    cids = n.cids;
    below = λ c a e. rw k.current (n.below c a (rw k.cid_addr at e));
  })

  send_tcp-Kept :
      (self : Server V) (cid : CId) (mid : MId) (b : List ℕ) → Kept self (send_tcp self cid mid b).0
  unfolding send_tcp
  send_tcp-Kept self cid mid b = elim (Option-cases (HashMap.get self.tcp cid)) [
    | inl gone ↦ rw (send_tcp, gone) (Kept-refl self)
    | inr (con, held) ↦
        rw (send_tcp, held)
          (record {
            current = refl;
            waiting = refl;
            cid_addr = refl;
            addr_cid = refl;
            tcp = λ c. replaced self.tcp cid con (Tcp.send con mid b).0 c held;
          })
  ]

  send_udp-Kept :
      (h : Host) (self : Server V) (cid : CId) (mid : MId) (b : List ℕ)
      → Kept self (send_udp h self cid mid b).0
  unfolding send_udp
  send_udp-Kept h self cid mid b = elim (Option-cases (HashMap.get self.cid_addr cid)) [
    | inl gone ↦ rw (send_udp, gone) (Kept-refl self)
    | inr (addr, known) ↦
        rw (send_udp, known)
          (record {
            current = refl;
            waiting = refl;
            cid_addr = refl;
            addr_cid = refl;
            tcp = λ c. refl;
          })
  ]

  send_over-Kept :
      (h : Host) (self : Server V) (cid : CId) (way : Io (MId × Transport × List ℕ))
      → Kept self (send_over h self cid way).0
  unfolding send_over
  send_over-Kept h self cid (ok (mid, tcp, b)) = send_tcp-Kept self cid mid b
  send_over-Kept h self cid (ok (mid, udp, b)) = send_udp-Kept h self cid mid b
  send_over-Kept h self cid (err e) = Kept-refl self
  send_over-Kept h self cid panic = Kept-refl self

  pub send_to-Kept :
      (h : Host) (self : Server V) (cid : CId) (msg : Any V) → Kept self (send_to h self cid msg).0
  unfolding send_to
  send_to-Kept h self cid msg = send_over-Kept h self cid (encode self.parts msg)

  go_on-Kept :
      (self : Server V) (r : Server V × Io (Unit {0})) (rest : Server V → Server V × Io (Unit {0}))
      → Kept self r.0
      → ((s : Server V) → Kept s (rest s).0)
      → Kept self (go_on r rest).0
  unfolding go_on
  go_on-Kept self (s, ok _) rest k f = Kept-trans k (f s)
  go_on-Kept self (s, err e) rest k f = k
  go_on-Kept self (s, panic) rest k f = k

  pub send_each-Kept :
      (h : Host) (self : Server V) (cids : List CId) (msg : Any V)
      → Kept self (send_each h self cids msg).0
  unfolding send_each
  send_each-Kept h self [] msg = Kept-refl self
  send_each-Kept h self (cid ∷ cids) msg =
      go_on-Kept self (send_to h self cid msg) (λ s. send_each h s cids msg)
        (send_to-Kept h self cid msg) (λ s. send_each-Kept h s cids msg)

  close_con-Kept :
      (self : Server V) (cid : CId) (r : Server V × Io (Unit {0}))
      → Kept self r.0
      → Kept self (close_con cid r).0
  unfolding close_con
  close_con-Kept self cid (s, ok _) k = elim (Option-cases (HashMap.get s.tcp cid)) [
    | inl gone ↦ rw (close_con, gone) k
    | inr (con, held) ↦
        let closing : Kept s (record s { tcp = HashMap.insert s.tcp cid (Tcp.close con).0 }) =
          record {
            current = refl;
            waiting = refl;
            cid_addr = refl;
            addr_cid = refl;
            tcp = λ c. replaced s.tcp cid con _ c held;
          } in
        elim (Outcome-cases (Tcp.close con).1) [
          | inl (u, q) ↦
              rw (close_con, held, q)
                (record {
                  current = k.current;
                  waiting = k.waiting;
                  cid_addr = k.cid_addr;
                  addr_cid = k.addr_cid;
                  tcp = (Kept-trans k closing).tcp;
                })
          | inr (inl (e, q)) ↦ rw (close_con, held, q) (Kept-trans k closing)
          | inr (inr q) ↦ rw (close_con, held, q) (Kept-trans k closing)
        ]
  ]
  close_con-Kept self cid (s, err e) k = k
  close_con-Kept self cid (s, panic) k = k

  pub disconnect-Kept :
      (h : Host) (self : Server V) (msg : Any V) (cid : CId)
      → Kept self (disconnect h self msg cid).0
  unfolding disconnect
  disconnect-Kept h self msg cid = elim (Bool-cases (alive self cid)) [
    | inl up ↦
        rw (disconnect, up)
          (close_con-Kept self cid (send_to h self cid msg) (send_to-Kept h self cid msg))
    | inr gone ↦ rw (disconnect, gone) (Kept-refl self)
  ]
