-- ===== src/Server/Send/Shut.antt =====
-- Disconnecting a client of src/server.rs that is already disconnected.
use carrier_pigeon.Base.{
  ◌==◌, false, ◌≢◌, ==→eq, ℕ, List, ◌∷◌, ◌≡◌, refl, ap, sym, ◌∙◌, Bool-cases, Option-cases,
  Outcome-cases, true, Io, ok, err, panic, inl, inr, arith, some, [], ◌++◌, subst,
}
use carrier_pigeon.Base.Results.{invalid_data}
use carrier_pigeon.Base.HashMap
use carrier_pigeon.Base.HashMap.{get-insert}
use carrier_pigeon.Net.{CId, MId, Any, tcp}
use carrier_pigeon.Time.{Host}
use carrier_pigeon.Table.Parts.Codec.{encode}
use carrier_pigeon.Net.Status.{Status}
use carrier_pigeon.Tcp
use carrier_pigeon.Tcp.{TcpCon}
use carrier_pigeon.Tcp.Stream as Stream
use carrier_pigeon.Server.{Server, alive}
use carrier_pigeon.Server.Send.{send_tcp, send_over, send_to, close_con, disconnect}

closed-is_shut : (con : TcpCon) → (Tcp.close con).1 ≡ ok tt → (Tcp.close con).0.tcp.is_shut ≡ true
unfolding Tcp.close Stream.flush Stream.shutdown
closed-is_shut con e = ground arith

shut-refuses :
    (con : TcpCon) (mid : MId) (b : List ℕ)
    → con.tcp.is_shut ≡ true
    → (Tcp.send con mid b).1 ≢ ok tt
unfolding Tcp.send Stream.write_all
shut-refuses con mid b shut e = ground arith

module _ {V : Type 0} where
  -- What `disconnect` does over a connection that takes the message and closes.
  pub disconnect_over :
      (h : Host) (self : Server V) (msg : Any V) (cid : CId) (mid : MId) (b : List ℕ) (con : TcpCon)
      → encode self.parts msg ≡ ok (mid, tcp, b)
      → alive self cid ≡ true
      → HashMap.get self.tcp cid ≡ some con
      → disconnect h self msg cid
        ≡ close_con cid (
          record self { tcp = HashMap.insert self.tcp cid (Tcp.send con mid b).0 },
          (Tcp.send con mid b).1,
        )
  unfolding disconnect send_to send_over send_tcp
  disconnect_over h self msg cid mid b con e up held =
      rw (disconnect, up, send_to, e, send_over, send_tcp, held) refl

  -- A `close_con` that succeeds: the message was sent, the connection closed, and the rest is kept.
  pub record Closes (self : Server V) (cid : CId) (con : TcpCon) (r : Io (Unit {0})) (s : Server V)
      : Type 0 where
    pub sent : r ≡ ok tt
    pub closed : (Tcp.close con).1 ≡ ok tt
    pub held : HashMap.get s.tcp cid ≡ some (Tcp.close con).0
    pub same_parts : s.parts ≡ self.parts
    pub same_addrs : s.cid_addr ≡ self.cid_addr
    pub others : (c : CId) → (cid == c) ≡ false → HashMap.get s.tcp c ≡ HashMap.get self.tcp c

  pub close_con_over :
      (self : Server V) (cid : CId) (con : TcpCon) (r : Io (Unit {0}))
      → (close_con cid (record self { tcp = HashMap.insert self.tcp cid con }, r)).1 ≡ ok tt
      → Closes self cid con r
          (close_con cid (record self { tcp = HashMap.insert self.tcp cid con }, r)).0
  unfolding close_con
  close_con_over self cid con (ok _) good =
      let there : HashMap.get (HashMap.insert self.tcp cid con) cid ≡ some con =
        ground (arith, get-insert self.tcp cid con cid) in
      elim (Outcome-cases (Tcp.close con).1) [
        | inl (u, q) ↦
            let s = record self {
              tcp = HashMap.insert (HashMap.insert self.tcp cid con) cid (Tcp.close con).0;
              disconnected = self.disconnected ++ (cid, Status.closed) ∷ [];
            } in
            let done : close_con cid (record self { tcp = HashMap.insert self.tcp cid con }, ok tt)
                ≡ (s, ok tt) =
              rw (close_con, there, q) refl in
            subst (λ r. Closes self cid con (ok tt) r.0) (sym done)
              (record {
                sent = refl;
                closed = q;
                held =
                    ground (
                      arith,
                      get-insert (HashMap.insert self.tcp cid con) cid (Tcp.close con).0 cid,
                    );
                same_parts = refl;
                same_addrs = refl;
                others = λ c other. ground (
                  arith,
                  other,
                  get-insert (HashMap.insert self.tcp cid con) cid (Tcp.close con).0 c,
                  get-insert self.tcp cid con c,
                );
              })
        | inr (inl (x, q)) ↦ absurd (ground (arith, there))
        | inr (inr q) ↦ absurd (ground (arith, there))
      ]
  close_con_over self cid con (err e) good = absurd (ground arith)
  close_con_over self cid con panic good = absurd (ground arith)

  -- The connection is there, and its stream is shut down.
  abbrev pub IsShut : Server V → CId → Type 0
  IsShut self cid =
      (con : TcpCon) × (HashMap.get self.tcp cid ≡ some con) × (con.tcp.is_shut ≡ true)

  -- The stream of the client is shut down, and those that were before still are.
  pub record Shuts (self : Server V) (cid : CId) (s : Server V) : Type 0 where
    pub shut : IsShut s cid
    pub same_parts : s.parts ≡ self.parts
    pub still : (c : CId) → IsShut self c → IsShut s c

  Closes-Shuts :
      (self s : Server V) (cid : CId) (con : TcpCon) (r : Io (Unit {0}))
      → Closes self cid con r s
      → Shuts self cid s
  Closes-Shuts self s cid con r c =
      let closed : IsShut s cid = ((Tcp.close con).0, c.held, closed-is_shut con c.closed) in
      record {
        shut = closed;
        same_parts = c.same_parts;
        still = λ d (old, there, shut). elim (Bool-cases (cid == d)) [
          | inl here ↦ subst (IsShut s) (==→eq cid d here) closed
          | inr other ↦ (old, c.others d other ∙ there, shut)
        ];
      }

  held_shut :
      (self : Server V) (cid : CId) (con : TcpCon)
      → HashMap.get self.tcp cid ≡ some con
      → IsShut self cid
      → con.tcp.is_shut ≡ true
  held_shut self cid con held (old, there, shut) = ground (arith, held, there, shut)

  -- A `disconnect` that succeeds, where the message goes over TCP, shuts the stream of its client,
  -- which was not shut down before.
  pub disconnect-Shuts :
      (h : Host) (self : Server V) (msg : Any V) (cid : CId) (mid : MId) (b : List ℕ)
      → encode self.parts msg ≡ ok (mid, tcp, b)
      → (disconnect h self msg cid).1 ≡ ok tt
      → Shuts self cid (disconnect h self msg cid).0 × (¬ IsShut self cid)
  unfolding disconnect close_con send_to send_over send_tcp
  disconnect-Shuts h self msg cid mid b e good = elim (Bool-cases (alive self cid)) [
    | inr dead ↦ absurd (ground arith)
    | inl up ↦ elim (Option-cases (HashMap.get self.tcp cid)) [
      | inl gone ↦
          let refused : (disconnect h self msg cid).1 ≡ err invalid_data =
            rw (disconnect, up, send_to, e, send_over, send_tcp, gone, close_con) refl in
          absurd (ground arith)
      | inr (con, held) ↦
          let first = disconnect_over h self msg cid mid b con e up held in
          let c =
            close_con_over self cid (Tcp.send con mid b).0 (Tcp.send con mid b).1
              (ap (λ r. r.1) (sym first) ∙ good) in
          (
            subst (λ r. Shuts self cid r.0) (sym first)
                (Closes-Shuts self _ cid (Tcp.send con mid b).0 (Tcp.send con mid b).1 c),
            (λ old. shut-refuses con mid b (held_shut self cid con held old) c.sent),
          )
    ]
  ]
