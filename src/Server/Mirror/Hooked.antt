-- ===== src/Server/Mirror/Hooked.antt =====
-- What src/server.rs does with connections once the program's hook has answered: accepting,
-- rejecting and dropping keep the tables.
use carrier_pigeon.Base.{
  ℕ, ◌≡◌, ◌≢◌, refl, ap, sym, subst, ◌∙◌, List, [], ◌∷◌, none, Io, ok, err, panic, All, Lacks,
  Distinct, arith,
}
use carrier_pigeon.Base.HashMap
use carrier_pigeon.Base.HashMap.{HashMap, get-insert}
use carrier_pigeon.Base.Results.{ok_before}
use carrier_pigeon.Net.{CId, Any}
use carrier_pigeon.Time.{Host}
use carrier_pigeon.Tcp
use carrier_pigeon.Tcp.{TcpCon}
use carrier_pigeon.Server.{Server, NewCon, add_tcp_con_cid}
use carrier_pigeon.Server.Send.{send_to}
use carrier_pigeon.Server.Accept.{accept_incoming, reject_incoming}
use carrier_pigeon.Server.Accept.Handle.{take_out, accept_each, reject_each, drop_each}
use carrier_pigeon.Server.Mirror.{IsMirror, IsNumbered, HaveAddrs, Tag, tags}
use carrier_pigeon.Server.Mirror.Laws.{with_con, with_con-IsMirror}
use carrier_pigeon.Server.Mirror.Kept.{Kept, Kept-IsMirror, Kept-IsNumbered, send_to-Kept}
use carrier_pigeon.Server.Mirror.Waiting.{take_out-All, take_out-Distinct}

-- What the table of addresses says of new connections after one more was added.
still_known :
    (m : HashMap CId) (addr : ℕ) (cid : CId) (ts : List Tag)
    → All (λ t. (a : ℕ) × (t.1 ≡ ok a) × (HashMap.get m a ≡ none)) ts
    → Lacks (λ t. t.1) (ok addr) ts
    → All (λ t. (a : ℕ) × (t.1 ≡ ok a) × (HashMap.get (HashMap.insert m addr cid) a ≡ none)) ts
still_known m addr cid [] k l = tt
still_known m addr cid (t ∷ ts) ((a, is, free), k) (other, l) =
    let apart : addr ≢ a = λ e. other (is ∙ ap ok (sym e)) in
    ((a, is, ground (arith, get-insert m addr cid a)), still_known m addr cid ts k l)

still_new :
    (m : HashMap ℕ) (cid : CId) (addr : ℕ) (ts : List Tag)
    → All (λ t. HashMap.get m t.0 ≡ none) ts
    → Lacks (λ t. t.0) cid ts
    → All (λ t. HashMap.get (HashMap.insert m cid addr) t.0 ≡ none) ts
still_new m cid addr [] k l = tt
still_new m cid addr (t ∷ ts) (free, k) (other, l) =
    (ground (arith, get-insert m cid addr t.0), still_new m cid addr ts k l)

module _ {V : Type 0} where
  -- What holds while the hook's answers are carried out.
  abbrev pub Ready : Server V → Type 0
  Ready self =
      IsMirror self × IsNumbered self (tags self.new_cons) × HaveAddrs self (tags self.new_cons)

  -- A connection that waits no more.
  taken-Ready :
      (self : Server V) (i : ℕ) (r : NewCon × List NewCon)
      → take_out self.new_cons i ≡ ok r
      → Ready self
      → Ready (record self { new_cons = r.1 })
  taken-Ready self i r e (m, n, f) = (
    record { there = m.there; back = m.back; connected = m.connected; addressed = m.addressed },
    record {
      bounded = (take_out-All _ _ self.new_cons i r e n.bounded).1;
      new_cids = (take_out-All _ _ self.new_cons i r e n.new_cids).1;
      cids = (take_out-Distinct _ (λ t. t.0) self.new_cons i r e n.cids).1;
      below = n.below;
    },
    record {
      known = (take_out-All _ _ self.new_cons i r e f.known).1;
      addrs = (take_out-Distinct _ (λ t. t.1) self.new_cons i r e f.addrs).1;
    },
  )

  -- The connection that is taken out is as new as it was.
  taken-first :
      (self : Server V) (i : ℕ) (r : NewCon × List NewCon)
      → take_out self.new_cons i ≡ ok r
      → Ready self
      → IsNumbered (record self { new_cons = r.1 }) (tags (r.0 ∷ r.1))
        × HaveAddrs (record self { new_cons = r.1 }) (tags (r.0 ∷ r.1))
  taken-first self i r e (m, n, f) = (
    record {
      bounded = take_out-All _ _ self.new_cons i r e n.bounded;
      new_cids = take_out-All _ _ self.new_cons i r e n.new_cids;
      cids = take_out-Distinct _ (λ t. t.0) self.new_cons i r e n.cids;
      below = n.below;
    },
    record {
      known = take_out-All _ _ self.new_cons i r e f.known;
      addrs = take_out-Distinct _ (λ t. t.1) self.new_cons i r e f.addrs;
    },
  )

  with_con-Ready :
      (self : Server V) (cid : CId) (con : TcpCon) (addr : ℕ)
      → IsMirror self
      → IsNumbered self ((cid, con.tcp.peer_addr) ∷ tags self.new_cons)
      → HaveAddrs self ((cid, con.tcp.peer_addr) ∷ tags self.new_cons)
      → con.tcp.peer_addr ≡ ok addr
      → HashMap.get self.addr_cid addr ≡ none
      → Ready (with_con self cid con addr)
  with_con-Ready self cid con addr m n f known free =
      let ts = tags self.new_cons in
      (
        with_con-IsMirror self cid con addr m n.new_cids.0 free,
        record {
          bounded = n.bounded.1;
          new_cids = still_new self.cid_addr cid addr ts n.new_cids.1 n.cids.0;
          cids = n.cids.1;
          below = λ c a e.
              ground (arith, get-insert self.cid_addr cid addr c, n.below c a, n.bounded.0);
        },
        record {
          known =
              still_known self.addr_cid addr cid ts f.known.1
                (subst (λ a. Lacks (λ t. t.1) a ts) known f.addrs.0);
          addrs = f.addrs.1;
        },
      )

  Kept-Ready : (self s : Server V) → Kept self s → Ready self → Ready s
  Kept-Ready self s k (m, n, f) = (
    Kept-IsMirror self s k m,
    Kept-IsNumbered self s k n,
    record {
      known =
          subst
            (λ m. All (λ t. (a : ℕ) × (t.1 ≡ ok a) × (HashMap.get m a ≡ none)) (tags s.new_cons))
            (sym k.addr_cid) (subst (All _) (sym k.waiting) f.known);
      addrs = subst (Distinct (λ t. t.1)) (sym k.waiting) f.addrs;
    },
  )

  pub sent_on :
      (s : Server V) (sent : Server V × Io (Unit {0}))
      → (elim sent.1 as (λ x. Io (Server V)) [
        | ok u ↦ ok sent.0
        | err e ↦ ok sent.0
        | panic ↦ panic
      ])
        ≡ ok s
      → s ≡ sent.0
  sent_on s (t, ok u) e = ground arith
  sent_on s (t, err x) e = ground arith
  sent_on s (t, panic) e = absurd (ground arith)

  -- What accepting gives: the server after the connection was added and the response was sent.
  accept_incoming_ok :
      (h : Host) (self s : Server V) (cid : CId) (con : TcpCon) (resp : Any V) (addr : ℕ)
      → Tcp.peer_addr con ≡ ok addr
      → accept_incoming h self cid con resp ≡ ok s
      → s ≡ (send_to h (with_con self cid con addr) cid resp).0
  unfolding accept_incoming add_tcp_con_cid
  accept_incoming_ok h self s cid con resp addr known e =
      let (s1, added, out) = ok_before (add_tcp_con_cid self cid con) _ s e in
      let did : add_tcp_con_cid self cid con ≡ ok (with_con self cid con addr) =
        rw (add_tcp_con_cid, known) refl in
      let is : s1 ≡ with_con self cid con addr = ground arith in
      sent_on s (send_to h s1 cid resp) out ∙ ap (λ t. (send_to h t cid resp).0) is

  accepted-Ready :
      (h : Host) (self s : Server V) (new : NewCon) (resp : Any V)
      → accept_incoming h self new.cid new.con resp ≡ ok s
      → IsMirror self
      → IsNumbered self (tags (new ∷ self.new_cons))
      → HaveAddrs self (tags (new ∷ self.new_cons))
      → Ready s
  unfolding Tcp.peer_addr
  accepted-Ready h self s new resp e m n f =
      let (addr, known, free) = f.known.0 in
      let added = with_con self new.cid new.con addr in
      rw (accept_incoming_ok h self s new.cid new.con resp addr known e) (
        Kept-Ready added _ (send_to-Kept h added new.cid resp)
          (with_con-Ready self new.cid new.con addr m n f known free))

  pub accept_each-Ready :
      (h : Host) (self s : Server V) (accepted : List (ℕ × Any V))
      → accept_each h self accepted ≡ ok s
      → Ready self
      → Ready s
  unfolding accept_each
  accept_each-Ready h self s [] e ready =
      let same : self ≡ s = ground (arith, e) in subst Ready same ready
  accept_each-Ready h self s ((idx, resp) ∷ accepted) e ready =
      let (r, took, e1) = ok_before (take_out self.new_cons idx) _ s e in
      let left = record self { new_cons = r.1 } in
      let (s1, did, e2) = ok_before (accept_incoming h left r.0.cid r.0.con resp) _ s e1 in
      let (n, f) = taken-first self idx r took ready in
      let (m, _, _) = taken-Ready self idx r took ready in
      accept_each-Ready h s1 s accepted e2 (accepted-Ready h left s1 r.0 resp did m n f)

  pub reject_each-Ready :
      (self : Server V) (s : Server V × List TcpCon) (rejected : List (ℕ × Any V))
      → reject_each self rejected ≡ ok s
      → Ready self
      → Ready s.0
  unfolding reject_each
  reject_each-Ready self s [] e ready =
      let same : self ≡ s.0 = ground (arith, e) in subst Ready same ready
  reject_each-Ready self s ((idx, resp) ∷ rejected) e ready =
      let (r, took, e1) = ok_before (take_out self.new_cons idx) _ s e in
      let (con, did, e2) = ok_before (reject_incoming self r.0.con resp) _ s e1 in
      let left = record self { new_cons = r.1 } in
      let (t, rest, e3) = ok_before (reject_each left rejected) _ s e2 in
      let same : t.0 ≡ s.0 = ground (arith, e3) in
      subst Ready same (reject_each-Ready left t rejected rest (taken-Ready self idx r took ready))

  pub drop_each-Ready :
      (self s : Server V) (dead : List ℕ) → drop_each self dead ≡ ok s → Ready self → Ready s
  unfolding drop_each
  drop_each-Ready self s [] e ready =
      let same : self ≡ s = ground (arith, e) in subst Ready same ready
  drop_each-Ready self s (idx ∷ dead) e ready =
      let (r, took, e1) = ok_before (take_out self.new_cons idx) _ s e in
      drop_each-Ready (record self { new_cons = r.1 }) s dead e1 (taken-Ready self idx r took ready)
