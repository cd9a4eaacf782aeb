-- ===== src/Server/Mirror/Removed.antt =====
-- `handle_disconnect` and `handle_disconnects` of src/server.rs keep the numbers in order.
use carrier_pigeon.Base.{
  ℕ, ◌+◌, ◌≡◌, subst, List, [], ◌∷◌, Bool, none, ok, All, arith, Bool-cases, Option-cases,
  Outcome-cases, inl, inr,
}
use carrier_pigeon.Base.HashMap
use carrier_pigeon.Base.HashMap.{HashMap, get-remove}
use carrier_pigeon.Base.Results.{after_ok}
use carrier_pigeon.Net.{CId}
use carrier_pigeon.Net.Status.{Status}
use carrier_pigeon.Server.{Server, alive, rm_tcp_con}
use carrier_pigeon.Server.Disconnects.{
  handle_live, pop_one, handle_disconnect, pop_all, handle_disconnects,
}
use carrier_pigeon.Server.Mirror.{IsNumbered, Tag, tags}

still_unused :
    (m : HashMap ℕ) (cid : CId) (ts : List Tag)
    → All (λ t. HashMap.get m t.0 ≡ none) ts
    → All (λ t. HashMap.get (HashMap.remove m cid) t.0 ≡ none) ts
still_unused m cid [] a = tt
still_unused m cid (t ∷ ts) (free, a) =
    (ground (arith, get-remove m cid t.0), still_unused m cid ts a)

module _ {V : Type 0} where
  abbrev Numbers : Server V → Type 0
  Numbers self = IsNumbered self (tags self.new_cons)

  requeued-Numbers :
      (self s : Server V) (q : List (CId × Status V))
      → record self { disconnected = q } ≡ s
      → Numbers self
      → Numbers s
  requeued-Numbers self s q same n =
      subst Numbers same
        (record { bounded = n.bounded; new_cids = n.new_cids; cids = n.cids; below = n.below })

  rm_tcp_con-Numbers :
      (self s : Server V) (cid : CId) → rm_tcp_con self cid ≡ ok s → Numbers self → Numbers s
  unfolding rm_tcp_con
  rm_tcp_con-Numbers self s cid e n = elim (Option-cases (HashMap.get self.tcp cid)) [
    | inl gone ↦ absurd (ground arith)
    | inr (con, held) ↦ elim (Option-cases (HashMap.get self.cid_addr cid)) [
      | inl gone ↦ absurd (ground arith)
      | inr (addr, known) ↦
          let out = record self {
            tcp = HashMap.remove self.tcp cid;
            cid_addr = HashMap.remove self.cid_addr cid;
            addr_cid = HashMap.remove self.addr_cid addr;
          } in
          let same : out ≡ s = ground (arith, rw (rm_tcp_con, held, known) at e) in
          subst Numbers same (record {
            bounded = n.bounded;
            new_cids = still_unused self.cid_addr cid (tags self.new_cons) n.new_cids;
            cids = n.cids;
            below = λ c a e. ground (arith, get-remove self.cid_addr cid c, n.below c a);
          })
    ]
  ]

module _ {V H : Type 0} where
  handle_live-Numbers :
      (hook : H → CId → Status V → H) (st : H) (self : Server V) (cid : CId) (status : Status V)
      (r : Server V × H)
      → handle_live hook st self cid status ≡ ok r
      → Numbers self
      → Numbers r.0
  unfolding handle_live
  handle_live-Numbers hook st self cid status r e n = elim (Outcome-cases (rm_tcp_con self cid)) [
    | inl (s, q) ↦
        let same : s ≡ r.0 = ground (arith, rw (handle_live, q) at e) in
        subst Numbers same (rm_tcp_con-Numbers self s cid q n)
    | inr (inl (x, q)) ↦ absurd (ground (arith, rw (handle_live, q) at e))
    | inr (inr q) ↦ absurd (ground (arith, rw (handle_live, q) at e))
  ]

  pop_all-Numbers :
      (hook : H → CId → Status V → H) (st : H) (self : Server V) (q : List (CId × Status V)) (i : ℕ)
      (r : Server V × H × ℕ)
      → pop_all hook st self q i ≡ ok r
      → Numbers self
      → Numbers r.0
  unfolding pop_all
  pop_all-Numbers hook st self [] i r e n = requeued-Numbers self r.0 [] (ground (arith, e)) n
  pop_all-Numbers hook st self ((cid, status) ∷ q) i r e n = elim (Bool-cases (alive self cid)) [
    | inl up ↦
        after_ok (handle_live hook st self cid status) _ r (rw (pop_all, up) at e) (λ t live out.
          pop_all-Numbers hook t.1 t.0 q (i + 1) r out
            (handle_live-Numbers hook st self cid status t live n))
    | inr gone ↦ pop_all-Numbers hook st self q i r (rw (pop_all, gone) at e) n
  ]

  pop_one-Numbers :
      (hook : H → CId → Status V → H) (st : H) (self : Server V) (q : List (CId × Status V))
      (r : Server V × H × Bool)
      → pop_one hook st self q ≡ ok r
      → Numbers self
      → Numbers r.0
  unfolding pop_one
  pop_one-Numbers hook st self [] r e n = requeued-Numbers self r.0 [] (ground (arith, e)) n
  pop_one-Numbers hook st self ((cid, status) ∷ q) r e n = elim (Bool-cases (alive self cid)) [
    | inl up ↦
        after_ok (handle_live hook st self cid status) _ r (rw (pop_one, up) at e) (λ t live out.
          requeued-Numbers t.0 r.0 q (ground (arith, out))
            (handle_live-Numbers hook st self cid status t live n))
    | inr gone ↦ pop_one-Numbers hook st self q r (rw (pop_one, gone) at e) n
  ]

  pub handle_disconnects-Numbers :
      (hook : H → CId → Status V → H) (st : H) (self : Server V) (r : Server V × H × ℕ)
      → handle_disconnects hook st self ≡ ok r
      → Numbers self
      → Numbers r.0
  unfolding handle_disconnects
  handle_disconnects-Numbers hook st self r e n =
      pop_all-Numbers hook st self self.disconnected 0 r e n

  pub handle_disconnect-Numbers :
      (hook : H → CId → Status V → H) (st : H) (self : Server V) (r : Server V × H × Bool)
      → handle_disconnect hook st self ≡ ok r
      → Numbers self
      → Numbers r.0
  unfolding handle_disconnect
  handle_disconnect-Numbers hook st self r e n =
      pop_one-Numbers hook st self self.disconnected r e n
