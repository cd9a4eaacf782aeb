-- ===== src/Server/Disconnects/Laws.antt =====
-- Disconnections of src/server.rs.
use mathlib.Core.Path.{fun_ext}
use carrier_pigeon.Base.{
  ℕ, ◌+◌, List, [], ◌∷◌, ◌≡◌, refl, ap, subst, length, if◌then◌else◌, Bool, true, false, not, ◌&&◌,
  ok, ◌==◌, arith, any, ==→eq, Bool-cases, inl, inr,
}
use carrier_pigeon.Net.{CId}
use carrier_pigeon.Net.Status.{Status}
use carrier_pigeon.Server.{Server, alive}
use carrier_pigeon.Server.Mirror.{IsMirror}
use carrier_pigeon.Server.Mirror.Laws.{rm_tcp_con-IsMirror}
use carrier_pigeon.Server.Disconnects.{
  handle_live, pop_one, handle_disconnect, pop_all, handle_disconnects,
}

module _ {V : Type 0} where
  -- Whether a queue names a connection.
  unfoldable pub queued : List (CId × Status V) → CId → Bool
  queued q cid = any (λ e. e.0 == cid) q

  requeued-IsMirror :
      (self : Server V) (q : List (CId × Status V))
      → IsMirror self
      → IsMirror (record self { disconnected = q })
  requeued-IsMirror self q m = record {
    there = m.there;
    back = m.back;
    connected = m.connected;
    addressed = m.addressed;
  }

  same_alive : (self : Server V) (c d : CId) → (c == d) ≡ true → alive self c ≡ alive self d
  same_alive self c d e = ap (alive self) (==→eq c d e)

  -- The entries of a queue that are handled: the first of each connection that `live` holds of.
  abbrev pub firsts : (CId → Bool) → List (CId × Status V) → List (CId × Status V)
  firsts live [] = []
  firsts live ((cid, status) ∷ q) =
      let handled = (cid, status) ∷ firsts (λ c. if cid == c then false else live c) q in
      let skipped = firsts live q in if live cid then handled else skipped

module _ {V H : Type 0} where
  -- The hook is called with each entry, in order.
  abbrev pub told : (H → CId → Status V → H) → H → List (CId × Status V) → H
  told hook st [] = st
  told hook st ((cid, status) ∷ q) = told hook (hook st cid status) q

  -- What the loop has to show from a state on.
  abbrev Ends : (H → CId → Status V → H) → H → Server V → List (CId × Status V) → ℕ → Type 0
  Ends hook st self q i =
      (r : Server V × H × ℕ) × (pop_all hook st self q i ≡ ok r)
      × IsMirror r.0
      × (r.0.disconnected ≡ [])
      × ((c : CId) → alive r.0 c ≡ (alive self c && not (queued q c)))
      × (r.1 ≡ told hook st (firsts (alive self) q))
      × (r.2 ≡ i + length (firsts (alive self) q))

  pop_all_total :
      (hook : H → CId → Status V → H) (st : H) (self : Server V) (q : List (CId × Status V)) (i : ℕ)
      → IsMirror self
      → Ends hook st self q i
  unfolding pop_all queued alive
  pop_all_total hook st self [] i m = (
    (record self { disconnected = [] }, st, i),
    refl,
    requeued-IsMirror self [] m,
    refl,
    λ c. ground arith,
    refl,
    omega arith,
  )
  pop_all_total hook st self ((cid, status) ∷ q) i m = elim (Bool-cases (alive self cid)) [
    | inl up ↦
        let (self', removed, m', lives, _) = rm_tcp_con-IsMirror self cid m up in
        let (r, e, mirror, empty, after, calls, count) =
          pop_all_total hook (hook st cid status) self' q (i + 1) m' in
        let fewer : alive self' ≡ (λ c. if cid == c then false else alive self c) = fun_ext lives in
        (
          r,
          rw (pop_all, up, handle_live, removed) e,
          mirror,
          empty,
          λ c. ground (arith, after c, lives c),
          rw up (rw fewer at calls),
          rw up (omega (arith, rw fewer at count)),
        )
    | inr gone ↦
        let (r, e, mirror, empty, after, calls, count) = pop_all_total hook st self q i m in
        (
          r,
          rw (pop_all, gone) e,
          mirror,
          empty,
          λ c. ground (arith, after c, gone, same_alive self cid c),
          rw gone calls,
          rw gone count,
        )
  ]

  -- Where the tables mirror each other, the loop empties the queue without a panic: the tables still
  -- mirror each other, and exactly the connections that the queue named are gone. The hook is called
  -- once for each connection that is gone, with the first status that the queue had for it, in the
  -- queue's order, and the count is that of the calls.
  pub handle_disconnects_total :
      (hook : H → CId → Status V → H) (st : H) (self : Server V)
      → IsMirror self
      → (r : Server V × H × ℕ) × (handle_disconnects hook st self ≡ ok r)
        × IsMirror r.0
        × (r.0.disconnected ≡ [])
        × ((c : CId) → alive r.0 c ≡ (alive self c && not (queued self.disconnected c)))
        × (r.1 ≡ told hook st (firsts (alive self) self.disconnected))
        × (r.2 ≡ length (firsts (alive self) self.disconnected))
  unfolding handle_disconnects
  handle_disconnects_total hook st self m =
      let (r, e, mirror, empty, after, calls, count) =
        pop_all_total hook st self self.disconnected 0 m in
      (r, e, mirror, empty, after, calls, omega arith)

  pop_one-IsMirror :
      (hook : H → CId → Status V → H) (st : H) (self : Server V) (q : List (CId × Status V))
      (r : Server V × H × Bool)
      → IsMirror self
      → pop_one hook st self q ≡ ok r
      → IsMirror r.0
  unfolding pop_one
  pop_one-IsMirror hook st self [] r m e =
      let last : (record self { disconnected = [] }, st, false) ≡ r = ground (arith, e) in
      subst (λ (t : Server V × H × Bool). IsMirror t.0) last (requeued-IsMirror self [] m)
  pop_one-IsMirror hook st self ((cid, status) ∷ q) r m e = elim (Bool-cases (alive self cid)) [
    | inl up ↦
        let (self', removed, m', _, _) = rm_tcp_con-IsMirror self cid m up in
        let one : (record self' { disconnected = q }, hook st cid status, true) ≡ r =
          ground (arith, rw (pop_one, up, handle_live, removed) at e) in
        subst (λ (t : Server V × H × Bool). IsMirror t.0) one (requeued-IsMirror self' q m')
    | inr gone ↦ pop_one-IsMirror hook st self q r m (rw (pop_one, gone) at e)
  ]

  -- One disconnection is handled, or none, and the tables mirror each other as before.
  pub handle_disconnect-IsMirror :
      (hook : H → CId → Status V → H) (st : H) (self : Server V) (r : Server V × H × Bool)
      → IsMirror self
      → handle_disconnect hook st self ≡ ok r
      → IsMirror r.0
  unfolding handle_disconnect
  handle_disconnect-IsMirror hook st self = pop_one-IsMirror hook st self self.disconnected
