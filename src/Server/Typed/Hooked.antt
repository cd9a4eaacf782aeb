-- ===== src/Server/Typed/Hooked.antt =====
-- Where the program's hooks are called, the buffers of a server of src/server.rs stay as they are.
use carrier_pigeon.Base.{
  ℕ, ◌+◌, ◌≡◌, refl, subst, List, [], ◌∷◌, Bool, true, false, ok, length, arith, ◌>>=◌,
  Outcome-cases, Bool-cases, inl, inr,
}
use carrier_pigeon.Base.Results.{after_ok}
use carrier_pigeon.Net.{CId, TypeId}
use carrier_pigeon.Net.Status.{Status}
use carrier_pigeon.Time.{Host}
use carrier_pigeon.Table.{connection_type_mid}
use carrier_pigeon.Table.Parts.Codec.{index}
use carrier_pigeon.Tcp.{TcpCon}
use carrier_pigeon.Server.{Server, alive, rm_tcp_con}
use carrier_pigeon.Server.Disconnects.{
  handle_live, pop_one, handle_disconnect, pop_all, handle_disconnects,
}
use carrier_pigeon.Server.Accept.{start_incoming}
use carrier_pigeon.Server.Accept.Handle.{
  accept_each, reject_each, drop_each, Found, Hook, scan, handle_pending, handle_new_con,
  handle_new_cons,
}
use carrier_pigeon.Server.Mirror.Pending.{waiting_cases}
use carrier_pigeon.Server.Typed.{Same, Same-refl, Same-trans}
use carrier_pigeon.Server.Typed.Handled.{
  rm_tcp_con-Same, start_incoming-Same, accept_each-Same, reject_each-Same, drop_each-Same,
}

module _ {V : Type 0} where
  -- A field that is neither the table nor the buffers was set.
  set-Same : (self t s : Server V) → Same self t → t ≡ s → Same self s
  set-Same self t s k same = subst (Same self) same k

module _ {V H : Type 0} where
  handle_live-Same :
      (hook : H → CId → Status V → H) (st : H) (self : Server V) (cid : CId) (status : Status V)
      (r : Server V × H)
      → handle_live hook st self cid status ≡ ok r
      → Same self r.0
  unfolding handle_live
  handle_live-Same hook st self cid status r e = elim (Outcome-cases (rm_tcp_con self cid)) [
    | inl (s, q) ↦
        set-Same self s r.0 (rm_tcp_con-Same self s cid q)
          (ground (arith, rw (handle_live, q) at e))
    | inr (inl (x, q)) ↦ absurd (ground (arith, rw (handle_live, q) at e))
    | inr (inr q) ↦ absurd (ground (arith, rw (handle_live, q) at e))
  ]

  pop_all-Same :
      (hook : H → CId → Status V → H) (st : H) (self : Server V) (q : List (CId × Status V)) (i : ℕ)
      (r : Server V × H × ℕ)
      → pop_all hook st self q i ≡ ok r
      → Same self r.0
  unfolding pop_all
  pop_all-Same hook st self [] i r e =
      set-Same self (record self { disconnected = [] }) r.0
        (record { parts = refl; msg_buff = refl }) (ground (arith, e))
  pop_all-Same hook st self ((cid, status) ∷ q) i r e = elim (Bool-cases (alive self cid)) [
    | inl up ↦
        after_ok (handle_live hook st self cid status) _ r (rw (pop_all, up) at e) (λ t live out.
          Same-trans (handle_live-Same hook st self cid status t live)
            (pop_all-Same hook t.1 t.0 q (i + 1) r out))
    | inr gone ↦ pop_all-Same hook st self q i r (rw (pop_all, gone) at e)
  ]

  pop_one-Same :
      (hook : H → CId → Status V → H) (st : H) (self : Server V) (q : List (CId × Status V))
      (r : Server V × H × Bool)
      → pop_one hook st self q ≡ ok r
      → Same self r.0
  unfolding pop_one
  pop_one-Same hook st self [] r e =
      set-Same self (record self { disconnected = [] }) r.0
        (record { parts = refl; msg_buff = refl }) (ground (arith, e))
  pop_one-Same hook st self ((cid, status) ∷ q) r e = elim (Bool-cases (alive self cid)) [
    | inl up ↦
        after_ok (handle_live hook st self cid status) _ r (rw (pop_one, up) at e) (λ t live out.
          let k = handle_live-Same hook st self cid status t live in
          set-Same self (record t.0 { disconnected = q }) r.0
            (record { parts = k.parts; msg_buff = k.msg_buff }) (ground (arith, out)))
    | inr gone ↦ pop_one-Same hook st self q r (rw (pop_one, gone) at e)
  ]

  pub handle_disconnects-Same :
      (hook : H → CId → Status V → H) (st : H) (self : Server V) (r : Server V × H × ℕ)
      → handle_disconnects hook st self ≡ ok r
      → Same self r.0
  unfolding handle_disconnects
  handle_disconnects-Same hook st self r e = pop_all-Same hook st self self.disconnected 0 r e

  pub handle_disconnect-Same :
      (hook : H → CId → Status V → H) (st : H) (self : Server V) (r : Server V × H × Bool)
      → handle_disconnect hook st self ≡ ok r
      → Same self r.0
  unfolding handle_disconnect
  handle_disconnect-Same hook st self r e = pop_one-Same hook st self self.disconnected r e

  hooked-Same :
      (h : Host) (s : Server V) (found : Found V H) (r : Server V × H × ℕ × List TcpCon)
      → (accept_each h (record s { new_cons = found.new_cons }) found.accepted >>= λ s1.
          reject_each s1 found.rejected >>= λ s2. drop_each s2.0 found.dead >>= λ s3.
          ok (s3, found.hook_state, length found.accepted + length found.rejected, s2.1))
        ≡ ok r
      → Same s r.0
  hooked-Same h s found r e =
      after_ok (accept_each h (record s { new_cons = found.new_cons }) found.accepted) _ r e
        (λ s1 acc e1. after_ok (reject_each s1 found.rejected) _ r e1 (λ s2 rej e2.
          after_ok (drop_each s2.0 found.dead) _ r e2 (λ s3 dead e3.
            let first =
              accept_each-Same h (record s { new_cons = found.new_cons }) s1 found.accepted acc in
            let k : Same s s1 = record { parts = first.parts; msg_buff = first.msg_buff } in
            set-Same s s3 r.0
              (Same-trans k (
                Same-trans (reject_each-Same s1 s2 found.rejected rej)
                  (drop_each-Same s2.0 s3 found.dead dead)))
              (ground (arith, e3)))))

  handle_pending-Same :
      (one : Bool) (h : Host) (now : ℕ) (hook : Hook V H) (tid : TypeId) (st : H) (self : Server V)
      (r : Server V × H × ℕ × List TcpCon)
      → handle_pending one h now hook tid st self ≡ ok r
      → Same self r.0
  unfolding handle_pending
  handle_pending-Same one h now hook tid st self r e =
      after_ok (start_incoming h.overflow_checks now self) _ r e (λ s came e1.
        Same-trans (start_incoming-Same h.overflow_checks now self s came)
          (elim (waiting_cases s.new_cons) [
            | inl empty ↦ set-Same s s r.0 (Same-refl s) (ground (arith, rw empty at e1))
            | inr (new, rest, are) ↦
                after_ok (index s.parts.deser connection_type_mid) _ r (rw are at e1) (λ f _ e2.
                  after_ok (scan one hook f tid s.config.timeout now 0 (new ∷ rest) st) _ r e2
                    (λ found scanned e3. hooked-Same h s found r e3))
          ]))

  pub handle_new_cons-Same :
      (h : Host) (now : ℕ) (hook : Hook V H) (tid : TypeId) (st : H) (self : Server V)
      (r : Server V × H × ℕ)
      → handle_new_cons h now hook tid st self ≡ ok r
      → Same self r.0
  unfolding handle_new_cons
  handle_new_cons-Same h now hook tid st self r e =
      after_ok (handle_pending false h now hook tid st self) _ r e (λ t handled out.
        set-Same self t.0 r.0 (handle_pending-Same false h now hook tid st self t handled)
          (ground (arith, out)))

  pub handle_new_con-Same :
      (h : Host) (now : ℕ) (hook : Hook V H) (tid : TypeId) (st : H) (self : Server V)
      (r : Server V × H × Bool)
      → handle_new_con h now hook tid st self ≡ ok r
      → Same self r.0
  unfolding handle_new_con
  handle_new_con-Same h now hook tid st self r e =
      after_ok (handle_pending true h now hook tid st self) _ r e (λ t handled out.
        set-Same self t.0 r.0 (handle_pending-Same true h now hook tid st self t handled)
          (ground (arith, out)))
