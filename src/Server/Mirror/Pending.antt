-- ===== src/Server/Mirror/Pending.antt =====
-- `handle_new_con` and `handle_new_cons` of src/server.rs keep the tables.
use carrier_pigeon.Base.{
  ℕ, ◌≡◌, ◌⊎◌, refl, ap, sym, subst, ◌∙◌, List, [], ◌∷◌, Bool, true, false, ok, inl, inr, arith,
  length, ◌>>=◌, ◌+◌,
}
use carrier_pigeon.Base.Results.{after_ok}
use carrier_pigeon.Net.{TypeId}
use carrier_pigeon.Time.{Host}
use carrier_pigeon.Table.{connection_type_mid}
use carrier_pigeon.Table.Parts.Codec.{index}
use carrier_pigeon.Tcp.{TcpCon}
use carrier_pigeon.Server.{Server, NewCon}
use carrier_pigeon.Server.Accept.{start_incoming}
use carrier_pigeon.Server.Accept.Handle.{
  accept_each, reject_each, drop_each, Found, Hook, scan, handle_pending, handle_new_con,
  handle_new_cons,
}
use carrier_pigeon.Server.Mirror.{IsNumbered, HaveAddrs, Sound, tags}
use carrier_pigeon.Server.Mirror.Waiting.{scan-Leaves, Leaves}
use carrier_pigeon.Server.Mirror.Hooked.{
  Ready, accept_each-Ready, reject_each-Ready, drop_each-Ready,
}

pub waiting_cases :
    (news : List NewCon)
    → (news ≡ []) ⊎ ((new : NewCon) × (rest : List NewCon) × (news ≡ new ∷ rest))
waiting_cases [] = inl refl
waiting_cases (new ∷ rest) = inr (new, rest, refl)

module _ {V H : Type 0} where
  found-Ready :
      (s : Server V) (f : Found V H)
      → Leaves (tags s.new_cons) (ok f)
      → Ready s
      → Ready (record s { new_cons = f.new_cons })
  found-Ready s f same (m, numbered, addrs) =
      let n = subst (IsNumbered s) (sym same) numbered in
      let a = subst (HaveAddrs s) (sym same) addrs in
      (
        record { there = m.there; back = m.back; connected = m.connected; addressed = m.addressed },
        record { bounded = n.bounded; new_cids = n.new_cids; cids = n.cids; below = n.below },
        record { known = a.known; addrs = a.addrs },
      )

  -- What follows the pass over the connections.
  hooked-Ready :
      (h : Host) (s : Server V) (found : Found V H) (r : Server V × H × ℕ × List TcpCon)
      → (accept_each h (record s { new_cons = found.new_cons }) found.accepted >>= λ s1.
          reject_each s1 found.rejected >>= λ s2. drop_each s2.0 found.dead >>= λ s3.
          ok (s3, found.hook_state, length found.accepted + length found.rejected, s2.1))
        ≡ ok r
      → Ready (record s { new_cons = found.new_cons })
      → Ready r.0
  hooked-Ready h s found r e ready =
      after_ok (accept_each h (record s { new_cons = found.new_cons }) found.accepted) _ r e
        (λ s1 acc e1. after_ok (reject_each s1 found.rejected) _ r e1 (λ s2 rej e2.
          after_ok (drop_each s2.0 found.dead) _ r e2 (λ s3 dead e3.
            let same : (s3, found.hook_state, length found.accepted + length found.rejected, s2.1)
                ≡ r =
              ground (arith, e3) in
            subst (λ (t : Server V × H × ℕ × List TcpCon). Ready t.0) same
              (drop_each-Ready s2.0 s3 found.dead dead (
                reject_each-Ready s1 s2 found.rejected rej
                  (accept_each-Ready h _ s1 found.accepted acc ready))))))

  handle_pending-Ready :
      (one : Bool) (h : Host) (now : ℕ) (hook : Hook V H) (tid : TypeId) (st : H)
      (self s : Server V) (r : Server V × H × ℕ × List TcpCon)
      → start_incoming h.overflow_checks now self ≡ ok s
      → handle_pending one h now hook tid st self ≡ ok r
      → Ready s
      → Ready r.0
  unfolding handle_pending
  handle_pending-Ready one h now hook tid st self s r came e ready =
      elim (waiting_cases s.new_cons) [
        | inl empty ↦
            let same : (s, st, 0, []) ≡ r = ground (arith, rw (handle_pending, came, empty) at e) in
            subst (λ (t : Server V × H × ℕ × List TcpCon). Ready t.0) same ready
        | inr (new, rest, are) ↦
            after_ok (index s.parts.deser connection_type_mid) _ r
              (rw (handle_pending, came, are) at e)
              (λ f _ e1.
                after_ok (scan one hook f tid s.config.timeout now 0 (new ∷ rest) st) _ r e1
                  (λ found scanned e2.
                    let leaves : Leaves (tags (new ∷ rest)) (ok found) =
                      subst (Leaves (tags (new ∷ rest))) scanned
                        (scan-Leaves one hook f tid s.config.timeout now 0 (new ∷ rest) st) in
                    hooked-Ready h s found r e2
                      (found-Ready s found (leaves ∙ ap tags (sym are)) ready)))
      ]

  pub handle_new_cons-Sound :
      (h : Host) (now : ℕ) (hook : Hook V H) (tid : TypeId) (st : H) (self s : Server V)
      (r : Server V × H × ℕ)
      → start_incoming h.overflow_checks now self ≡ ok s
      → HaveAddrs s (tags s.new_cons)
      → handle_new_cons h now hook tid st self ≡ ok r
      → Sound s
      → Sound r.0
  unfolding handle_new_cons
  handle_new_cons-Sound h now hook tid st self s r came addrs e (m, n) =
      after_ok (handle_pending false h now hook tid st self) _ r e (λ t handled out.
        let same : t.0 ≡ r.0 = ground (arith, out) in
        let (m', n', _) =
          handle_pending-Ready false h now hook tid st self s t came handled (m, n, addrs) in
        subst Sound same (m', n'))

  pub handle_new_con-Sound :
      (h : Host) (now : ℕ) (hook : Hook V H) (tid : TypeId) (st : H) (self s : Server V)
      (r : Server V × H × Bool)
      → start_incoming h.overflow_checks now self ≡ ok s
      → HaveAddrs s (tags s.new_cons)
      → handle_new_con h now hook tid st self ≡ ok r
      → Sound s
      → Sound r.0
  unfolding handle_new_con
  handle_new_con-Sound h now hook tid st self s r came addrs e (m, n) =
      after_ok (handle_pending true h now hook tid st self) _ r e (λ t handled out.
        let same : t.0 ≡ r.0 = ground (arith, out) in
        let (m', n', _) =
          handle_pending-Ready true h now hook tid st self s t came handled (m, n, addrs) in
        subst Sound same (m', n'))
