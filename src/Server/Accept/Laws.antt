-- ===== src/Server/Accept/Laws.antt =====
-- New connections of src/server.rs.
use carrier_pigeon.Base.{
  ◌>>=◌, ℕ, zero, suc, ◌+◌, ◌≤◌, ◌<◌, ◌≡◌, refl, ap, sym, ◌∙◌, err, ◌⊎◌, inl, inr, List, [], ◌∷◌,
  ok, panic, length, arith, Option-cases, get_elem?, subst, ltb, ◌-◌, All, true, false,
}
use carrier_pigeon.Base.Results.{timed_out}
use carrier_pigeon.Server.{Server, NewCon}
use carrier_pigeon.Server.Accept.Handle.{
  take_out, drop_each, accept_each, reject_each, scan, stay, bury, Hook, handle_new_cons,
  handle_pending,
}
use carrier_pigeon.Server.Accept.{start_incoming, accept_pending, handle_con_helper}
use carrier_pigeon.Table.{connection_type_mid}
use carrier_pigeon.Table.Parts.Codec.{index}
use carrier_pigeon.Net.{TypeId, DeserFn}
use carrier_pigeon.Time.{Host}

-- `k`, `k + 1`, and so on, `n` numbers.
abbrev pub positions : ℕ → ℕ → List ℕ
positions k zero = []
positions k (suc n) = k ∷ positions (k + 1) n

module _ {ℓ} {A : Type ℓ} where
  take_out_cases :
      (xs : List A) (i : ℕ)
      → ((length xs ≤ i) × (take_out xs i ≡ panic))
        ⊎ ((r : A × List A) × (take_out xs i ≡ ok r)
            × (i < length xs)
            × (suc (length r.1) ≡ length xs))
  unfolding take_out
  take_out_cases [] i = inl (omega arith, refl)
  take_out_cases (x ∷ xs) zero = inr ((x, xs), refl, omega arith, refl)
  take_out_cases (x ∷ xs) (suc i) = elim (take_out_cases xs i) [
    | inl (past, e) ↦ inl (omega arith, rw e)
    | inr ((y, ys), e, within, size) ↦ inr ((y, x ∷ ys), rw e, omega arith, ap suc size)
  ]

  length_cases : (xs : List A) → 2 ≤ length xs → (n : ℕ) × (length xs ≡ suc (suc n))
  length_cases [] more = absurd (omega arith)
  length_cases (x ∷ []) more = absurd (omega arith)
  length_cases (x ∷ y ∷ xs) more = (length xs, refl)

  two_cases :
      (xs : List A) → 2 ≤ length xs → (x : A) × (ys : List A) × (xs ≡ x ∷ ys) × (1 ≤ length ys)
  two_cases [] more = absurd (omega arith)
  two_cases (x ∷ xs) more = (x, xs, refl, omega arith)

module _ {V : Type 0} where
  drop_from-panics :
      (n k : ℕ) (self : Server V)
      → length self.new_cons ≡ suc n
      → 1 ≤ n + k
      → drop_each self (positions k (suc n)) ≡ panic
  unfolding drop_each
  drop_from-panics zero k self size late = elim (take_out_cases self.new_cons k) [
    | inl (past, e) ↦ rw e
    | inr (r, e, within, left) ↦ absurd (omega arith)
  ]
  drop_from-panics (suc n) k self size late = elim (take_out_cases self.new_cons k) [
    | inl (past, e) ↦ rw e
    | inr (r, e, within, left) ↦
        rw e
          (drop_from-panics n (k + 1) (record self { new_cons = r.1 }) (omega arith) (omega arith))
  ]

  -- Where all of two or more new connections are dead, taking them out by their positions, the first
  -- first, panics: each one that is taken out moves the others down.
  pub drop_each_all-panics :
      (self : Server V)
      → 2 ≤ length self.new_cons
      → drop_each self (positions 0 (length self.new_cons)) ≡ panic
  drop_each_all-panics self more =
      let (n, size) = length_cases self.new_cons more in
      rw size (drop_from-panics (suc n) 0 self size (omega arith))

  late_con :
      (f : DeserFn V) (tid : TypeId) (timeout now : ℕ) (new : NewCon)
      → ltb timeout (now - new.time) ≡ true
      → handle_con_helper f tid timeout now new ≡ (new, err timed_out)
  unfolding handle_con_helper
  late_con f tid timeout now new l = rw (l, handle_con_helper)

module _ {V H : Type 0} where
  -- A pass over connections that are all out of time finds them all dead.
  scan_timeout :
      (hook : Hook V H) (f : DeserFn V) (tid : TypeId) (timeout now k : ℕ) (news : List NewCon)
      (st : H)
      → All (λ new. ltb timeout (now - new.time) ≡ true) news
      → scan false hook f tid timeout now k news st
        ≡ ok (record {
          new_cons = news;
          accepted = [];
          rejected = [];
          dead = positions k (length news);
          hook_state = st;
        })
  unfolding scan bury stay
  scan_timeout hook f tid timeout now k [] st late = refl
  scan_timeout hook f tid timeout now k (new ∷ news) st (l, ls) =
      let dead = late_con f tid timeout now new l in
      rw (scan, ap (λ r. r.1) dead, ap (λ r. r.0) dead)
        (ap (bury new k) (scan_timeout hook f tid timeout now (k + 1) news st ls))

  handle_pending_timeout :
      (h : Host) (now : ℕ) (hook : Hook V H) (tid : TypeId) (st : H) (self : Server V)
      (new : NewCon) (news : List NewCon)
      → start_incoming h.overflow_checks now self ≡ ok self
      → self.new_cons ≡ new ∷ news
      → 1 ≤ length news
      → All (λ new. ltb self.config.timeout (now - new.time) ≡ true) self.new_cons
      → handle_pending false h now hook tid st self ≡ panic
  unfolding handle_pending index accept_each reject_each
  handle_pending_timeout h now hook tid st self new news start are more late =
      elim (Option-cases (get_elem? self.parts.deser connection_type_mid)) [
        | inl gone ↦ rw (start, handle_pending, are, index, gone)
        | inr (f, here) ↦
            let found =
              scan_timeout hook f tid self.config.timeout now 0 (new ∷ news) st
                (subst (All (λ n. ltb self.config.timeout (now - n.time) ≡ true)) are late) in
            let bad = drop_each_all-panics (record self { new_cons = new ∷ news }) (omega arith) in
            rw (start, handle_pending, are, index, here, found, bad)
      ]

  -- `handle_new_cons` panics where two or more connections wait, all are out of time, and the
  -- listener has no other to accept.
  pub handle_new_cons_timeout-panics :
      (h : Host) (now : ℕ) (hook : Hook V H) (tid : TypeId) (st : H) (self : Server V)
      → self.listener.pending ≡ []
      → 2 ≤ length self.new_cons
      → All (λ new. ltb self.config.timeout (now - new.time) ≡ true) self.new_cons
      → handle_new_cons h now hook tid st self ≡ panic
  unfolding handle_new_cons start_incoming accept_pending
  handle_new_cons_timeout-panics h now hook tid st self quiet more late =
      let (new, news, are, others) = two_cases self.new_cons more in
      ap (λ r. r >>= λ r. ok (r.0, r.1, r.2))
        (handle_pending_timeout h now hook tid st self new news
          (ap (accept_pending h.overflow_checks now self) quiet
            ∙ ap (λ p. ok (record self { listener = record self.listener { pending = p } }))
                (sym quiet))
          are others late)
