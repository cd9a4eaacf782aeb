-- ===== src/Net/Filed.antt =====
-- What the message buffers of a client or a server are after messages were pushed, in their order.
use carrier_pigeon.Base.{
  ℕ, zero, suc, ◌<◌, ◌≡◌, refl, ap, sym, ◌∙◌, List, [], ◌∷◌, ◌++◌, Option, none, some, ok, length,
  get_elem?, if◌then◌else◌, ◌==◌, arith, Bool-cases, ==→eq, inl, inr,
}
use mathlib.Core.List.{append-nil, append_assoc}
use carrier_pigeon.Base.Lists.{get_elem?_lt}
use carrier_pigeon.Base.Buffer.{set}
use carrier_pigeon.Net.{MId}
use carrier_pigeon.Net.Msg.{ErasedNetMsg, push}

-- The elements with the number `k`, in their order.
abbrev pub of_number {ℓ} : {A : Type ℓ} → ℕ → List (ℕ × A) → List A
of_number k [] = []
of_number k ((i, a) ∷ xs) = let others = of_number k xs in if i == k then a ∷ others else others

-- A buffer, if there is one, with `xs` put at its end.
abbrev pub grown {ℓ} : {A : Type ℓ} → List A → Option (List A) → Option (List A)
grown xs none = none
grown xs (some ys) = some (ys ++ xs)

-- Each buffer has got those of `ms` that have its number, in their order.
pub record Filed {ℓ} {A : Type ℓ} (ms : List (ℕ × A)) (before after : List (List A)) : Type ℓ where
  pub size : length after ≡ length before
  pub buffers : (k : ℕ) → get_elem? after k ≡ grown (of_number k ms) (get_elem? before k)

module _ {ℓ} {A : Type ℓ} where
  of_number-append :
      (k : ℕ) (ms ns : List (ℕ × A)) → of_number k (ms ++ ns) ≡ of_number k ms ++ of_number k ns
  of_number-append k [] ns = refl
  of_number-append k ((i, a) ∷ ms) ns = ground (arith, of_number-append k ms ns)

  grown-append : (xs ys : List A) (o : Option (List A)) → grown ys (grown xs o) ≡ grown (xs ++ ys) o
  grown-append xs ys none = refl
  grown-append xs ys (some zs) = ap some (append_assoc zs xs ys)

  grown-nil : (o : Option (List A)) → o ≡ grown [] o
  grown-nil none = refl
  grown-nil (some xs) = ap some (sym (append-nil xs))

  pub Filed-nil : (buff : List (List A)) → Filed [] buff buff
  Filed-nil buff = record { size = refl; buffers = λ k. grown-nil (get_elem? buff k) }

  pub Filed-append :
      {ms ns : List (ℕ × A)} {a b c : List (List A)}
      → Filed ms a b
      → Filed ns b c
      → Filed (ms ++ ns) a c
  Filed-append {ms} {ns} {a} p q = record {
    size = q.size ∙ p.size;
    buffers = λ k.
        q.buffers k
        ∙ ap (grown (of_number k ns)) (p.buffers k)
        ∙ grown-append (of_number k ms) (of_number k ns) (get_elem? a k)
        ∙ ap (λ l. grown l (get_elem? a k)) (sym (of_number-append k ms ns));
  }

  length-set : (xs : List A) (i : ℕ) (v : A) → length (set xs i v) ≡ length xs
  length-set [] i v = refl
  length-set (x ∷ xs) zero v = refl
  length-set (x ∷ xs) (suc i) v = ap suc (length-set xs i v)

  get_elem?-set :
      (xs : List A) (i k : ℕ) (x v : A)
      → get_elem? xs i ≡ some x
      → get_elem? (set xs i v) k ≡ (if i == k then some v else get_elem? xs k)
  get_elem?-set [] i k x v at = cc
  get_elem?-set (y ∷ xs) zero zero x v at = refl
  get_elem?-set (y ∷ xs) zero (suc k) x v at = ground arith
  get_elem?-set (y ∷ xs) (suc i) zero x v at = ground arith
  get_elem?-set (y ∷ xs) (suc i) (suc k) x v at = ground (arith, get_elem?-set xs i k x v at)

module _ {ℓ} {A : Type ℓ} where
  buffers_at :
      (buff : List (List A)) (old : List A) (i k : ℕ) (a : A)
      → get_elem? buff i ≡ some old
      → get_elem? (set buff i (old ++ a ∷ [])) k
        ≡ grown (of_number k ((i, a) ∷ [])) (get_elem? buff k)
  buffers_at buff old i k a at = elim (Bool-cases (i == k)) [
    | inl same ↦
        let e = get_elem?-set buff i k old (old ++ a ∷ []) at in
        let there : get_elem? buff k ≡ some old = rw (==→eq i k same) at at in
        e ∙ rw (same, there) refl
    | inr other ↦
        get_elem?-set buff i k old (old ++ a ∷ []) at ∙ rw other (grown-nil (get_elem? buff k))
  ]

module _ {V : Type 0} where
  -- A number in range is pushed to its buffer.
  pub push-Filed :
      (buff : List (List (ErasedNetMsg V))) (mid : MId) (m : ErasedNetMsg V)
      → mid < length buff
      → (after : List (List (ErasedNetMsg V))) × (push buff mid m ≡ ok after)
        × Filed ((mid, m) ∷ []) buff after
  unfolding push
  push-Filed buff mid m bound =
      let (msgs, at) = get_elem?_lt buff mid bound in
      let after = set buff mid (msgs ++ m ∷ []) in
      (
        after,
        rw (at, push) refl,
        record {
          size = length-set buff mid (msgs ++ m ∷ []);
          buffers = λ k. buffers_at buff msgs mid k m at;
        },
      )
