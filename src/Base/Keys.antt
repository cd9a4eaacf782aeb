-- ===== src/Base/Keys.antt =====
-- Lists whose elements have different keys.
use mathlib.Core.Path.{subst₂, ◌≡◌, refl, sym, ◌∙◌}
use mathlib.Core.Logic.{◌≢◌}
use mathlib.Core.Bool.{Bool}
use native.Mathlib.Omega.{arith}
use mathlib.Core.List.{Permᴰ}
use mathlib.Core.List.Permᴰ.{nil, cons, swap, trans}
use mathlib.Core.List.{List, [], ◌∷◌, ◌++◌}
use carrier_pigeon.Base.Lists.{All, any}

module _ {ℓ κ} {A : Type ℓ} {K : Type κ} where
  -- No element has the key `k`.
  abbrev pub Lacks : (A → K) → K → List A → Type κ
  Lacks f k xs = All (λ x. f x ≢ k) xs

  abbrev pub Distinct : (A → K) → List A → Type κ
  Distinct f [] = Unit
  Distinct f (x ∷ xs) = Lacks f (f x) xs × Distinct f xs

module _ {ℓ κ} {A : Type ℓ} {K : Type κ} (f : A → K) where
  pub Lacks-append : (k : K) (xs ys : List A) → Lacks f k xs → Lacks f k ys → Lacks f k (xs ++ ys)
  Lacks-append k [] ys p q = q
  Lacks-append k (x ∷ xs) ys p q = (p.0, Lacks-append k xs ys p.1 q)

  -- A list of new keys, each of which `xs` lacks, may follow `xs`.
  pub Lacks-All_tail :
      (x : A) (xs ys : List A)
      → All (λ y. Lacks f (f y) (x ∷ xs)) ys
      → Lacks f (f x) ys × All (λ y. Lacks f (f y) xs) ys
  Lacks-All_tail x xs [] h = (tt, tt)
  Lacks-All_tail x xs (y ∷ ys) h =
      let rest = Lacks-All_tail x xs ys h.1 in (((λ e. h.0.0 (sym e)), rest.0), (h.0.1, rest.1))

  pub Distinct-append :
      (xs ys : List A)
      → Distinct f xs
      → Distinct f ys
      → All (λ y. Lacks f (f y) xs) ys
      → Distinct f (xs ++ ys)
  Distinct-append [] ys p q h = q
  Distinct-append (x ∷ xs) ys p q h =
      let rest = Lacks-All_tail x xs ys h in
      (Lacks-append (f x) xs ys p.0 rest.0, Distinct-append xs ys p.1 q rest.1)

  pub Lacks-perm : (k : K) {xs ys : List A} → Permᴰ xs ys → Lacks f k xs → Lacks f k ys
  Lacks-perm k nil l = tt
  Lacks-perm k (cons {a} {b} e p) l = rw (← e) (l.0, Lacks-perm k p l.1)
  Lacks-perm k (swap {a} {b} {a'} {b'} e g) l = rw (← e, ← g) (l.1.0, (l.0, l.1.1))
  Lacks-perm k (trans p q) l = Lacks-perm k q (Lacks-perm k p l)

  pub Distinct-perm : {xs ys : List A} → Permᴰ xs ys → Distinct f xs → Distinct f ys
  Distinct-perm nil d = tt
  Distinct-perm (cons {a} {b} e p) d = rw (← e) (Lacks-perm (f a) p d.0, Distinct-perm p d.1)
  Distinct-perm (swap {l} e g) d =
      subst₂ (λ x y. Distinct f (y ∷ x ∷ l)) e g (((λ h. d.0.0 (sym h)), d.1.0), (d.0.1, d.1.1))
  Distinct-perm (trans p q) d = Distinct-perm q (Distinct-perm p d)

-- A test of some element does not depend on the order.
pub any-perm {ℓ} : {A : Type ℓ} (p : A → Bool) {xs ys : List A} → Permᴰ xs ys → any p xs ≡ any p ys
any-perm p nil = refl
any-perm p (cons {a} {b} e q) = rw (← e, any-perm p q)
any-perm p (swap {a} {b} {a'} {b'} {l} e g) = rw (← e, ← g) (ground arith)
any-perm p (trans q r) = any-perm p q ∙ any-perm p r
