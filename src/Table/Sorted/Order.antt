-- ===== src/Table/Sorted/Order.antt =====
-- The order of identifiers, and that sorting by it forgets the order of registration.
use mathlib.Core.List.{Permᴰ}
use mathlib.Core.List.Permᴰ.{nil, cons, swap, trans}
use carrier_pigeon.Base.{
  ℕ, ◌≡◌, ◌≢◌, refl, sym, ◌∙◌, ap, inl, inr, true, false, List, [], ◌∷◌, All, Bool-cases, Distinct,
  arith,
}
use mathlib.Core.List.Permᴰ
use carrier_pigeon.Base.Keys.{Distinct-perm}
use carrier_pigeon.Table.Sorted.{Named, str_eq, str_le, insert_named, sort_named}

pub str_eq→eq : (xs ys : List ℕ) → str_eq xs ys ≡ true → xs ≡ ys
unfolding str_eq
str_eq→eq [] [] h = refl
str_eq→eq [] (y ∷ ys) h = cc
str_eq→eq (x ∷ xs) [] h = cc
str_eq→eq (x ∷ xs) (y ∷ ys) h = ground (arith, str_eq→eq xs ys)

pub str_eq_refl : (xs : List ℕ) → str_eq xs xs ≡ true
unfolding str_eq
str_eq_refl [] = refl
str_eq_refl (x ∷ xs) = ground (arith, str_eq_refl xs)

str_le_antisymm : (xs ys : List ℕ) → str_le xs ys ≡ true → str_le ys xs ≡ true → xs ≡ ys
unfolding str_le
str_le_antisymm [] [] h k = refl
str_le_antisymm [] (y ∷ ys) h k = cc
str_le_antisymm (x ∷ xs) [] h k = cc
str_le_antisymm (x ∷ xs) (y ∷ ys) h k = ground (arith, str_le_antisymm xs ys)

str_le-total : (xs ys : List ℕ) → str_le xs ys ≡ false → str_le ys xs ≡ true
unfolding str_le
str_le-total [] ys h = cc
str_le-total (x ∷ xs) [] h = refl
str_le-total (x ∷ xs) (y ∷ ys) h = ground (arith, str_le-total xs ys)

str_le_trans : (xs ys zs : List ℕ) → str_le xs ys ≡ true → str_le ys zs ≡ true → str_le xs zs ≡ true
unfolding str_le
str_le_trans [] ys zs h k = refl
str_le_trans (x ∷ xs) [] zs h k = cc
str_le_trans (x ∷ xs) (y ∷ ys) [] h k = cc
str_le_trans (x ∷ xs) (y ∷ ys) (z ∷ zs) h k = ground (arith, str_le_trans xs ys zs)

module _ {V : Type 0} where
  -- Two entries with different identifiers may be inserted in either order.
  insert_comm :
      (x y : Named V) (es : List (Named V))
      → x.identifier ≢ y.identifier
      → insert_named x (insert_named y es) ≡ insert_named y (insert_named x es)
  unfolding insert_named
  insert_comm x y [] n =
      ground
        (arith, str_le_antisymm x.identifier y.identifier, str_le-total x.identifier y.identifier)
  insert_comm x y (e ∷ es) n = ground (
    arith,
    insert_comm x y es n,
    str_le_antisymm x.identifier y.identifier,
    str_le-total x.identifier y.identifier,
    str_le-total y.identifier x.identifier,
    str_le_trans x.identifier y.identifier e.identifier,
    str_le_trans y.identifier x.identifier e.identifier,
    str_le-total x.identifier e.identifier,
    str_le-total y.identifier e.identifier,
    str_le_trans x.identifier e.identifier y.identifier,
    str_le_trans y.identifier e.identifier x.identifier,
  )

  -- Lists that differ in order alone, with no identifier twice, are sorted into one list.
  pub sort-perm :
      {xs ys : List (Named V)}
      → Permᴰ xs ys
      → Distinct (λ e. e.identifier) xs
      → sort_named xs ≡ sort_named ys
  unfolding sort_named
  sort-perm nil d = refl
  sort-perm (cons {a} {b} e p) d = rw (← e) (ap (insert_named a) (sort-perm p d.1))
  sort-perm (swap {a} {b} {a'} {b'} {l} e f) d =
      rw (← e, ← f) (insert_comm a b (sort_named l) (λ h. d.0.0 (sym h)))
  sort-perm (trans p q) d = sort-perm p d ∙ sort-perm q (Distinct-perm (λ e. e.identifier) p d)

  insert-perm : (e : Named V) (xs : List (Named V)) → Permᴰ (e ∷ xs) (insert_named e xs)
  unfolding insert_named
  insert-perm e [] = Permᴰ.refl (e ∷ [])
  insert-perm e (x ∷ xs) = elim (Bool-cases (str_le e.identifier x.identifier)) [
    | inl before ↦ rw before (Permᴰ.refl (e ∷ x ∷ xs))
    | inr after ↦ rw after (trans (swap refl refl) (cons refl (insert-perm e xs)))
  ]

  pub sort_named-perm : (xs : List (Named V)) → Permᴰ xs (sort_named xs)
  unfolding sort_named
  sort_named-perm [] = nil
  sort_named-perm (x ∷ xs) = trans (cons refl (sort_named-perm xs)) (insert-perm x (sort_named xs))

  abbrev pub Ascending : List (Named V) → Type 0
  Ascending [] = Unit
  Ascending (x ∷ xs) = All (λ y. str_le x.identifier y.identifier ≡ true) xs × Ascending xs

  All-after :
      (x y : Named V) (es : List (Named V))
      → str_le x.identifier y.identifier ≡ true
      → All (λ z. str_le y.identifier z.identifier ≡ true) es
      → All (λ z. str_le x.identifier z.identifier ≡ true) es
  All-after x y [] h a = tt
  All-after x y (z ∷ es) h a =
      (str_le_trans x.identifier y.identifier z.identifier h a.0, All-after x y es h a.1)

  All-insert :
      (x e : Named V) (es : List (Named V))
      → str_le x.identifier e.identifier ≡ true
      → All (λ z. str_le x.identifier z.identifier ≡ true) es
      → All (λ z. str_le x.identifier z.identifier ≡ true) (insert_named e es)
  unfolding insert_named
  All-insert x e [] h a = (h, tt)
  All-insert x e (z ∷ es) h a = ground (arith, All-insert x e es h a.1)

  insert-Ascending :
      (e : Named V) (es : List (Named V)) → Ascending es → Ascending (insert_named e es)
  unfolding insert_named
  insert-Ascending e [] a = (tt, tt)
  insert-Ascending e (x ∷ es) a = elim (Bool-cases (str_le e.identifier x.identifier)) [
    | inl before ↦ rw before ((before, All-after e x es before a.0), a)
    | inr after ↦ rw after (
      All-insert x e es (str_le-total e.identifier x.identifier after) a.0,
      insert-Ascending e es a.1,
    )
  ]

  pub sort_named-Ascending : (xs : List (Named V)) → Ascending (sort_named xs)
  unfolding sort_named
  sort_named-Ascending [] = tt
  sort_named-Ascending (x ∷ xs) = insert-Ascending x (sort_named xs) (sort_named-Ascending xs)
