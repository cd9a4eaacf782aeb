-- ===== src/Table/Sorted/Laws.antt =====
-- `SortedMsgTable` of src/message_table.rs: registering, joining and building.
use mathlib.Core.List.{append_assoc, append-nil}
use carrier_pigeon.Base.{
  ℕ, ◌≡◌, sym, ◌∙◌, ◌⊎◌, inl, inr, true, false, List, [], ◌∷◌, ◌++◌, ok, err, any, All, ◌==◌,
  Bool-cases, Lacks, Distinct, arith,
}
use carrier_pigeon.Base.Keys.{Distinct-append}
use carrier_pigeon.Net.{TypeId, Transport}
use carrier_pigeon.Table.{Bincode, type_already_registered, non_unique_identifier}
use carrier_pigeon.Table.Plain.Laws.{entry_of}
use carrier_pigeon.Table.Sorted.{
  Named, SortedMsgTable, str_eq, tid_registered, identifier_registered, push_all, join, register,
}
use carrier_pigeon.Table.Sorted.Order.{str_eq_refl}

eq-str_eq : (xs ys : List ℕ) → xs ≡ ys → str_eq xs ys ≡ true
eq-str_eq xs ys e = rw (← e) (str_eq_refl xs)

module _ {V : Type 0} where
  -- No type and no identifier is registered twice.
  pub record IsValid (t : SortedMsgTable V) : Type 0 where
    pub tids : Distinct (λ e. e.entry.tid) t.table
    pub identifiers : Distinct (λ e. e.identifier) t.table

  abbrev pub named_of : Bincode V → TypeId → List ℕ → Transport → Named V
  named_of b tid identifier transport = record {
    identifier = identifier;
    entry = entry_of b tid transport;
  }

  pub tid-Lacks :
      (tid : TypeId) (es : List (Named V))
      → any (λ e. tid == e.entry.tid) es ≡ false
      → Lacks (λ e. e.entry.tid) tid es
  tid-Lacks tid [] h = tt
  tid-Lacks tid (e ∷ es) h = ground (arith, tid-Lacks tid es)

  identifier-Lacks :
      (identifier : List ℕ) (es : List (Named V))
      → any (λ e. str_eq identifier e.identifier) es ≡ false
      → Lacks (λ e. e.identifier) identifier es
  identifier-Lacks identifier [] h = tt
  identifier-Lacks identifier (e ∷ es) h = (
    (λ same. ground (arith, eq-str_eq identifier e.identifier (sym same))),
    identifier-Lacks identifier es (ground arith),
  )

  pub push_all-append : (xs ys : List (Named V)) → push_all xs ys ≡ xs ++ ys
  unfolding push_all
  push_all-append xs [] = sym (append-nil xs)
  push_all-append xs (y ∷ ys) = push_all-append (xs ++ y ∷ []) ys ∙ append_assoc xs (y ∷ []) ys

  -- In a table with no type and no identifier twice, an identifier that is taken is refused, then a
  -- type that is registered, and the table stays as it was. Otherwise the registration is put at
  -- its end, and the table stays valid.
  pub sorted_register_cases :
      (b : Bincode V) (tid : TypeId) (t : SortedMsgTable V) (transport : Transport) (id : List ℕ)
      → IsValid t
      → ((identifier_registered t id ≡ true)
          × (register b tid t transport id ≡ (t, err non_unique_identifier)))
        ⊎ ((identifier_registered t id ≡ false)
            × (tid_registered t tid ≡ true)
            × (register b tid t transport id ≡ (t, err type_already_registered)))
        ⊎ ((register b tid t transport id
              ≡ (record { table = t.table ++ named_of b tid id transport ∷ [] }, ok tt))
            × IsValid (register b tid t transport id).0)
  unfolding register
  sorted_register_cases b tid t transport id v = elim (Bool-cases (identifier_registered t id)) [
    | inl taken ↦ inl (taken, rw (taken, register))
    | inr free ↦ elim (Bool-cases (tid_registered t tid)) [
      | inl old ↦ inr (inl (free, old, rw (free, old, register)))
      | inr new ↦ inr (
          inr (
            rw (free, new, register),
            rw (free, new, register)
                (record {
                  tids =
                      Distinct-append (λ e. e.entry.tid) t.table _ v.tids (tt, tt)
                        (tid-Lacks tid t.table new, tt);
                  identifiers =
                      Distinct-append (λ e. e.identifier) t.table _ v.identifiers (tt, tt)
                        (identifier-Lacks id t.table free, tt);
                }),
          ))
    ]
  ]

  tids-Lacks :
      (t : SortedMsgTable V) (es : List (Named V))
      → any (λ e. tid_registered t e.entry.tid) es ≡ false
      → All (λ e. Lacks (λ x. x.entry.tid) e.entry.tid t.table) es
  unfolding tid_registered
  tids-Lacks t [] h = tt
  tids-Lacks t (e ∷ es) h =
      (tid-Lacks e.entry.tid t.table (ground arith), tids-Lacks t es (ground arith))

  identifiers-Lacks :
      (t : SortedMsgTable V) (es : List (Named V))
      → any (λ e. identifier_registered t e.identifier) es ≡ false
      → All (λ e. Lacks (λ x. x.identifier) e.identifier t.table) es
  unfolding identifier_registered
  identifiers-Lacks t [] h = tt
  identifiers-Lacks t (e ∷ es) h =
      (identifier-Lacks e.identifier t.table (ground arith), identifiers-Lacks t es (ground arith))

  -- For two tables with no type and no identifier twice, a shared type is refused, then a shared
  -- identifier, and the table stays as it was. Otherwise the other table's registrations follow in
  -- their order, and the table stays valid.
  pub sorted_join_cases :
      (t other : SortedMsgTable V)
      → IsValid t
      → IsValid other
      → ((any (λ e. tid_registered t e.entry.tid) other.table ≡ true)
          × (join t other ≡ (t, err type_already_registered)))
        ⊎ ((any (λ e. tid_registered t e.entry.tid) other.table ≡ false)
            × (any (λ e. identifier_registered t e.identifier) other.table ≡ true)
            × (join t other ≡ (t, err non_unique_identifier)))
        ⊎ ((join t other ≡ (record { table = t.table ++ other.table }, ok tt))
            × IsValid (join t other).0)
  unfolding join
  sorted_join_cases t other v w =
      elim (Bool-cases (any (λ e. tid_registered t e.entry.tid) other.table)) [
        | inl old ↦ inl (old, rw (old, join))
        | inr new ↦
            elim (Bool-cases (any (λ e. identifier_registered t e.identifier) other.table)) [
              | inl taken ↦ inr (inl (new, taken, rw (new, taken, join)))
              | inr free ↦ inr (
                  inr (
                    rw (new, free, join, push_all-append t.table other.table),
                    rw (new, free, join, push_all-append t.table other.table)
                        (record {
                          tids =
                              Distinct-append (λ e. e.entry.tid) t.table other.table v.tids w.tids
                                (tids-Lacks t other.table new);
                          identifiers =
                              Distinct-append (λ e. e.identifier) t.table other.table v.identifiers
                                w.identifiers (identifiers-Lacks t other.table free);
                        }),
                  ))
            ]
      ]
