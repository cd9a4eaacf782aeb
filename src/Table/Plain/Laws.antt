-- ===== src/Table/Plain/Laws.antt =====
-- `MsgTable` of src/message_table.rs: registering, joining and building.
use mathlib.Core.List.{append_assoc, append-nil}
use carrier_pigeon.Base.{
  ◌≡◌, ◌≢◌, sym, ◌∙◌, ◌⊎◌, inl, inr, true, false, ◌||◌, List, [], ◌∷◌, ◌++◌, ok, err, any, All,
  ◌==◌, Bool-cases, Lacks, Distinct, arith,
}
use carrier_pigeon.Base.Keys.{Distinct-append}
use carrier_pigeon.Net.{TypeId, Transport, tcp}
use carrier_pigeon.Table.{Bincode, Entry, ser_fn, deser_fn, type_already_registered}
use carrier_pigeon.Table.Parts.{MsgTableParts}
use carrier_pigeon.Table.Parts.Index.{IsIndexOf, fill-IsIndexOf, three-Distinct}
use carrier_pigeon.Table.Plain.{MsgTable, tid_registered, push_all, join, register, build}

-- The registration of type `tid`.
abbrev pub entry_of : {V : Type 0} → Bincode V → TypeId → Transport → Entry V
entry_of b tid transport = record {
  tid = tid;
  transport = transport;
  ser = ser_fn b tid;
  deser = deser_fn b tid;
}

module _ {V : Type 0} where
  -- No type is registered twice.
  abbrev pub IsValid : MsgTable V → Type 0
  IsValid t = Distinct (λ e. e.tid) t.table

  pub unregistered-Lacks :
      (tid : TypeId) (es : List (Entry V))
      → any (λ e. tid == e.tid) es ≡ false
      → Lacks (λ e. e.tid) tid es
  unregistered-Lacks tid [] h = tt
  unregistered-Lacks tid (e ∷ es) h = ground (arith, unregistered-Lacks tid es)

  pub push_all-append : (xs ys : List (Entry V)) → push_all xs ys ≡ xs ++ ys
  unfolding push_all
  push_all-append xs [] = sym (append-nil xs)
  push_all-append xs (y ∷ ys) = push_all-append (xs ++ y ∷ []) ys ∙ append_assoc xs (y ∷ []) ys

  All-new :
      (t : MsgTable V) (es : List (Entry V))
      → any (λ e. tid_registered t e.tid) es ≡ false
      → All (λ e. tid_registered t e.tid ≡ false) es
  All-new t [] h = tt
  All-new t (e ∷ es) h = ground (arith, All-new t es)

  -- In a table with no type twice, either the type was new and its registration is put at the end,
  -- and still no type stands twice, or it was there and the table is as it was.
  pub register_cases :
      (b : Bincode V) (tid : TypeId) (t : MsgTable V) (transport : Transport)
      → IsValid t
      → ((tid_registered t tid ≡ false)
          × (register b tid t transport
              ≡ (record { table = t.table ++ entry_of b tid transport ∷ [] }, ok tt))
          × IsValid (register b tid t transport).0)
        ⊎ ((tid_registered t tid ≡ true)
            × (register b tid t transport ≡ (t, err type_already_registered)))
  unfolding register
  register_cases b tid t transport v = elim (Bool-cases (tid_registered t tid)) [
    | inl old ↦ inr (old, ground arith)
    | inr new ↦ inl (
      new,
      ground arith,
      rw (new, register)
          (Distinct-append (λ e. e.tid) t.table _ v (tt, tt)
            (unregistered-Lacks tid t.table new, tt)),
    )
  ]

  join-Lacks :
      (t : MsgTable V) (es : List (Entry V))
      → any (λ e. tid_registered t e.tid) es ≡ false
      → All (λ e. Lacks (λ x. x.tid) e.tid t.table) es
  unfolding tid_registered
  join-Lacks t [] h = tt
  join-Lacks t (e ∷ es) h =
      (unregistered-Lacks e.tid t.table (ground arith), join-Lacks t es (ground arith))

  -- For two tables with no type twice, either no type of the other table was registered, and its
  -- registrations follow in their order with no type twice, or one was and the table is as it was.
  pub join_cases :
      (t other : MsgTable V)
      → IsValid t
      → IsValid other
      → ((All (λ e. tid_registered t e.tid ≡ false) other.table)
          × (join t other ≡ (record { table = t.table ++ other.table }, ok tt))
          × IsValid (join t other).0)
        ⊎ ((any (λ e. tid_registered t e.tid) other.table ≡ true)
            × (join t other ≡ (t, err type_already_registered)))
  unfolding join
  join_cases t other v w = elim (Bool-cases (any (λ e. tid_registered t e.tid) other.table)) [
    | inl old ↦ inr (old, rw old)
    | inr new ↦ inl (
      All-new t other.table new,
      rw (new, push_all-append t.table other.table),
      rw (new, push_all-append t.table other.table)
          (Distinct-append (λ e. e.tid) t.table other.table v w (join-Lacks t other.table new)),
    )
  ]

  -- For three different types and a table in which no type stands twice, `build` refuses exactly
  -- when one of the three is registered, and otherwise the parts number the three types first and
  -- then the table in its order.
  pub build_cases :
      (b : Bincode V) (c r d : TypeId) (t : MsgTable V)
      → IsValid t
      → c ≢ r
      → c ≢ d
      → r ≢ d
      → ((p : MsgTableParts V) × (build b c r d t ≡ ok p)
          × IsIndexOf p (entry_of b c tcp ∷ entry_of b r tcp ∷ entry_of b d tcp ∷ t.table)
          × (tid_registered t c || tid_registered t r || tid_registered t d ≡ false))
        ⊎ ((build b c r d t ≡ err type_already_registered)
            × (tid_registered t c || tid_registered t r || tid_registered t d ≡ true))
  unfolding build
  build_cases b c r d t v cr cd rd = elim (Bool-cases (tid_registered t c)) [
    | inl old ↦ inr (ground arith, ground arith)
    | inr new_c ↦ elim (Bool-cases (tid_registered t r)) [
      | inl old ↦ inr (ground arith, ground arith)
      | inr new_r ↦ elim (Bool-cases (tid_registered t d)) [
        | inl old ↦ inr (ground arith, ground arith)
        | inr new_d ↦ inl (
          _,
          rw (new_c, new_r, new_d),
          fill-IsIndexOf _ (
              three-Distinct (entry_of b c tcp) (entry_of b r tcp) (entry_of b d tcp) t.table cr cd
                rd
                (
                  unregistered-Lacks c t.table new_c,
                  (unregistered-Lacks r t.table new_r, (unregistered-Lacks d t.table new_d, tt)),
                )
                v),
          ground arith,
        )
      ]
    ]
  ]
