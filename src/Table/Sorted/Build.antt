-- ===== src/Table/Sorted/Build.antt =====
-- `SortedMsgTable::build` of src/message_table.rs.
use mathlib.Core.List.{Permᴰ}
use carrier_pigeon.Base.{ℕ, ◌≡◌, ◌≢◌, false, List, [], ◌∷◌, ok, All, ◌==◌, map, Lacks, Distinct}
use carrier_pigeon.Base.Keys.{Distinct-perm, Lacks-perm, any-perm}
use carrier_pigeon.Base.Text.{bytes_of}
use carrier_pigeon.Net.{TypeId, tcp}
use carrier_pigeon.Table.{Bincode, Entry}
use carrier_pigeon.Table.Parts.{MsgTableParts}
use carrier_pigeon.Table.Parts.Index.{IsIndexOf, fill-IsIndexOf, three-Distinct}
use carrier_pigeon.Table.Plain.Laws.{entry_of}
use carrier_pigeon.Table.Sorted.{
  Named, SortedMsgTable, str_eq, tid_registered, identifier_registered, get_registration, build,
  sort_named,
}
use carrier_pigeon.Table.Sorted.Order.{sort-perm, sort_named-perm, Ascending, sort_named-Ascending}
use carrier_pigeon.Table.Sorted.Laws.{IsValid, named_of, tid-Lacks}

module _ {V : Type 0} where
  get_registration-perm :
      (b : Bincode V) (tid : TypeId) (id : List ℕ) (t u : SortedMsgTable V)
      → Permᴰ t.table u.table
      → get_registration b tid t id tcp ≡ get_registration b tid u id tcp
  unfolding get_registration
  get_registration-perm b tid id t u p =
      rw (any-perm (λ e. str_eq id e.identifier) p, any-perm (λ e. tid == e.entry.tid) p)

  -- Two tables with the same registrations in another order, with no identifier twice, are built
  -- into the same parts, or refused with the same error.
  pub build_order :
      (b : Bincode V) (c r d : TypeId) (t u : SortedMsgTable V)
      → Permᴰ t.table u.table
      → Distinct (λ e. e.identifier) t.table
      → build b c r d t ≡ build b c r d u
  unfolding build
  build_order b c r d t u p distinct = rw (
    get_registration-perm b c (bytes_of "carrier-pigeon::connection") t u p,
    get_registration-perm b r (bytes_of "carrier-pigeon::response") t u p,
    get_registration-perm b d (bytes_of "carrier-pigeon::disconnect") t u p,
    sort-perm p distinct,
  )

  get_registration_new :
      (b : Bincode V) (tid : TypeId) (id : List ℕ) (t : SortedMsgTable V)
      → identifier_registered t id ≡ false
      → tid_registered t tid ≡ false
      → get_registration b tid t id tcp ≡ ok (named_of b tid id tcp)
  unfolding get_registration
  get_registration_new b tid id t free new = rw (free, new, get_registration)

  abbrev entries : List (Named V) → List (Entry V)
  entries es = map (λ e. e.entry) es

  entries-Lacks :
      (tid : TypeId) (es : List (Named V))
      → Lacks (λ e. e.entry.tid) tid es
      → Lacks (λ e. e.tid) tid (entries es)
  entries-Lacks tid [] l = tt
  entries-Lacks tid (e ∷ es) l = (l.0, entries-Lacks tid es l.1)

  entries-Distinct :
      (es : List (Named V)) → Distinct (λ e. e.entry.tid) es → Distinct (λ e. e.tid) (entries es)
  entries-Distinct [] d = tt
  entries-Distinct (e ∷ es) d = (entries-Lacks e.entry.tid es d.0, entries-Distinct es d.1)

  -- An unregistered type is in no sorted registration either.
  sorted-Lacks :
      (t : SortedMsgTable V) (tid : TypeId)
      → tid_registered t tid ≡ false
      → Lacks (λ e. e.tid) tid (entries (sort_named t.table))
  unfolding tid_registered
  sorted-Lacks t tid h =
      entries-Lacks tid _
        (Lacks-perm (λ e. e.entry.tid) tid (sort_named-perm t.table) (tid-Lacks tid t.table h))

  -- Where no type or identifier of the table stands twice, neither the three types nor the crate's
  -- three identifiers are registered and the three types are different, `build` numbers the three
  -- types first and then the table's registrations in the order of their identifiers, each once.
  pub build_succeeds :
      (b : Bincode V) (c r d : TypeId) (t : SortedMsgTable V)
      → IsValid t
      → c ≢ r
      → c ≢ d
      → r ≢ d
      → All (λ tid. tid_registered t tid ≡ false) (c ∷ r ∷ d ∷ [])
      → All
          (λ id. identifier_registered t (bytes_of id) ≡ false)
          ("carrier-pigeon::connection" ∷ "carrier-pigeon::response" ∷ "carrier-pigeon::disconnect"
            ∷ [])
      → (p : MsgTableParts V) × (es : List (Named V)) × (build b c r d t ≡ ok p)
        × Permᴰ t.table es
        × Ascending es
        × IsIndexOf p
            (entry_of b c tcp ∷ entry_of b r tcp ∷ entry_of b d tcp ∷ map (λ e. e.entry) es)
  unfolding build
  build_succeeds b c r d t v cr cd rd new free = (
    _,
    sort_named t.table,
    rw (
      get_registration_new b c (bytes_of "carrier-pigeon::connection") t free.0 new.0,
      get_registration_new b r (bytes_of "carrier-pigeon::response") t free.1.0 new.1.0,
      get_registration_new b d (bytes_of "carrier-pigeon::disconnect") t free.1.1.0 new.1.1.0,
    ),
    sort_named-perm t.table,
    sort_named-Ascending t.table,
    fill-IsIndexOf _ (
        three-Distinct (entry_of b c tcp) (entry_of b r tcp) (entry_of b d tcp) _ cr cd rd
          (sorted-Lacks t c new.0, (sorted-Lacks t r new.1.0, (sorted-Lacks t d new.1.1.0, tt)))
          (entries-Distinct _ (Distinct-perm (λ e. e.entry.tid) (sort_named-perm t.table) v.tids))),
  )
