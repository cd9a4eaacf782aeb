-- ===== src/Table/Parts/Count.antt =====
-- How many types the parts of src/message_table.rs number.
use carrier_pigeon.Base.{
  ℕ, ◌+◌, ◌≡◌, refl, List, [], ◌∷◌, none, All, Lacks, Distinct, length, Bool-cases, ◌==◌, inl, inr,
  arith, ap, suc,
}
use carrier_pigeon.Base.HashMap
use carrier_pigeon.Base.HashMap.{HashMap, get-insert}
use carrier_pigeon.Net.{MId}
use carrier_pigeon.Table.{Entry}
use carrier_pigeon.Table.Parts.{MsgTableParts, fill, no_parts}

length-insert :
    (m : HashMap MId) (k : ℕ) (v : MId)
    → HashMap.get m k ≡ none
    → length (HashMap.insert m k v) ≡ suc (length m)
unfolding HashMap.get HashMap.insert
length-insert [] k v free = refl
length-insert ((j, w) ∷ m) k v free = elim (Bool-cases (j == k)) [
  | inl same ↦ absurd (ground arith)
  | inr other ↦ rw other (ap suc (length-insert m k v (ground arith)))
]

module _ {V : Type 0} where
  abbrev Unused : HashMap MId → List (Entry V) → Type 0
  Unused m es = All (λ e. HashMap.get m e.tid ≡ none) es

  still-Unused :
      (m : HashMap MId) (k : ℕ) (v : MId) (es : List (Entry V))
      → Unused m es
      → Lacks (λ e. e.tid) k es
      → Unused (HashMap.insert m k v) es
  still-Unused m k v [] u l = tt
  still-Unused m k v (e ∷ es) (free, u) (other, l) =
      (ground (arith, get-insert m k v e.tid), still-Unused m k v es u l)

  tid_map-fill :
      (idx : ℕ) (p : MsgTableParts V) (es : List (Entry V))
      → Unused p.tid_map es
      → Distinct (λ e. e.tid) es
      → length (fill idx p es).tid_map ≡ length p.tid_map + length es
  unfolding fill
  tid_map-fill idx p [] u d = ground arith
  tid_map-fill idx p (e ∷ es) (free, u) (l, d) = omega (
    arith,
    tid_map-fill (idx + 1) _ es (still-Unused p.tid_map e.tid idx es u l) d,
    length-insert p.tid_map e.tid idx free,
  )

  none_used : (es : List (Entry V)) → Unused [] es
  unfolding HashMap.get
  none_used [] = tt
  none_used (e ∷ es) = (refl, none_used es)

  -- Different types have a number each.
  pub length-tid_map :
      (es : List (Entry V))
      → Distinct (λ e. e.tid) es
      → length (fill 0 no_parts es).tid_map ≡ length es
  length-tid_map es d = omega (arith, tid_map-fill 0 no_parts es (none_used es) d)
