-- ===== src/Table/Parts/Fill.antt =====
-- What the loop of `build` leaves in the parts.
use mathlib.Core.List.{append_assoc, append-nil}
use carrier_pigeon.Base.{
  ℕ, zero, suc, ◌+◌, ◌≡◌, refl, sym, ◌∙◌, ◌⊎◌, List, [], ◌∷◌, ◌++◌, map, some, ◌==◌, ==→eq,
  Bool-cases, inl, inr, get_elem?, Lacks, Distinct, arith,
}
use carrier_pigeon.Base.HashMap
use carrier_pigeon.Net.{MId, TypeId}
use carrier_pigeon.Table.{Entry}
use carrier_pigeon.Table.Parts.{MsgTableParts, no_parts, fill}

module _ {V : Type 0} where
  pub transports-fill :
      (idx : ℕ) (p : MsgTableParts V) (es : List (Entry V))
      → (fill idx p es).transports ≡ p.transports ++ map (λ e. e.transport) es
  unfolding fill
  transports-fill idx p [] = sym (append-nil p.transports)
  transports-fill idx p (e ∷ es) =
      transports-fill (idx + 1) _ es ∙ append_assoc p.transports (e.transport ∷ []) _

  pub ser-fill :
      (idx : ℕ) (p : MsgTableParts V) (es : List (Entry V))
      → (fill idx p es).ser ≡ p.ser ++ map (λ e. e.ser) es
  unfolding fill
  ser-fill idx p [] = sym (append-nil p.ser)
  ser-fill idx p (e ∷ es) = ser-fill (idx + 1) _ es ∙ append_assoc p.ser (e.ser ∷ []) _

  pub deser-fill :
      (idx : ℕ) (p : MsgTableParts V) (es : List (Entry V))
      → (fill idx p es).deser ≡ p.deser ++ map (λ e. e.deser) es
  unfolding fill
  deser-fill idx p [] = sym (append-nil p.deser)
  deser-fill idx p (e ∷ es) = deser-fill (idx + 1) _ es ∙ append_assoc p.deser (e.deser ∷ []) _

  get-fill_unused :
      (idx : ℕ) (p : MsgTableParts V) (es : List (Entry V)) (tid : TypeId)
      → Lacks (λ e. e.tid) tid es
      → HashMap.get (fill idx p es).tid_map tid ≡ HashMap.get p.tid_map tid
  unfolding fill
  get-fill_unused idx p [] tid u = refl
  get-fill_unused idx p (e ∷ es) tid u = ground (
    arith,
    get-fill_unused (idx + 1) (fill idx p (e ∷ [])) es tid u.1,
    HashMap.get-insert p.tid_map e.tid idx tid,
  )

  -- A type's number is its place in the list.
  pub get-fill :
      (idx : ℕ) (p : MsgTableParts V) (es : List (Entry V)) (i : ℕ) (e : Entry V)
      → Distinct (λ e. e.tid) es
      → get_elem? es i ≡ some e
      → HashMap.get (fill idx p es).tid_map e.tid ≡ some (idx + i)
  unfolding fill
  get-fill idx p [] i e d h = cc
  get-fill idx p (x ∷ es) zero e d h = ground (
    arith,
    get-fill_unused (idx + 1) (fill idx p (x ∷ [])) es x.tid d.0,
    HashMap.get-insert p.tid_map x.tid idx x.tid,
  )
  get-fill idx p (x ∷ es) (suc i) e d h =
      ground (arith, get-fill (idx + 1) (fill idx p (x ∷ [])) es i e d.1 h)

  -- Where a type's number can come from.
  abbrev Source : ℕ → MsgTableParts V → List (Entry V) → TypeId → MId → Type 0
  Source idx p es tid mid =
      (HashMap.get p.tid_map tid ≡ some mid)
      ⊎ ((i : ℕ) × (e : Entry V) × (mid ≡ idx + i) × (get_elem? es i ≡ some e) × (e.tid ≡ tid))

  get_fill→source :
      (idx : ℕ) (p : MsgTableParts V) (es : List (Entry V)) (tid : TypeId) (mid : MId)
      → HashMap.get (fill idx p es).tid_map tid ≡ some mid
      → Source idx p es tid mid
  unfolding fill
  get_fill→source idx p [] tid mid h = inl h
  get_fill→source idx p (x ∷ es) tid mid h =
      elim (get_fill→source (idx + 1) (fill idx p (x ∷ [])) es tid mid h) [
        | inl q ↦ elim (Bool-cases (x.tid == tid)) [
          | inl same ↦ inr (
            0,
            x,
            ground (arith, HashMap.get-insert p.tid_map x.tid idx tid),
            refl,
            ==→eq _ _ same,
          )
          | inr differ ↦ inl (ground (arith, HashMap.get-insert p.tid_map x.tid idx tid))
        ]
        | inr (i, e, m, at, t) ↦ inr (suc i, e, omega arith, at, t)
      ]

  pub get_fill→place :
      (es : List (Entry V)) (tid : TypeId) (mid : MId)
      → HashMap.get (fill 0 no_parts es).tid_map tid ≡ some mid
      → (e : Entry V) × (get_elem? es mid ≡ some e) × (e.tid ≡ tid)
  unfolding HashMap.get
  get_fill→place es tid mid h = elim (get_fill→source 0 no_parts es tid mid h) [
    | inl q ↦ cc
    | inr (i, e, m, at, t) ↦ (e, ground arith, t)
  ]
