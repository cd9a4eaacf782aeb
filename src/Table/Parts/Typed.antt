-- ===== src/Table/Parts/Typed.antt =====
-- Message buffers, one for each registration of src/message_table.rs.
use carrier_pigeon.Base.{
  ℕ, zero, suc, ◌≡◌, refl, sym, subst, ◌∙◌, ap, ◌⊎◌, inl, inr, List, [], ◌∷◌, ◌++◌, map, none, some,
  ok, length, get_elem?, All, Distinct, Option-cases, arith,
}
use carrier_pigeon.Base.HashMap
use carrier_pigeon.Base.Buffer.{replicate, set}
use carrier_pigeon.Net.{MId, TypeId, Any, downcast_ref}
use carrier_pigeon.Net.Msg.{ErasedNetMsg, NetMsg, to_typed, to_typed_all, push, clear_all}
use carrier_pigeon.Table.{Bincode, Entry, deser_fn}
use carrier_pigeon.Table.Parts.{MsgTableParts, fill, no_parts}
use carrier_pigeon.Table.Parts.Index.{IsIndexOf, fill-IsIndexOf}
use carrier_pigeon.Table.Parts.Codec.{decode}
use carrier_pigeon.Table.Parts.Roundtrip.{Coded, Coded-at, decode_cases}

module _ {V : Type 0} where
  -- Each message is of the type that its buffer is for.
  abbrev pub IsTyped : List (Entry V) → List (List (ErasedNetMsg V)) → Type 0
  IsTyped [] [] = Unit
  IsTyped [] (msgs ∷ buff) = ⊥
  IsTyped (e ∷ es) [] = ⊥
  IsTyped (e ∷ es) (msgs ∷ buff) = All (λ m. m.msg.tid ≡ e.tid) msgs × IsTyped es buff

  pub replicate-IsTyped : (es : List (Entry V)) → IsTyped es (replicate (length es) [])
  replicate-IsTyped [] = tt
  replicate-IsTyped (e ∷ es) = (tt, replicate-IsTyped es)

  All-append_one :
      (tid : TypeId) (msgs : List (ErasedNetMsg V)) (m : ErasedNetMsg V)
      → All (λ m. m.msg.tid ≡ tid) msgs
      → m.msg.tid ≡ tid
      → All (λ m. m.msg.tid ≡ tid) (msgs ++ m ∷ [])
  All-append_one tid [] m t h = (h, tt)
  All-append_one tid (x ∷ msgs) m (t, ts) h = (t, All-append_one tid msgs m ts h)

  pub get-IsTyped :
      (es : List (Entry V)) (buff : List (List (ErasedNetMsg V))) (mid : MId) (e : Entry V)
      → IsTyped es buff
      → get_elem? es mid ≡ some e
      → (msgs : List (ErasedNetMsg V)) × (get_elem? buff mid ≡ some msgs)
        × All (λ m. m.msg.tid ≡ e.tid) msgs
  get-IsTyped [] buff mid e t at = cc
  get-IsTyped (x ∷ es) [] mid e t at = absurd t
  get-IsTyped (x ∷ es) (msgs ∷ buff) zero e (t, ts) at = (msgs, refl, ground (arith, t, at))
  get-IsTyped (x ∷ es) (msgs ∷ buff) (suc mid) e (t, ts) at = get-IsTyped es buff mid e ts at

  set-IsTyped :
      (es : List (Entry V)) (buff : List (List (ErasedNetMsg V))) (mid : MId) (e : Entry V)
      (msgs : List (ErasedNetMsg V))
      → IsTyped es buff
      → get_elem? es mid ≡ some e
      → All (λ m. m.msg.tid ≡ e.tid) msgs
      → IsTyped es (set buff mid msgs)
  set-IsTyped [] [] mid e msgs t at h = tt
  set-IsTyped [] (x ∷ buff) mid e msgs t at h = absurd t
  set-IsTyped (x ∷ es) [] mid e msgs t at h = absurd t
  set-IsTyped (x ∷ es) (old ∷ buff) zero e msgs (t, ts) at h = (ground (arith, h, at), ts)
  set-IsTyped (x ∷ es) (old ∷ buff) (suc mid) e msgs (t, ts) at h =
      (t, set-IsTyped es buff mid e msgs ts at h)

  -- A message of the right type is put at the end of its buffer.
  pub push-IsTyped :
      (es : List (Entry V)) (buff : List (List (ErasedNetMsg V))) (mid : MId) (e : Entry V)
      (m : ErasedNetMsg V)
      → IsTyped es buff
      → get_elem? es mid ≡ some e
      → m.msg.tid ≡ e.tid
      → (buff' : List (List (ErasedNetMsg V))) × (push buff mid m ≡ ok buff') × IsTyped es buff'
  unfolding push
  push-IsTyped es buff mid e m t at h =
      let (msgs, there, typed) = get-IsTyped es buff mid e t at in
      (
        set buff mid (msgs ++ m ∷ []),
        rw (there, push),
        set-IsTyped es buff mid e (msgs ++ m ∷ []) t at (All-append_one e.tid msgs m typed h),
      )

  pub clear_all-IsTyped :
      (es : List (Entry V)) (buff : List (List (ErasedNetMsg V)))
      → IsTyped es buff
      → IsTyped es (clear_all buff)
  unfolding clear_all
  clear_all-IsTyped [] [] t = tt
  clear_all-IsTyped [] (x ∷ buff) t = absurd t
  clear_all-IsTyped (e ∷ es) [] t = absurd t
  clear_all-IsTyped (e ∷ es) (x ∷ buff) (t, ts) = (tt, clear_all-IsTyped es buff ts)

  -- A message as `recv` gives it.
  abbrev pub as_net_msg : ErasedNetMsg V → NetMsg V
  as_net_msg m = record { cid = m.cid; time = m.time; m = m.msg.value }

  pub to_typed_all_total :
      (tid : TypeId) (msgs : List (ErasedNetMsg V))
      → All (λ m. m.msg.tid ≡ tid) msgs
      → to_typed_all tid msgs ≡ ok (map as_net_msg msgs)
  unfolding to_typed_all to_typed downcast_ref
  to_typed_all_total tid [] t = refl
  to_typed_all_total tid (m ∷ msgs) (t, ts) = ground (arith, to_typed_all_total tid msgs ts)

-- Parts that `build` makes of the registrations `es`, each with the functions of its type.
pub record IsBuilt {V : Type 0} (bin : Bincode V) (es : List (Entry V)) (p : MsgTableParts V)
    : Type 0 where
  pub made : p ≡ fill 0 no_parts es
  pub distinct : Distinct (λ e. e.tid) es
  pub coded : Coded bin es

module _ {V : Type 0} (bin : Bincode V) where
  deser_fn-tid :
      (tid : TypeId) (bytes : List ℕ) (msg : Any V)
      → deser_fn bin tid bytes ≡ ok msg
      → msg.tid ≡ tid
  unfolding deser_fn
  deser_fn-tid tid bytes msg h = elim (Option-cases (bin.deserialize tid bytes)) [
    | inl gone ↦ absurd (ground arith)
    | inr (v, e) ↦ ground arith
  ]

module _ {V : Type 0} (bin : Bincode V) (es : List (Entry V)) (p : MsgTableParts V) where
  pub IsBuilt-IsIndexOf : IsBuilt bin es p → IsIndexOf p es
  IsBuilt-IsIndexOf b = rw b.made (fill-IsIndexOf es b.distinct)

  -- A message that is decoded has the type of its number.
  pub decode-tid :
      (mid : MId) (bytes : List ℕ) (msg : Any V)
      → IsBuilt bin es p
      → decode p mid bytes ≡ ok msg
      → (e : Entry V) × (get_elem? es mid ≡ some e) × (msg.tid ≡ e.tid)
  decode-tid mid bytes msg b h = elim (decode_cases p es mid bytes (IsBuilt-IsIndexOf b)) [
    | inl (e, at, d) ↦
        let (_, is_deser) = Coded-at bin es mid e b.coded at in
        let out : deser_fn bin e.tid bytes ≡ ok msg =
          ap (λ f. f bytes) (sym is_deser) ∙ sym d ∙ h in
        (e, at, deser_fn-tid bin e.tid bytes msg out)
    | inr (inl (last, d)) ↦ absurd (ground arith)
    | inr (inr (over, d)) ↦ absurd (ground arith)
  ]

  -- A type is not registered, or it has a number, and its buffer holds messages of the type.
  pub buffer_cases :
      (buff : List (List (ErasedNetMsg V))) (tid : TypeId)
      → IsBuilt bin es p
      → IsTyped es buff
      → (HashMap.get p.tid_map tid ≡ none)
        ⊎ ((mid : MId) × (msgs : List (ErasedNetMsg V)) × (HashMap.get p.tid_map tid ≡ some mid)
            × (get_elem? buff mid ≡ some msgs)
            × (to_typed_all tid msgs ≡ ok (map as_net_msg msgs)))
  buffer_cases buff tid b t = elim (Option-cases (HashMap.get p.tid_map tid)) [
    | inl gone ↦ inl gone
    | inr (mid, there) ↦
        let (e, at, same) = (IsBuilt-IsIndexOf b).known tid mid there in
        let (msgs, held, typed) = get-IsTyped es buff mid e t at in
        inr (
          mid,
          msgs,
          there,
          held,
          to_typed_all_total tid msgs (subst (λ k. All (λ m. m.msg.tid ≡ k) msgs) same typed),
        )
  ]
