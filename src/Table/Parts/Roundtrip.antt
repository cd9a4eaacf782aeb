-- ===== src/Table/Parts/Roundtrip.antt =====
-- Messages that are encoded and decoded with the parts of src/message_table.rs.
use carrier_pigeon.Base.{
  ℕ, zero, suc, Io, ◌≤◌, ◌<◌, ◌≡◌, refl, sym, ◌∙◌, ap, List, [], ◌∷◌, map, true, none, some, ok,
  err, panic, length, get_elem?, All, Option-cases, Outcome-cases, inl, inr, ◌⊎◌, leb, le→leb,
  leb→le, arith, Bool-cases,
}
use carrier_pigeon.Base.Results.{invalid_data}
use carrier_pigeon.Base.HashMap
use carrier_pigeon.Net.{MId, Any, Transport, downcast_ref}
use carrier_pigeon.Table.{Bincode, RoundTrips, Entry, ser_fn, deser_fn}
use carrier_pigeon.Table.Parts.{MsgTableParts, valid_mid, mid_count}
use carrier_pigeon.Table.Parts.Index.{IsIndexOf}
use carrier_pigeon.Table.Parts.Codec.{index, encode, decode}

module _ {ℓ} {A : Type ℓ} where
  pub get_elem?-map {κ} :
      {B : Type κ} (f : A → B) (xs : List A) (i : ℕ) (x : A)
      → get_elem? xs i ≡ some x
      → get_elem? (map f xs) i ≡ some (f x)
  get_elem?-map f [] i x e = cc
  get_elem?-map f (y ∷ xs) zero x e = cc
  get_elem?-map f (y ∷ xs) (suc i) x e = get_elem?-map f xs i x e

  pub get_elem?_bound : (xs : List A) (i : ℕ) (x : A) → get_elem? xs i ≡ some x → i < length xs
  get_elem?_bound [] i x e = cc
  get_elem?_bound (y ∷ xs) zero x e = omega arith
  get_elem?_bound (y ∷ xs) (suc i) x e = omega (arith, get_elem?_bound xs i x e)

  pub length-map {κ} : {B : Type κ} (f : A → B) (xs : List A) → length (map f xs) ≡ length xs
  length-map f [] = refl
  length-map f (x ∷ xs) = ap suc (length-map f xs)

  get_elem?_cases :
      (xs : List A) (i : ℕ)
      → ((x : A) × (get_elem? xs i ≡ some x)) ⊎ ((length xs ≤ i) × (get_elem? xs i ≡ none))
  get_elem?_cases [] i = inr (omega arith, refl)
  get_elem?_cases (x ∷ xs) zero = inl (x, refl)
  get_elem?_cases (x ∷ xs) (suc i) = elim (get_elem?_cases xs i) [
    | inl here ↦ inl here
    | inr (past, e) ↦ inr (omega arith, e)
  ]

  get_elem?_past : (xs : List A) (i : ℕ) → length xs ≤ i → get_elem? xs i ≡ none
  get_elem?_past [] i past = refl
  get_elem?_past (x ∷ xs) zero past = absurd (omega arith)
  get_elem?_past (x ∷ xs) (suc i) past = get_elem?_past xs i (omega arith)

module _ {V : Type 0} where
  -- Under parts that number the registrations `es`, a message number that was given out is decoded
  -- by its own type's function, the first number that was not given out panics, and those above it
  -- are an error.
  pub decode_cases :
      (p : MsgTableParts V) (es : List (Entry V)) (mid : MId) (b : List ℕ)
      → IsIndexOf p es
      → ((e : Entry V) × (get_elem? es mid ≡ some e) × (decode p mid b ≡ e.deser b))
        ⊎ ((mid ≡ length es) × (decode p mid b ≡ panic))
        ⊎ ((length es < mid) × (decode p mid b ≡ err invalid_data))
  unfolding decode mid_count
  decode_cases p es mid b i =
      let count = ap length i.transports ∙ length-map (λ e. e.transport) es in
      elim (get_elem?_cases es mid) [
        | inl (e, at) ↦
            let bound = get_elem?_bound es mid e at in
            let valid : leb mid (length p.transports) ≡ true = le→leb _ _ (omega arith) in
            let deser_at =
              ap (λ l. get_elem? l mid) i.deser ∙ get_elem?-map (λ e. e.deser) es mid e at in
            inl (e, at, rw (valid, deser_at, decode, index, valid_mid, mid_count))
        | inr (past, at) ↦ elim (Bool-cases (leb mid (length p.transports))) [
          | inl valid ↦
              let last = leb→le mid (length p.transports) valid in
              let none_at : get_elem? p.deser mid ≡ none =
                get_elem?_past p.deser mid
                  (omega (arith, ap length i.deser, length-map (λ e. e.deser) es)) in
              inr (inl (omega arith, rw (valid, none_at, decode, index, valid_mid, mid_count)))
          | inr over ↦ inr (inr (ground (arith, count), rw (over, decode, valid_mid, mid_count)))
        ]
      ]

module _ {V : Type 0} where
  -- What `encode` needs to succeed.
  pub encode_parts :
      (p : MsgTableParts V) (msg : Any V) (mid : MId) (t : Transport) (b : List ℕ)
      → encode p msg ≡ ok (mid, t, b)
      → (HashMap.get p.tid_map msg.tid ≡ some mid)
        × (ser : Any V → Io (List ℕ)) × (get_elem? p.ser mid ≡ some ser)
        × (ser msg ≡ ok b)
  unfolding encode
  encode_parts p msg mid t b e = elim (Option-cases (HashMap.get p.tid_map msg.tid)) [
    | inl gone ↦ absurd (ground arith)
    | inr (mid', there) ↦ elim (Option-cases (get_elem? p.ser mid')) [
      | inl gone ↦ absurd (ground arith)
      | inr (ser, at) ↦ elim (Option-cases (get_elem? p.transports mid')) [
        | inl gone ↦ absurd (ground arith)
        | inr (t', on) ↦ elim (Outcome-cases (ser msg)) [
          | inl (b', q) ↦ (ground arith, ser, ground arith, ground arith)
          | inr (inl (x, q)) ↦ absurd (ground arith)
          | inr (inr q) ↦ absurd (ground arith)
        ]
      ]
    ]
  ]

module _ {V : Type 0} (bin : Bincode V) where
  -- Each registration has the functions of its type.
  abbrev pub Coded : List (Entry V) → Type 0
  Coded es = All (λ e. (e.ser ≡ ser_fn bin e.tid) × (e.deser ≡ deser_fn bin e.tid)) es

  pub Coded-at :
      (es : List (Entry V)) (mid : MId) (e : Entry V)
      → Coded es
      → get_elem? es mid ≡ some e
      → (e.ser ≡ ser_fn bin e.tid) × (e.deser ≡ deser_fn bin e.tid)
  Coded-at [] mid e c at = cc
  Coded-at (x ∷ es) zero e (c, cs) at = ground (arith, at, c)
  Coded-at (x ∷ es) (suc mid) e (c, cs) at = Coded-at es mid e cs at

  ser-deser :
      (codec : RoundTrips bin) (msg : Any V) (b : List ℕ)
      → ser_fn bin msg.tid msg ≡ ok b
      → deser_fn bin msg.tid b ≡ ok msg
  unfolding ser_fn deser_fn downcast_ref
  ser-deser codec msg b e = ground (arith, codec msg.tid msg.value b)

  -- A message that `encode` accepts under parts that `build` made is decoded from its number and its
  -- bytes as it was, if the codec reads back what it writes.
  pub decode-encode :
      (p : MsgTableParts V) (es : List (Entry V)) (msg : Any V) (mid : MId) (t : Transport)
      (b : List ℕ)
      → RoundTrips bin
      → IsIndexOf p es
      → Coded es
      → encode p msg ≡ ok (mid, t, b)
      → decode p mid b ≡ ok msg
  unfolding decode mid_count
  decode-encode p es msg mid t b codec i coded e =
      let (there, ser, at, wrote) = encode_parts p msg mid t b e in
      let (x, place, same) = i.known msg.tid mid there in
      let (is_ser, is_deser) = Coded-at es mid x coded place in
      let ser_is : some ser ≡ some (ser_fn bin msg.tid) =
        sym at
        ∙ ap (λ l. get_elem? l mid) i.ser
        ∙ get_elem?-map (λ e. e.ser) es mid x place
        ∙ ap some (is_ser ∙ ap (ser_fn bin) same) in
      let deser_at : get_elem? p.deser mid ≡ some (deser_fn bin msg.tid) =
        ap (λ l. get_elem? l mid) i.deser
        ∙ get_elem?-map (λ e. e.deser) es mid x place
        ∙ ap some (is_deser ∙ ap (deser_fn bin) same) in
      let bound = get_elem?_bound es mid x place in
      let count = ap length i.transports ∙ length-map (λ e. e.transport) es in
      let valid : leb mid (length p.transports) ≡ true = le→leb _ _ (omega arith) in
      let wrote' : ser_fn bin msg.tid msg ≡ ok b = cc in
      rw (valid, deser_at, decode, index, valid_mid, mid_count) (ser-deser codec msg b wrote')
