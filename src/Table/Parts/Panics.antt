-- ===== src/Table/Parts/Panics.antt =====
-- Which message numbers panic where the parts of src/message_table.rs are used to decode.
use carrier_pigeon.Base.{
  ℕ, ◌≡◌, ◌≢◌, ◌↔◌, ◌∙◌, sym, ap, List, panic, length, arith, ◌>>=◌, inl, inr, Io,
}
use carrier_pigeon.Base.Results.{>>=-panic}
use carrier_pigeon.Net.{MId, TypeId, Any}
use carrier_pigeon.Table.{Bincode, Entry, deser_fn}
use carrier_pigeon.Table.Parts.{MsgTableParts}
use carrier_pigeon.Table.Parts.Codec.{decode}
use carrier_pigeon.Table.Parts.Roundtrip.{Coded-at, decode_cases, get_elem?_bound}
use carrier_pigeon.Table.Parts.Typed.{IsBuilt, IsBuilt-IsIndexOf}

module _ {V : Type 0} (bin : Bincode V) (es : List (Entry V)) (p : MsgTableParts V) where
  deser_fn-ne-panic : (tid : TypeId) (bytes : List ℕ) → deser_fn bin tid bytes ≢ panic
  unfolding deser_fn
  deser_fn-ne-panic tid bytes e = ground arith

  decode-panics :
      (mid : MId) (bytes : List ℕ)
      → IsBuilt bin es p
      → (decode p mid bytes ≡ panic) ↔ (mid ≡ length es)
  decode-panics mid bytes b = elim (decode_cases p es mid bytes (IsBuilt-IsIndexOf bin es p b)) [
    | inl (e, at, d) ↦
        let (_, is_deser) = Coded-at bin es mid e b.coded at in
        let bound = get_elem?_bound es mid e at in
        (
          (λ q.
              absurd
                (deser_fn-ne-panic e.tid bytes (ap (λ f. f bytes) (sym is_deser) ∙ sym d ∙ q))),
          (λ q. absurd (omega arith)),
        )
    | inr (inl (last, d)) ↦ ((λ q. last), (λ q. d))
    | inr (inr (over, d)) ↦ ((λ q. absurd (ground arith)), (λ q. absurd (omega arith)))
  ]

  -- The same where what follows does not panic.
  pub decode_then-panics {κ} :
      {B : Type κ} (mid : MId) (bytes : List ℕ) (f : Any V → Io B)
      → IsBuilt bin es p
      → ((msg : Any V) → f msg ≢ panic)
      → (decode p mid bytes >>= f ≡ panic) ↔ (mid ≡ length es)
  decode_then-panics mid bytes f b calm = (
    (λ q. (decode-panics mid bytes b).0 (>>=-panic (decode p mid bytes) f calm q)),
    (λ last. ap (λ m. m >>= f) ((decode-panics mid bytes b).1 last)),
  )
