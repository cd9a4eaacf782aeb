-- ===== src/Table/Parts/Index.antt =====
-- What `build` promises: parts that number the registrations by their place.
use carrier_pigeon.Base.{
  ◌≡◌, List, [], ◌∷◌, ◌≢◌, sym, map, some, arith, All, Lacks, get_elem?, Distinct,
}
use carrier_pigeon.Base.HashMap
use carrier_pigeon.Net.{MId, TypeId}
use carrier_pigeon.Table.{Entry}
use carrier_pigeon.Table.Parts.{MsgTableParts, no_parts, fill}
use carrier_pigeon.Table.Parts.Fill.{
  transports-fill, ser-fill, deser-fill, get-fill, get_fill→place,
}

pub record IsIndexOf {V : Type 0} (p : MsgTableParts V) (es : List (Entry V)) : Type 0 where
  pub numbered :
      (mid : MId) (e : Entry V) → get_elem? es mid ≡ some e → HashMap.get p.tid_map e.tid ≡ some mid
  pub known :
      (tid : TypeId) (mid : MId)
      → HashMap.get p.tid_map tid ≡ some mid
      → (e : Entry V) × (get_elem? es mid ≡ some e) × (e.tid ≡ tid)
  pub transports : p.transports ≡ map (λ e. e.transport) es
  pub ser : p.ser ≡ map (λ e. e.ser) es
  pub deser : p.deser ≡ map (λ e. e.deser) es

pub fill-IsIndexOf :
    {V : Type 0} (es : List (Entry V))
    → Distinct (λ e. e.tid) es
    → IsIndexOf (fill 0 no_parts es) es
fill-IsIndexOf es d = record {
  numbered = λ mid e at. rw (get-fill 0 no_parts es mid e d at) (ground arith);
  known = get_fill→place es;
  transports = transports-fill 0 no_parts es;
  ser = ser-fill 0 no_parts es;
  deser = deser-fill 0 no_parts es;
}

-- Three different types in front of a table that has none of them.
pub three-Distinct :
    {V : Type 0} (x y z : Entry V) (es : List (Entry V))
    → x.tid ≢ y.tid
    → x.tid ≢ z.tid
    → y.tid ≢ z.tid
    → All (λ e. Lacks (λ x. x.tid) e.tid es) (x ∷ y ∷ z ∷ [])
    → Distinct (λ e. e.tid) es
    → Distinct (λ e. e.tid) (x ∷ y ∷ z ∷ es)
three-Distinct x y z es xy xz yz new d = (
  ((λ e. xy (sym e)), ((λ e. xz (sym e)), new.0)),
  (((λ e. yz (sym e)), new.1.0), (new.1.1.0, d)),
)
