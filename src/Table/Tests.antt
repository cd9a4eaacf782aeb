-- ===== src/Table/Tests.antt =====
-- The tables of src/message_table.rs with concrete registrations.
use mathlib.Core.List.{Permᴰ}
use mathlib.Core.List.Permᴰ as Perm
use carrier_pigeon.Base.{
  ◌<◌, ◌≡◌, refl, ◌⊎◌, true, false, ◌||◌, List, [], ◌∷◌, ◌++◌, map, some, ok, err, panic, any, All,
  arith, get_elem?, length,
}
use carrier_pigeon.Base.HashMap as HashMap
use carrier_pigeon.Base.Results.{invalid_data}
use carrier_pigeon.Net.{tcp, udp, downcast_ref}
use carrier_pigeon.Table.{Entry, type_already_registered, non_unique_identifier, ser_fn}
use carrier_pigeon.Table.Parts.{MsgTableParts, valid_tid, fill}
use carrier_pigeon.Table.Parts.Index.{IsIndexOf}
use carrier_pigeon.Table.Parts.Codec.{encode, decode, index, mid_of}
use carrier_pigeon.Table.Parts.Roundtrip.{decode-encode, decode_cases}
use carrier_pigeon.Table.Plain as Plain
use carrier_pigeon.Table.Plain.{MsgTable}
use carrier_pigeon.Table.Plain.Laws as PlainLaws
use carrier_pigeon.Table.Plain.Laws.{entry_of, register_cases, join_cases, build_cases}
use carrier_pigeon.Table.Sorted as Sorted
use carrier_pigeon.Table.Sorted.{Named, SortedMsgTable, str_eq}
use carrier_pigeon.Table.Sorted.Order.{Ascending}
use carrier_pigeon.Table.Sorted.Laws as SortedLaws
use carrier_pigeon.Table.Sorted.Laws.{named_of, sorted_register_cases, sorted_join_cases}
use carrier_pigeon.Table.Sorted.Build.{build_order, build_succeeds}
use carrier_pigeon.Samples.{
  Bytes, copy, copy-RoundTrips, entries, entries-Coded, parts, parts-IsIndexOf, message,
}

abbrev one : MsgTable Bytes
one = record { table = entry_of copy 20 tcp ∷ [] }

abbrev another : MsgTable Bytes
another = record { table = entry_of copy 21 udp ∷ [] }

one-IsValid : PlainLaws.IsValid one
one-IsValid = ground arith

register_cases_example :
    ((Plain.tid_registered one 21 ≡ false)
      × (Plain.register copy 21 one udp
          ≡ (record { table = one.table ++ entry_of copy 21 udp ∷ [] }, ok tt))
      × PlainLaws.IsValid (Plain.register copy 21 one udp).0)
    ⊎ ((Plain.tid_registered one 21 ≡ true)
        × (Plain.register copy 21 one udp ≡ (one, err type_already_registered)))
register_cases_example = register_cases copy 21 one udp one-IsValid

join_cases_example :
    ((All (λ e. Plain.tid_registered one e.tid ≡ false) another.table)
      × (Plain.join one another ≡ (record { table = one.table ++ another.table }, ok tt))
      × PlainLaws.IsValid (Plain.join one another).0)
    ⊎ ((any (λ e. Plain.tid_registered one e.tid) another.table ≡ true)
        × (Plain.join one another ≡ (one, err type_already_registered)))
join_cases_example = join_cases one another one-IsValid (ground arith)

build_cases_example :
    ((p : MsgTableParts Bytes) × (Plain.build copy 10 11 12 one ≡ ok p)
      × IsIndexOf p (entry_of copy 10 tcp ∷ entry_of copy 11 tcp ∷ entry_of copy 12 tcp ∷ one.table)
      × (Plain.tid_registered one 10 || Plain.tid_registered one 11 || Plain.tid_registered one 12
          ≡ false))
    ⊎ ((Plain.build copy 10 11 12 one ≡ err type_already_registered)
        × (Plain.tid_registered one 10 || Plain.tid_registered one 11 || Plain.tid_registered one 12
            ≡ true))
build_cases_example =
    build_cases copy 10 11 12 one one-IsValid (omega arith) (omega arith) (omega arith)

decode-encode_example : decode parts 3 (7 ∷ 8 ∷ []) ≡ ok message
unfolding encode index mid_of valid_tid ser_fn downcast_ref fill HashMap.get HashMap.insert
    HashMap.contains_key
decode-encode_example =
    decode-encode copy parts entries message 3 tcp (7 ∷ 8 ∷ []) copy-RoundTrips parts-IsIndexOf
      entries-Coded encoded
  where
    encoded : encode parts message ≡ ok (3, tcp, 7 ∷ 8 ∷ [])
    encoded = refl

decode_cases_example :
    ((e : Entry Bytes) × (get_elem? entries 4 ≡ some e) × (decode parts 4 [] ≡ e.deser []))
    ⊎ ((4 ≡ length entries) × (decode parts 4 [] ≡ panic))
    ⊎ ((length entries < 4) × (decode parts 4 [] ≡ err invalid_data))
decode_cases_example = decode_cases parts entries 4 [] parts-IsIndexOf

abbrev names : SortedMsgTable Bytes
names = record {
  table = named_of copy 20 (5 ∷ 1 ∷ []) tcp ∷ named_of copy 21 (4 ∷ 2 ∷ []) udp ∷ [];
}

abbrev swapped : SortedMsgTable Bytes
swapped = record {
  table = named_of copy 21 (4 ∷ 2 ∷ []) udp ∷ named_of copy 20 (5 ∷ 1 ∷ []) tcp ∷ [];
}

abbrev more_names : SortedMsgTable Bytes
more_names = record { table = named_of copy 22 (4 ∷ 3 ∷ []) udp ∷ [] }

names-IsValid : SortedLaws.IsValid names
names-IsValid = record { tids = ground arith; identifiers = ground arith }

more_names-IsValid : SortedLaws.IsValid more_names
more_names-IsValid = record { tids = ground arith; identifiers = ground arith }

sorted_register_cases_example :
    ((Sorted.identifier_registered names (6 ∷ []) ≡ true)
      × (Sorted.register copy 23 names tcp (6 ∷ []) ≡ (names, err non_unique_identifier)))
    ⊎ ((Sorted.identifier_registered names (6 ∷ []) ≡ false)
        × (Sorted.tid_registered names 23 ≡ true)
        × (Sorted.register copy 23 names tcp (6 ∷ []) ≡ (names, err type_already_registered)))
    ⊎ ((Sorted.register copy 23 names tcp (6 ∷ [])
          ≡ (record { table = names.table ++ named_of copy 23 (6 ∷ []) tcp ∷ [] }, ok tt))
        × SortedLaws.IsValid (Sorted.register copy 23 names tcp (6 ∷ [])).0)
sorted_register_cases_example = sorted_register_cases copy 23 names tcp (6 ∷ []) names-IsValid

sorted_join_cases_example :
    ((any (λ e. Sorted.tid_registered names e.entry.tid) more_names.table ≡ true)
      × (Sorted.join names more_names ≡ (names, err type_already_registered)))
    ⊎ ((any (λ e. Sorted.tid_registered names e.entry.tid) more_names.table ≡ false)
        × (any (λ e. Sorted.identifier_registered names e.identifier) more_names.table ≡ true)
        × (Sorted.join names more_names ≡ (names, err non_unique_identifier)))
    ⊎ ((Sorted.join names more_names ≡ (record { table = names.table ++ more_names.table }, ok tt))
        × SortedLaws.IsValid (Sorted.join names more_names).0)
sorted_join_cases_example = sorted_join_cases names more_names names-IsValid more_names-IsValid

build_order_example : Sorted.build copy 10 11 12 names ≡ Sorted.build copy 10 11 12 swapped
build_order_example =
    build_order copy 10 11 12 names swapped (Perm.swap refl refl) (names-IsValid.identifiers)

build_succeeds_example :
    (p : MsgTableParts Bytes) × (es : List (Named Bytes)) × (Sorted.build copy 10 11 12 names
      ≡ ok p)
    × Permᴰ names.table es
    × Ascending es
    × IsIndexOf p
        (entry_of copy 10 tcp ∷ entry_of copy 11 tcp ∷ entry_of copy 12 tcp ∷ map (λ e. e.entry) es)
unfolding str_eq Sorted.tid_registered Sorted.identifier_registered
build_succeeds_example =
    build_succeeds copy 10 11 12 names names-IsValid (omega arith) (omega arith) (omega arith)
      (refl, (refl, (refl, tt))) (refl, (refl, (refl, tt)))
