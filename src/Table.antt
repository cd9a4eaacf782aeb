-- ===== src/Table.antt =====
-- src/message_table.rs: the two tables in which message types are registered, and the parts that
-- are built from them.
--
-- serde and bincode are not part of the repository: `Bincode` is what the crate asks of them.
pub mod Parts
pub mod Plain
pub mod Sorted
mod Tests
use carrier_pigeon.Base.{ℕ, ◌≡◌, List, Option, none, some, Outcome, ok, err, panic, ErrorKind, Io}
use carrier_pigeon.Base.Text.{bytes_of}
use carrier_pigeon.Base.Results.{invalid_data}
use carrier_pigeon.Net.{MId, TypeId, Any, downcast_ref, DeserFn, SerFn, Transport}

abbrev pub connection_type_mid : MId
connection_type_mid = 0

abbrev pub response_type_mid : MId
response_type_mid = 1

abbrev pub disconnect_type_mid : MId
disconnect_type_mid = 2

pub data MsgRegError : Type 0 where
  type_already_registered non_unique_identifier : MsgRegError

-- `Display::fmt`: what is written.
unfoldable display : MsgRegError → List ℕ
display type_already_registered = bytes_of "Type was already registered."
display non_unique_identifier = bytes_of "The identifier was not unique."

-- `bincode::serialize::<T>` and `bincode::deserialize::<T>`; `none` is an error.
pub record Bincode (V : Type 0) : Type 0 where
  pub serialize : TypeId → V → Option (List ℕ)
  pub deserialize : TypeId → List ℕ → Option V

-- What bincode documents: a value is read back from the bytes that it was written to.
abbrev pub RoundTrips : {V : Type 0} → Bincode V → Type 0
RoundTrips {V} b =
    (tid : TypeId) (v : V) (bytes : List ℕ)
    → b.serialize tid v ≡ some bytes
    → b.deserialize tid bytes ≡ some v

-- One registration: `(TypeId, Transport, SerFn, DeserFn)`.
pub record Entry (V : Type 0) : Type 0 where
  pub tid : TypeId
  pub transport : Transport
  pub ser : SerFn V
  pub deser : DeserFn V

-- The closure `ser` of `get_registration::<T>`. A value of another type panics.
unfoldable pub ser_fn : {V : Type 0} → Bincode V → TypeId → SerFn V
unfolding downcast_ref
ser_fn b tid m = elim (downcast_ref tid m) [
  | none ↦ panic
  | some v ↦ elim (b.serialize tid v) [ none ↦ err invalid_data | some bytes ↦ ok bytes ]
]

-- The closure `deser` of `get_registration::<T>`.
unfoldable pub deser_fn : {V : Type 0} → Bincode V → TypeId → DeserFn V
deser_fn b tid bytes = elim (b.deserialize tid bytes) [
  | none ↦ err invalid_data
  | some v ↦ ok (record { tid = tid; value = v })
]
