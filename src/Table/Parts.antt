-- ===== src/Table/Parts.antt =====
-- src/message_table.rs: `MsgTableParts`.
pub mod Fill
pub mod Index
pub mod Codec
pub mod Roundtrip
pub mod Count
pub mod Typed
pub mod Panics
use carrier_pigeon.Base.{ℕ, ◌+◌, Bool, List, [], ◌∷◌, ◌++◌, length, leb}
use carrier_pigeon.Base.HashMap
use carrier_pigeon.Base.HashMap.{HashMap}
use carrier_pigeon.Net.{MId, TypeId, Transport, SerFn, DeserFn}
use carrier_pigeon.Table.{Entry}

pub record MsgTableParts (V : Type 0) : Type 0 where
  pub tid_map : HashMap MId
  pub transports : List Transport
  pub ser : List (SerFn V)
  pub deser : List (DeserFn V)

module _ {V : Type 0} where
  unfoldable pub mid_count : MsgTableParts V → ℕ
  mid_count p = length p.transports

  unfoldable pub valid_mid : MsgTableParts V → MId → Bool
  unfolding mid_count
  valid_mid p mid = leb mid (mid_count p)

  unfoldable pub valid_tid : MsgTableParts V → TypeId → Bool
  unfolding HashMap.contains_key
  valid_tid p tid = HashMap.contains_key p.tid_map tid

  -- What `build` starts from.
  abbrev pub no_parts : MsgTableParts V
  no_parts = record { tid_map = []; transports = []; ser = []; deser = [] }

  -- The loop of `build` over the enumerated registrations.
  unfoldable pub fill : ℕ → MsgTableParts V → List (Entry V) → MsgTableParts V
  fill idx p [] = p
  fill idx p (e ∷ es) =
      fill (idx + 1)
        (record {
          tid_map = HashMap.insert p.tid_map e.tid idx;
          transports = p.transports ++ e.transport ∷ [];
          ser = p.ser ++ e.ser ∷ [];
          deser = p.deser ++ e.deser ∷ [];
        })
        es
