-- ===== src/Table/Plain.antt =====
-- src/message_table.rs: `MsgTable`. A method that takes `&mut self` gives back the table beside its
-- result.
pub mod Laws
use carrier_pigeon.Base.{
  ℕ, Bool, List, [], ◌∷◌, ◌++◌, Outcome, ok, err, panic, ◌>>=◌, ◌==◌, any, if◌then◌else◌,
}
use carrier_pigeon.Net.{TypeId, Transport, tcp}
use carrier_pigeon.Table.{Bincode, Entry, MsgRegError, type_already_registered, ser_fn, deser_fn}
use carrier_pigeon.Table.Parts.{MsgTableParts, fill, no_parts}

pub record MsgTable (V : Type 0) : Type 0 where
  pub table : List (Entry V)

module _ {V : Type 0} where
  unfoldable pub new : MsgTable V
  new = record { table = [] }

  unfoldable pub tid_registered : MsgTable V → TypeId → Bool
  tid_registered self tid = any (λ e. tid == e.tid) self.table

  -- The loop of `join`.
  unfoldable pub push_all : List (Entry V) → List (Entry V) → List (Entry V)
  push_all table [] = table
  push_all table (e ∷ es) = push_all (table ++ e ∷ []) es

  unfoldable pub join : MsgTable V → MsgTable V → MsgTable V × Outcome MsgRegError (Unit {0})
  unfolding tid_registered push_all
  join self other =
      if any (λ e. tid_registered self e.tid) other.table
      then (self, err type_already_registered)
      else (record { table = push_all self.table other.table }, ok tt)

  unfoldable pub is_registered : TypeId → MsgTable V → Bool
  unfolding tid_registered
  is_registered tid self = tid_registered self tid

  unfoldable pub get_registration :
      Bincode V → TypeId → MsgTable V → Transport → Outcome MsgRegError (Entry V)
  unfolding tid_registered
  get_registration b tid self transport =
      if tid_registered self tid
      then err type_already_registered
      else ok
          (record { tid = tid; transport = transport; ser = ser_fn b tid; deser = deser_fn b tid })

  unfoldable pub register :
      Bincode V → TypeId → MsgTable V → Transport → MsgTable V × Outcome MsgRegError (Unit {0})
  unfolding get_registration
  register b tid self transport = elim (get_registration b tid self transport) [
    | ok e ↦ (record { table = self.table ++ e ∷ [] }, ok tt)
    | err e ↦ (self, err e)
    | panic ↦ (self, panic)
  ]

  unfoldable pub build :
      Bincode V → TypeId → TypeId → TypeId → MsgTable V → Outcome MsgRegError (MsgTableParts V)
  unfolding get_registration fill
  build b c r d self = do
    con ← get_registration b c self tcp
    resp ← get_registration b r self tcp
    discon ← get_registration b d self tcp
    ok (fill 0 no_parts (con ∷ resp ∷ discon ∷ self.table))
