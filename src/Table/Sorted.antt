-- ===== src/Table/Sorted.antt =====
-- src/message_table.rs: `SortedMsgTable`. An identifier is the bytes of its text.
pub mod Order
pub mod Laws
pub mod Build
use carrier_pigeon.Base.{
  ℕ, Bool, true, false, List, [], ◌∷◌, ◌++◌, Outcome, ok, err, panic, ◌>>=◌, ◌==◌, map, any, ltb,
  ◌&&◌, if◌then◌else◌,
}
use carrier_pigeon.Base.Text.{bytes_of}
use carrier_pigeon.Net.{TypeId, Transport, tcp}
use carrier_pigeon.Table.{
  Bincode, Entry, MsgRegError, type_already_registered, non_unique_identifier, ser_fn, deser_fn,
}
use carrier_pigeon.Table.Parts.{MsgTableParts, fill, no_parts}

-- `==` of two `str`.
unfoldable pub str_eq : List ℕ → List ℕ → Bool
str_eq [] [] = true
str_eq [] (y ∷ ys) = false
str_eq (x ∷ xs) [] = false
str_eq (x ∷ xs) (y ∷ ys) = x == y && str_eq xs ys

-- Whether `cmp` of two `str`, which goes byte by byte, is not `Greater`.
unfoldable pub str_le : List ℕ → List ℕ → Bool
str_le [] ys = true
str_le (x ∷ xs) [] = false
str_le (x ∷ xs) (y ∷ ys) = if x == y then str_le xs ys else ltb x y

pub record Named (V : Type 0) : Type 0 where
  pub identifier : List ℕ
  pub entry : Entry V

pub record SortedMsgTable (V : Type 0) : Type 0 where
  pub table : List (Named V)

module _ {V : Type 0} where
  -- `sort_by` on the identifiers: the standard library's sort is stable, so this insertion sort
  -- gives the list that it gives.
  unfoldable pub insert_named : Named V → List (Named V) → List (Named V)
  insert_named e [] = e ∷ []
  insert_named e (x ∷ xs) =
      if str_le e.identifier x.identifier then e ∷ x ∷ xs else x ∷ insert_named e xs

  unfoldable pub sort_named : List (Named V) → List (Named V)
  unfolding insert_named
  sort_named [] = []
  sort_named (x ∷ xs) = insert_named x (sort_named xs)

  unfoldable pub new : SortedMsgTable V
  new = record { table = [] }

  unfoldable pub tid_registered : SortedMsgTable V → TypeId → Bool
  tid_registered self tid = any (λ e. tid == e.entry.tid) self.table

  unfoldable pub identifier_registered : SortedMsgTable V → List ℕ → Bool
  identifier_registered self identifier = any (λ e. str_eq identifier e.identifier) self.table

  -- The loop of `join`.
  unfoldable pub push_all : List (Named V) → List (Named V) → List (Named V)
  push_all table [] = table
  push_all table (e ∷ es) = push_all (table ++ e ∷ []) es

  unfoldable pub join :
      SortedMsgTable V → SortedMsgTable V → SortedMsgTable V × Outcome MsgRegError (Unit {0})
  unfolding tid_registered identifier_registered push_all
  join self other =
      if any (λ e. tid_registered self e.entry.tid) other.table
      then (self, err type_already_registered)
      else if any (λ e. identifier_registered self e.identifier) other.table
      then (self, err non_unique_identifier)
      else (record { table = push_all self.table other.table }, ok tt)

  unfoldable pub is_registered : TypeId → SortedMsgTable V → Bool
  unfolding tid_registered
  is_registered tid self = tid_registered self tid

  unfoldable pub get_registration :
      Bincode V → TypeId → SortedMsgTable V → List ℕ → Transport → Outcome MsgRegError (Named V)
  unfolding tid_registered identifier_registered
  get_registration b tid self identifier transport =
      if identifier_registered self identifier
      then err non_unique_identifier
      else if tid_registered self tid
      then err type_already_registered
      else ok (record {
        identifier = identifier;
        entry = record {
          tid = tid;
          transport = transport;
          ser = ser_fn b tid;
          deser = deser_fn b tid;
        };
      })

  unfoldable pub register :
      Bincode V
      → TypeId
      → SortedMsgTable V
      → Transport
      → List ℕ
      → SortedMsgTable V × Outcome MsgRegError (Unit {0})
  unfolding get_registration
  register b tid self transport identifier =
      elim (get_registration b tid self identifier transport) [
        | ok e ↦ (record { table = self.table ++ e ∷ [] }, ok tt)
        | err e ↦ (self, err e)
        | panic ↦ (self, panic)
      ]

  unfoldable pub build :
      Bincode V
      → TypeId
      → TypeId
      → TypeId
      → SortedMsgTable V
      → Outcome MsgRegError (MsgTableParts V)
  build b c r d self = do
    con ← get_registration b c self (bytes_of "carrier-pigeon::connection") tcp
    resp ← get_registration b r self (bytes_of "carrier-pigeon::response") tcp
    discon ← get_registration b d self (bytes_of "carrier-pigeon::disconnect") tcp
    ok (
        fill 0 no_parts
          (con.entry ∷ resp.entry ∷ discon.entry ∷ map (λ e. e.entry) (sort_named self.table)))
