-- ===== src/Chat.antt =====
-- examples/shared.rs: the messages of the chatroom, and the table that both sides build.
pub mod ServerLoop
pub mod ClientLoop
mod Laws
pub mod Samples
use carrier_pigeon.Base.{ℕ, ◌≡◌, ◌≢◌, List, Io, Outcome, ok, err, panic, unwrap, ◌>>=◌}
use carrier_pigeon.Net.{TypeId, Any}
use carrier_pigeon.Net.Transport.{udp}
use carrier_pigeon.Table.{Bincode, MsgRegError}
use carrier_pigeon.Table.Parts.{MsgTableParts}
use carrier_pigeon.Table.Plain as MsgTable

-- A `String` is its bytes.
abbrev pub Text : Type 0
Text = List ℕ

pub record Msg : Type 0 where
  pub from : Text
  pub text : Text

pub record Connection : Type 0 where
  pub user : Text

pub record Disconnect : Type 0 where
  pub reason : Text

pub data Response : Type 0 where
  accepted : Response
  rejected : Text → Response

-- What the language gives for the four types: their `TypeId`s, which differ, and how their values
-- lie in a `V`.
pub record Values (V : Type 0) : Type 0 where
  pub msg_tid : TypeId
  pub connection_tid : TypeId
  pub response_tid : TypeId
  pub disconnect_tid : TypeId
  pub from_msg : Msg → V
  pub to_msg : V → Msg
  pub from_connection : Connection → V
  pub to_connection : V → Connection
  pub from_response : Response → V
  pub to_response : V → Response
  pub from_disconnect : Disconnect → V
  pub to_disconnect : V → Disconnect

-- What the standard library does with a text: neither depends on more than the text.
pub record Strings : Type 0 where
  pub to_lowercase : Text → Text
  pub trim : Text → Text

module _ {V : Type 0} (v : Values V) where
  abbrev pub any_msg : Msg → Any V
  any_msg m = record { tid = v.msg_tid; value = v.from_msg m }

  abbrev pub any_connection : Connection → Any V
  any_connection m = record { tid = v.connection_tid; value = v.from_connection m }

  abbrev pub any_response : Response → Any V
  any_response m = record { tid = v.response_tid; value = v.from_response m }

  abbrev pub any_disconnect : Disconnect → Any V
  any_disconnect m = record { tid = v.disconnect_tid; value = v.from_disconnect m }

  -- `register::<Msg>(UDP)` and `build::<Connection, Response, Disconnect>()`, both unwrapped.
  unfoldable pub make_parts : Bincode V → Outcome MsgRegError (MsgTableParts V)
  make_parts bin =
      let (table, registered) = MsgTable.register bin v.msg_tid MsgTable.new udp in
      unwrap registered >>= λ _.
      unwrap (MsgTable.build bin v.connection_tid v.response_tid v.disconnect_tid table)
