-- ===== src/Chat/Samples.antt =====
-- Small inputs for the tests of the chatroom: values that are bytes, and its table.
use carrier_pigeon.Base.{[]}
use carrier_pigeon.Table.Parts.{MsgTableParts, fill, no_parts}
use carrier_pigeon.Samples.{Bytes, copy}
use carrier_pigeon.Chat.{Text, Response, accepted, rejected, Values, Strings}
use carrier_pigeon.Chat.Laws.{chat_entries}

pub answered : Response → Text
answered accepted = []
answered (rejected reason) = reason

abbrev pub plain : Values Bytes
plain = record {
  msg_tid = 20;
  connection_tid = 10;
  response_tid = 11;
  disconnect_tid = 12;
  from_msg = λ m. m.text;
  to_msg = λ b. record { from = []; text = b };
  from_connection = λ c. c.user;
  to_connection = λ b. record { user = b };
  from_response = answered;
  to_response = λ b. rejected b;
  from_disconnect = λ d. d.reason;
  to_disconnect = λ b. record { reason = b };
}

-- Texts that are in lower case already, and have no space around them.
abbrev pub kept : Strings
kept = record { to_lowercase = λ t. t; trim = λ t. t }

abbrev pub chat_parts : MsgTableParts Bytes
chat_parts = fill 0 no_parts (chat_entries plain copy)
