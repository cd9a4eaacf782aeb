-- ===== src/Chat/ServerLoop.antt =====
-- examples/server.rs: one turn of the chatroom's server.
--
-- What it prints is not kept. `recv_order` and `send_order` are the orders in which the server's
-- hash map is walked.
pub mod Laws
pub mod Greeting
pub mod Leaving
mod Tests
use carrier_pigeon.Base.{
  ℕ, List, [], ◌∷◌, Bool, true, false, Option, none, some, Io, ok, err, panic, if◌then◌else◌, ◌>>=◌,
  unwrap, any,
}
use carrier_pigeon.Base.Text.{bytes_of}
use carrier_pigeon.Net.{CId, Any}
use carrier_pigeon.Net.CIdSpec.{CIdSpec, except}
use carrier_pigeon.Net.Msg.{NetMsg}
use carrier_pigeon.Time.{Host}
use carrier_pigeon.Table.Sorted.{str_eq}
use carrier_pigeon.Server.{Server}
use carrier_pigeon.Server.Send.{send_spec, disconnect}
use carrier_pigeon.Server.Disconnects.{handle_disconnects}
use carrier_pigeon.Server.Accept.Handle.{Hook, handle_new_cons}
use carrier_pigeon.Server.Receive.{recv_msgs, clear_msgs, recv}
use carrier_pigeon.Chat.{
  Text, Connection, Disconnect, Response, accepted, rejected, Values, Strings, any_response,
  any_disconnect,
}

abbrev pub blacklisted_users : List Text
blacklisted_users = bytes_of "john" ∷ bytes_of "jane" ∷ []

abbrev pub disconnect_me : Text
disconnect_me = bytes_of "disconnect-me"

-- The message to a client that asked to leave.
abbrev pub goodbye : Disconnect
goodbye = record { reason = bytes_of "Disconnect requested." }

unfoldable pub is_blacklisted : Strings → Text → Bool
is_blacklisted s user = any (str_eq (s.to_lowercase user)) blacklisted_users

-- The hook of `handle_new_cons`.
unfoldable pub greet : Strings → Connection → Bool × Response
unfolding is_blacklisted
greet s con_msg =
    if is_blacklisted s con_msg.user
    then (false, rejected (bytes_of "This user is blacklisted"))
    else (true, accepted)

module _ {V : Type 0} (v : Values V) where
  abbrev pub greeter : Strings → Hook V (Unit {0})
  greeter s st cid m =
      let (acc, resp) = greet s (v.to_connection m) in (st, acc, any_response v resp)

  abbrev pub asks_to_leave : NetMsg V → Bool
  asks_to_leave m = str_eq (v.to_msg m.m).text disconnect_me

  -- The loop over the messages, with the clients that are to be disconnected.
  unfoldable pub relay :
      Host → (List CId → List CId) → Server V → List (NetMsg V) → Io (Server V × List CId)
  relay h order self [] = ok (self, [])
  relay h order self (m ∷ msgs) =
      let later = relay h order self msgs in
      let (self', sent) =
        send_spec h order self (except m.cid) (record { tid = v.msg_tid; value = m.m }) in
      let onward = relay h order self' msgs in
      if asks_to_leave m
      then (later >>= λ r. ok (r.0, m.cid ∷ r.1))
      else (unwrap sent >>= λ _. onward)

  unfoldable pub disconnect_each : Host → Server V → List CId → Io (Server V)
  disconnect_each h self [] = ok self
  disconnect_each h self (cid ∷ cids) =
      let (self', gone) = disconnect h self (any_disconnect v goodbye) cid in
      unwrap gone >>= λ _. disconnect_each h self' cids

  -- One turn of the loop, once the messages have come.
  unfoldable pub answer_all : Host → ℕ → Strings → (List CId → List CId) → Server V → Io (Server V)
  unfolding greet relay disconnect_each
  answer_all h now s order self = handle_disconnects (λ st cid status. st) tt self >>= λ r1.
      handle_new_cons h now (greeter s) v.connection_tid tt r1.0 >>= λ r2.
      recv r2.0 v.msg_tid >>= λ msgs. relay h order r2.0 msgs >>= λ r3. disconnect_each h r3.0 r3.1

  unfoldable pub turn :
      Host
      → ℕ
      → Strings
      → (List CId → List CId)
      → (List CId → List CId)
      → Server V
      → Option (Io (Server V))
  unfolding answer_all
  turn h now s recv_order send_order self = elim (recv_msgs h recv_order (clear_msgs self)) [
    | none ↦ none
    | some r ↦ some (r >>= λ p. answer_all h now s send_order p.0)
  ]
