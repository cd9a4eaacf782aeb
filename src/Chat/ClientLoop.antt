-- ===== src/Chat/ClientLoop.antt =====
-- examples/client.rs: what the user types, and one turn of the chatroom's client.
pub mod Laws
mod Tests
use carrier_pigeon.Base.{
  ℕ, List, [], ◌∷◌, map, Bool, true, false, not, ◌&&◌, Option, none, some, Io, ok, err, panic,
  if◌then◌else◌, ◌>>=◌, unwrap, length, drop, ◌==◌,
}
use carrier_pigeon.Base.Text.{bytes_of}
use carrier_pigeon.Net.Msg.{NetMsg}
use carrier_pigeon.Net.Status as ConStatus
use carrier_pigeon.Time.{Host}
use carrier_pigeon.Client.{Client, send, disconnect, is_open}
use carrier_pigeon.Client.Receive.{recv_msgs, clear_msgs, recv}
use carrier_pigeon.Chat.{Text, Msg, Disconnect, Values, Strings, any_msg, any_disconnect}

abbrev pub disconnect_word : Text
disconnect_word = bytes_of "disconnect"

abbrev pub disconnect_me : Text
disconnect_me = bytes_of "disconnect-me"

-- `str::starts_with`.
unfoldable pub starts_with : Text → Text → Bool
starts_with text [] = true
starts_with [] (c ∷ word) = false
starts_with (b ∷ text) (c ∷ word) = b == c && starts_with text word

-- What a line asks for.
pub data Command : Type 0 where
  nothing : Command
  leave : Text → Command
  say : Text → Command

unfoldable pub command : Strings → Text → Command
command s [] = nothing
command s (b ∷ text) =
    if not (starts_with (b ∷ text) disconnect_me) && starts_with (b ∷ text) disconnect_word
    then leave (s.trim (drop (length disconnect_word) (b ∷ text)))
    else say (b ∷ text)

-- The thread of `spawn_stdin_thread`: what the lines that are read become.
unfoldable pub trimmed : Strings → List Text → List Text
trimmed s lines = map s.trim lines

-- How a turn ends: the loop goes on with the messages that it shows, or it breaks.
pub data Turn (V : Type 0) : Type 0 where
  shows : List Msg → Turn V
  stopped : Turn V
  told : Disconnect → Turn V

module _ {V : Type 0} (v : Values V) where
  unfoldable pub obey : Host → Text → Client V → Command → Client V × Io (Unit {0})
  obey h username self nothing = (self, ok tt)
  obey h username self (leave reason) =
      disconnect h self (any_disconnect v (record { reason = reason }))
  obey h username self (say text) =
      send h self (any_msg v (record { from = username; text = text }))

  -- `while let Ok(text) = receiver.try_recv()`.
  unfoldable pub obey_all : Host → Strings → Text → Client V → List Text → Io (Client V)
  unfolding command obey
  obey_all h s username self [] = ok self
  obey_all h s username self (text ∷ texts) =
      let (self', done) = obey h username self (command s text) in
      unwrap done >>= λ _. obey_all h s username self' texts

  -- The end of a turn.
  unfoldable pub show : Client V → Io (Client V × Turn V)
  show self = ConStatus.disconnected v.disconnect_tid self.status >>= λ gone. elim gone [
    | some m ↦ ok (self, told (v.to_disconnect m))
    | none ↦ recv self v.msg_tid >>= λ msgs. ok (self, shows (map (λ m. v.to_msg m.m) msgs))
  ]

  unfoldable pub turn :
      Host → Strings → Text → Client V → List Text → Option (Io (Client V × Turn V))
  unfolding obey_all show
  turn h s username self texts =
      let received = recv_msgs h (clear_msgs self) in
      if is_open self
      then (elim received [
        | none ↦ none
        | some r ↦ some (r >>= λ p. obey_all h s username p.0 texts >>= show)
      ])
      else some (ok (self, stopped))
