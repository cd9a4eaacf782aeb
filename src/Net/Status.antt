-- ===== src/Net/Status.antt =====
-- src/net.rs: `Status`, the states of a connection.
mod State
pub use State.{Status}
use carrier_pigeon.Base.{
  List, ◌++◌, ℕ, Bool, true, false, Option, none, some, Io, ok, panic, ErrorKind,
}
use carrier_pigeon.Base.Text.{bytes_of}
use carrier_pigeon.Net.{TypeId, Any, downcast_ref}

module _ {V : Type 0} where
  unfoldable pub connected : Status V → Bool
  connected Status.connected = true
  connected _ = false

  -- The inner `Option` is the result; a message of another type than `D` panics.
  unfoldable pub disconnected : TypeId → Status V → Io (Option V)
  unfolding downcast_ref
  disconnected tid (Status.disconnected d) = elim (downcast_ref tid d) [
    | none ↦ panic
    | some v ↦ ok (some v)
  ]
  disconnected tid _ = ok none

  unfoldable pub disconnected_dyn : Status V → Option (Any V)
  disconnected_dyn (Status.disconnected d) = some d
  disconnected_dyn _ = none

  unfoldable pub dropped : Status V → Option ErrorKind
  dropped (Status.dropped e) = some e
  dropped _ = none

  unfoldable pub closed : Status V → Bool
  closed Status.closed = true
  closed _ = false

  -- `Display::fmt`: what is written. The text of an error is the standard library's.
  unfoldable display : (ErrorKind → List ℕ) → Status V → List ℕ
  display error_text Status.connected = bytes_of "Connected"
  display error_text (Status.disconnected d) = bytes_of "Disconnected gracefully"
  display error_text Status.closed = bytes_of "Closed"
  display error_text (Status.dropped e) = bytes_of "Dropped with error " ++ error_text e
