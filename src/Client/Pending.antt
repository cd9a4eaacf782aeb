-- ===== src/Client/Pending.antt =====
-- src/client.rs: `PendingClient` and `OptionPendingClient`, the ends of the channel over which the
-- thread of `Client::new` hands over the client.
--
-- crossbeam-channel is not part of the repository: `Channels` is what the crate asks of it.
mod Laws
mod Tests
use carrier_pigeon.Base.{
  ℕ, ◌≡◌, ◌≢◌, List, ◌++◌, Bool, true, false, not, ◌||◌, Option, none, some, Outcome, Io, ok, err,
  panic, ErrorKind, if◌then◌else◌, ◌>>=◌,
}
use carrier_pigeon.Base.Text.{bytes_of}
use carrier_pigeon.Net.{TypeId, Any, downcast_ref}
use carrier_pigeon.Client.{Client}

-- A `bounded(1)` channel. `recv` gives `none` for a `RecvError`; it is asked of a channel as it is
-- when the call returns.
pub record Channels (A : Type 0) : Type 1 where
  pub Channel : Type 0
  pub bounded : Channel
  pub send : A → Channel → Channel
  pub drop_sender : Channel → Channel
  pub is_ready : Channel → Bool
  pub recv : Channel → Channel × Option A
  -- What is in the channel, and whether its sender is there.
  pub view : Channel → Option A × Bool
  pub view-bounded : view bounded ≡ (none, true)
  pub view-send : (a : A) (c : Channel) → (view c).0 ≡ none → view (send a c) ≡ (some a, (view c).1)
  pub view-drop_sender : (c : Channel) → view (drop_sender c) ≡ ((view c).0, false)
  -- A receiver is ready if there is a message, or none will come.
  pub is_ready_lem :
      (c : Channel) → is_ready c ≡ (elim (view c).0 [ none ↦ not (view c).1 | some a ↦ true ])
  -- `recv` takes the message, or there is none and none will come.
  pub view-recv : (c : Channel) → view (recv c).0 ≡ (none, (view c).1)
  pub recv_lem : (c : Channel) → is_ready c ≡ true → (recv c).1 ≡ (view c).0

-- What `new_blocking` gives: the client, and the response of the server.
abbrev pub Connected : Type 0 → Type 0
Connected V = Io (Client V × Any V)

pub record PendingClient (C : Type 0) : Type 0 where
  pub channel : C

pub record OptionPendingClient (C : Type 0) : Type 0 where
  pub channel : Option C

module _ {V : Type 0} where
  -- `map(|(client, m)| (client, *m.downcast::<R>().expect(…)))`.
  unfoldable pub typed : TypeId → Connected V → Io (Client V × V)
  unfolding downcast_ref
  typed tid (ok (client, m)) = elim (downcast_ref tid m) [
    | none ↦ panic
    | some resp ↦ ok (client, resp)
  ]
  typed tid (err e) = err e
  typed tid panic = panic

  -- A result that is given back as a value: a panic goes on.
  unfoldable pub hand_over {ℓ} : {E : Type ℓ} → Io (Client V × V) → Outcome E (Io (Client V × V))
  hand_over (ok a) = ok (ok a)
  hand_over (err e) = ok (err e)
  hand_over panic = panic

  -- `recv().unwrap()` and the `map`.
  unfoldable pub received : TypeId → Option (Connected V) → Io (Client V × V)
  unfolding typed
  received tid none = panic
  received tid (some r) = typed tid r

module _ {V : Type 0} (c : Channels (Connected V)) where
  open c use {Channel, bounded, send, drop_sender, is_ready, recv}

  -- `Client::new` gives the receiving end. Its thread sends what `new_blocking` gives, unless that
  -- panics, and then drops the sending end.
  unfoldable pub new : PendingClient Channel
  new = record { channel = bounded }

  unfoldable pub thread_sends : Connected V → Channel → Channel
  thread_sends (ok r) channel = send (ok r) channel
  thread_sends (err e) channel = send (err e) channel
  thread_sends panic channel = channel

  unfoldable pub done : PendingClient Channel → Bool
  done self = is_ready self.channel

  -- The error is `self`.
  unfoldable pub take :
      TypeId → PendingClient Channel → Outcome (PendingClient Channel) (Io (Client V × V))
  unfolding done hand_over received
  take tid self = if done self then hand_over (received tid (recv self.channel).1) else err self

  unfoldable pub block : TypeId → PendingClient Channel → Io (Client V × V)
  unfolding received
  block tid self = received tid (recv self.channel).1

  unfoldable pub option : PendingClient Channel → OptionPendingClient Channel
  option self = record { channel = some self.channel }

  unfoldable pub from : PendingClient Channel → OptionPendingClient Channel
  unfolding option
  from value = option value

  unfoldable pub display : PendingClient Channel → List ℕ
  unfolding done
  display self =
      bytes_of "Pending client connection ("
      ++ (if done self then bytes_of "done" else bytes_of "not done")
      ++ bytes_of ")."

  unfoldable pub option_done : OptionPendingClient Channel → Option Bool
  option_done self = elim self.channel [ none ↦ none | some channel ↦ some (is_ready channel) ]

  -- `channel.as_ref()`: the channel stays, without its message.
  unfoldable pub option_take :
      TypeId
      → OptionPendingClient Channel
      → OptionPendingClient Channel × Io (Option (Io (Client V × V)))
  unfolding hand_over received
  option_take tid self = elim self.channel [
    | none ↦ (self, ok none)
    | some channel ↦
        if is_ready channel
        then (
          record { channel = some (recv channel).0 },
          hand_over (received tid (recv channel).1) >>= λ r. ok (some r),
        )
        else (self, ok none)
  ]

  unfoldable pub option_block : TypeId → OptionPendingClient Channel → Option (Io (Client V × V))
  unfolding received
  option_block tid self = elim self.channel [
    | none ↦ none
    | some channel ↦ some (received tid (recv channel).1)
  ]

  unfoldable pub option_display : OptionPendingClient Channel → List ℕ
  unfolding option_done
  option_display self =
      bytes_of "Optional pending client connection ("
      ++ (elim (option_done self) [
        | none ↦ bytes_of "Already taken"
        | some true ↦ bytes_of "done"
        | some false ↦ bytes_of "not done"
      ])
      ++ bytes_of ")."
