-- ===== src/Client/Pending/Tests.antt =====
-- A pending client of src/client.rs over a channel that is a pair.
use carrier_pigeon.Base.{
  ◌≡◌, refl, Bool, true, false, not, Option, none, some, ok, err, panic, inr, ◌>>=◌, [],
}
use carrier_pigeon.Base.Text.{bytes_of}
use carrier_pigeon.Client.Pending.{
  Channels, Connected, PendingClient, typed, hand_over, new, thread_sends, done, take, block,
  option, option_done, option_take, display,
}
use carrier_pigeon.Client.Pending.Laws.{pending_hands_over, option_take_twice-panics}
use carrier_pigeon.Samples.{Bytes, client, message}

abbrev pair_ready : Option (Connected Bytes) × Bool → Bool
pair_ready c = elim c.0 [ none ↦ not c.1 | some a ↦ true ]

-- The message, and whether the sender is there.
abbrev pairs : Channels (Connected Bytes)
pairs = record {
  Channel = Option (Connected Bytes) × Bool;
  bounded = (none, true);
  send = λ a c. (some a, c.1);
  drop_sender = λ c. (c.0, false);
  is_ready = pair_ready;
  recv = λ c. ((none, c.1), c.0);
  view = λ c. c;
  view-bounded = refl;
  view-send = λ a c e. refl;
  view-drop_sender = λ c. refl;
  is_ready_lem = λ c. refl;
  view-recv = λ c. refl;
  recv_lem = λ c e. refl;
}

abbrev accepted : Connected Bytes
accepted = ok (client [] [], message)

abbrev ended : PendingClient pairs.Channel
ended = record { channel = (some accepted, false) }

pending_hands_over_example :
    (done pairs (new pairs) ≡ false)
    × (take pairs 20 (new pairs) ≡ err (new pairs))
    × (done pairs ended ≡ true)
    × (take pairs 20 ended ≡ hand_over (typed 20 accepted))
    × (block pairs 20 ended ≡ typed 20 accepted)
unfolding thread_sends
pending_hands_over_example = pending_hands_over pairs 20 accepted (some accepted, false) (inr refl)

option_take_twice-panics_example :
    let ended : PendingClient pairs.Channel = record {
      channel = pairs.drop_sender (thread_sends pairs accepted pairs.bounded);
    } in
    let first = option_take pairs 20 (option pairs ended) in
    (first.1 ≡ (hand_over (typed 20 accepted) >>= λ a. ok (some a)))
    × (option_done pairs first.0 ≡ some true)
    × ((option_take pairs 20 first.0).1 ≡ panic)
option_take_twice-panics_example = option_take_twice-panics pairs 20 accepted

display-new : display pairs (new pairs) ≡ bytes_of "Pending client connection (not done)."
unfolding display new
display-new = refl
