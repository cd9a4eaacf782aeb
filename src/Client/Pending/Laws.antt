-- ===== src/Client/Pending/Laws.antt =====
-- What a pending client of src/client.rs gives, and when.
use carrier_pigeon.Base.{
  ◌≡◌, ◌≢◌, refl, ◌∙◌, ap, ◌⊎◌, inl, inr, Bool, true, false, Option, none, some, ok, err, panic,
  ◌>>=◌, arith,
}
use carrier_pigeon.Net.{TypeId}
use carrier_pigeon.Client.Pending.{
  Channels, Connected, PendingClient, typed, hand_over, received, new, thread_sends, done, take,
  block, option, option_done, option_take,
}

module _ {V : Type 0} (c : Channels (Connected V)) where
  open c use {Channel, bounded, send, drop_sender, is_ready, recv, view}

  -- The channel once the thread has sent `r`, and once the thread has ended.
  abbrev pub Sent : Connected V → Channel → Type 0
  Sent r channel =
      ((r ≢ panic) × (channel ≡ thread_sends c r bounded))
      ⊎ (channel ≡ drop_sender (thread_sends c r bounded))

  -- The message that the thread leaves, which is none if it panicked.
  abbrev message : Connected V → Option (Connected V)
  message (ok r) = some (ok r)
  message (err e) = some (err e)
  message panic = none

  view-thread_sends : (r : Connected V) → view (thread_sends c r bounded) ≡ (message r, true)
  unfolding thread_sends
  view-thread_sends (ok r) = ground (arith, c.view-send (ok r) bounded, c.view-bounded)
  view-thread_sends (err e) = ground (arith, c.view-send (err e) bounded, c.view-bounded)
  view-thread_sends panic = c.view-bounded

  received-message : (tid : TypeId) (r : Connected V) → received tid (message r) ≡ typed tid r
  unfolding received typed
  received-message tid (ok r) = refl
  received-message tid (err e) = refl
  received-message tid panic = refl

  ready_of :
      (channel : Channel) (m : Option (Connected V)) (alive : Bool)
      → view channel ≡ (m, alive)
      → (m ≢ none) ⊎ (alive ≡ false)
      → is_ready channel ≡ true
  ready_of channel none alive e (inl h) = absurd (h refl)
  ready_of channel none alive e (inr h) = ground (arith, c.is_ready_lem channel, e, h)
  ready_of channel (some r) alive e h = ground (arith, c.is_ready_lem channel, e)

  message-ne-none : (r : Connected V) → r ≢ panic → message r ≢ none
  message-ne-none (ok r) h = cc
  message-ne-none (err e) h = cc
  message-ne-none panic h = absurd (h refl)

  ended-view :
      (r : Connected V) → view (drop_sender (thread_sends c r bounded)) ≡ (message r, false)
  ended-view r =
      c.view-drop_sender (thread_sends c r bounded) ∙ ap (λ v. (v.0, false)) (view-thread_sends r)

  Sent-ready :
      (r : Connected V) (channel : Channel)
      → Sent r channel
      → (is_ready channel ≡ true) × ((recv channel).1 ≡ message r)
  Sent-ready r channel (inl (sound, e)) =
      let seen = ap view e ∙ view-thread_sends r in
      let ready = ready_of channel (message r) true seen (inl (message-ne-none r sound)) in
      (ready, c.recv_lem channel ready ∙ ap (λ v. v.0) seen)
  Sent-ready r channel (inr e) =
      let seen = ap view e ∙ ended-view r in
      let ready = ready_of channel (message r) false seen (inr refl) in
      (ready, c.recv_lem channel ready ∙ ap (λ v. v.0) seen)

  -- Before the thread of `Client::new` has sent, a pending client is not done, and `take` gives it
  -- back. Once the thread has sent or has ended, the client is done, and both `take` and `block`
  -- give what `new_blocking` gave, with the response as an `R`, and panic where that panicked.
  pub pending_hands_over :
      (tid : TypeId) (r : Connected V) (channel : Channel)
      → Sent r channel
      → (done c (new c) ≡ false)
        × (take c tid (new c) ≡ err (new c))
        × (done c (record { channel = channel }) ≡ true)
        × (take c tid (record { channel = channel }) ≡ hand_over (typed tid r))
        × (block c tid (record { channel = channel }) ≡ typed tid r)
  unfolding done take block new
  pending_hands_over tid r channel s =
      let (ready, came) = Sent-ready r channel s in
      let waits : is_ready bounded ≡ false =
        ground (arith, c.is_ready_lem bounded, c.view-bounded) in
      let gives = ap (received tid) came ∙ received-message tid r in
      (waits, rw waits, ready, rw ready (ap hand_over gives), gives)

  -- Once the thread has ended, the first `take` of an optional pending client gives what
  -- `new_blocking` gave. It still says that it is done, and the second `take` panics.
  pub option_take_twice-panics :
      (tid : TypeId) (r : Connected V)
      → let ended : PendingClient Channel = record {
        channel = drop_sender (thread_sends c r bounded);
      } in
        let first = option_take c tid (option c ended) in
        (first.1 ≡ (hand_over (typed tid r) >>= λ a. ok (some a)))
        × (option_done c first.0 ≡ some true)
        × ((option_take c tid first.0).1 ≡ panic)
  unfolding option_take option option_done received hand_over
  option_take_twice-panics tid r =
      let channel = drop_sender (thread_sends c r bounded) in
      let (ready, came) = Sent-ready r channel (inr refl) in
      let left = c.view-recv channel ∙ ap (λ v. (none, v.1)) (ended-view r) in
      let ready' = ready_of (recv channel).0 none false left (inr refl) in
      let came' = c.recv_lem (recv channel).0 ready' ∙ ap (λ v. v.0) left in
      let gives = ap (received tid) came ∙ received-message tid r in
      let fails : received tid (recv (recv channel).0).1 ≡ panic = ap (received tid) came' in
      (
        rw ready (ap (λ o. hand_over o >>= λ a. ok (some a)) gives),
        rw ready (ap some ready'),
        rw (ready, ready') (ap (λ o. hand_over o >>= λ a. ok (some a)) fails),
      )
