-- ===== src/Chat/ServerLoop/Leaving.antt =====
-- Clients that ask the chatroom's server of examples/server.rs to disconnect them.
use carrier_pigeon.Base.{
  ◌≡◌, ◌⊎◌, refl, ap, ◌∙◌, List, [], ◌∷◌, ◌++◌, map, true, ok, panic, ◌>>=◌, filter_by, ℕ,
  Bool-cases, Outcome-cases, inl, inr,
}
use carrier_pigeon.Net.{CId, MId, tcp}
use carrier_pigeon.Net.CIdSpec.{except}
use carrier_pigeon.Net.Msg.{NetMsg}
use carrier_pigeon.Time.{Host}
use carrier_pigeon.Table.Parts.Codec.{encode}
use carrier_pigeon.Server.{Server}
use carrier_pigeon.Server.Send.{disconnect, send_spec}
use carrier_pigeon.Server.Send.Shut.{IsShut, disconnect-Shuts}
use carrier_pigeon.Server.Typed.Sent.{send_spec-Same}
use carrier_pigeon.Chat.{Values, any_disconnect}
use carrier_pigeon.Chat.ServerLoop.{disconnect_each, goodbye, relay, asks_to_leave}

module _ {V : Type 0} (v : Values V) (h : Host) where
  -- The message of the server is of a type that goes over TCP.
  abbrev Says : Server V → MId → List ℕ → Type 0
  Says self mid bytes = encode self.parts (any_disconnect v goodbye) ≡ ok (mid, tcp, bytes)

  -- The server after one client was disconnected.
  abbrev without : Server V → CId → Server V
  without self cid = (disconnect h self (any_disconnect v goodbye) cid).0

  -- A round of the loop panics, or goes on after a `disconnect` that succeeded.
  each-cases :
      (self : Server V) (cid : CId) (rest : List CId)
      → ((disconnect h self (any_disconnect v goodbye) cid).1 ≡ ok tt
          → disconnect_each v h (disconnect h self (any_disconnect v goodbye) cid).0 rest ≡ panic)
      → disconnect_each v h self (cid ∷ rest) ≡ panic
  unfolding disconnect_each
  each-cases self cid rest on =
      elim (Outcome-cases (disconnect h self (any_disconnect v goodbye) cid).1) [
        | inl (u, q) ↦ rw (disconnect_each, q) (on q)
        | inr (inl (e, q)) ↦ rw (disconnect_each, q) refl
        | inr (inr q) ↦ rw (disconnect_each, q) refl
      ]

  -- Where the stream of a client is shut down already.
  shut-panics :
      (self : Server V) (before : List CId) (cid : CId) (after : List CId) (mid : MId)
      (bytes : List ℕ)
      → Says self mid bytes
      → IsShut self cid
      → disconnect_each v h self (before ++ cid ∷ after) ≡ panic
  shut-panics self [] cid after mid bytes e shut = each-cases self cid after (λ good.
      let (_, fresh) = disconnect-Shuts h self (any_disconnect v goodbye) cid mid bytes e good in
      absurd (fresh shut))
  shut-panics self (c ∷ before) cid after mid bytes e shut =
      each-cases self c (before ++ cid ∷ after) (λ good.
        let (s, _) = disconnect-Shuts h self (any_disconnect v goodbye) c mid bytes e good in
        shut-panics (without self c) before cid after mid bytes
          (ap (λ p. encode p (any_disconnect v goodbye)) s.same_parts ∙ e) (s.still cid shut))

  -- Where a client is on the list twice.
  twice-panics :
      (self : Server V) (before : List CId) (cid : CId) (between after : List CId) (mid : MId)
      (bytes : List ℕ)
      → Says self mid bytes
      → disconnect_each v h self (before ++ cid ∷ (between ++ cid ∷ after)) ≡ panic
  twice-panics self [] cid between after mid bytes e =
      each-cases self cid (between ++ cid ∷ after) (λ good.
        let (s, _) = disconnect-Shuts h self (any_disconnect v goodbye) cid mid bytes e good in
        shut-panics (without self cid) between cid after mid bytes
          (ap (λ p. encode p (any_disconnect v goodbye)) s.same_parts ∙ e) s.shut)
  twice-panics self (c ∷ before) cid between after mid bytes e =
      each-cases self c (before ++ cid ∷ (between ++ cid ∷ after)) (λ good.
        let (s, _) = disconnect-Shuts h self (any_disconnect v goodbye) c mid bytes e good in
        twice-panics (without self c) before cid between after mid bytes
          (ap (λ p. encode p (any_disconnect v goodbye)) s.same_parts ∙ e))

  -- The clients that ask to leave, in the order of their messages.
  abbrev leavers : List (NetMsg V) → List CId
  leavers msgs = map (λ m. m.cid) (filter_by (asks_to_leave v) msgs)

  leavers-append :
      (before : List (NetMsg V)) (m : NetMsg V) (after : List (NetMsg V))
      → asks_to_leave v m ≡ true
      → leavers (before ++ m ∷ after) ≡ leavers before ++ m.cid ∷ leavers after
  leavers-append [] m after asks = rw asks refl
  leavers-append (x ∷ before) m after asks = elim (Bool-cases (asks_to_leave v x)) [
    | inl too ↦ rw too (ap (λ l. x.cid ∷ l) (leavers-append before m after asks))
    | inr talks ↦ rw talks (leavers-append before m after asks)
  ]

  module _ (order : List CId → List CId) where
    -- The relay panics, or keeps the table and gives those that ask to leave.
    relay_cases :
        (self : Server V) (msgs : List (NetMsg V))
        → (relay v h order self msgs ≡ panic)
          ⊎ ((s : Server V) × (relay v h order self msgs ≡ ok (s, leavers msgs))
              × (s.parts ≡ self.parts))
    unfolding relay
    relay_cases self [] = inr (self, refl, refl)
    relay_cases self (m ∷ msgs) =
        let sent =
          send_spec h order self (except m.cid) (record { tid = v.msg_tid; value = m.m }) in
        elim (Bool-cases (asks_to_leave v m)) [
          | inl quits ↦ elim (relay_cases self msgs) [
            | inl bad ↦ inl (rw (relay, quits, bad) refl)
            | inr (s, e, same) ↦ inr (s, rw (relay, quits, e) refl, same)
          ]
          | inr talks ↦ elim (Outcome-cases sent.1) [
            | inl (u, q) ↦ elim (relay_cases sent.0 msgs) [
              | inl bad ↦ inl (rw (relay, talks, q, bad) refl)
              | inr (s, e, same) ↦ inr (
                s,
                rw (relay, talks, q, e) refl,
                same ∙ (send_spec-Same h order self (except m.cid) _).parts,
              )
            ]
            | inr (inl (x, q)) ↦ inl (rw (relay, talks, q) refl)
            | inr (inr q) ↦ inl (rw (relay, talks, q) refl)
          ]
        ]

    -- Where two of the messages of a turn are requests to leave from the same client, whatever the
    -- other messages are and wherever the two stand, the loop over the messages and the loop over
    -- those that asked to leave end in a panic. The disconnection message is registered for TCP.
    pub leaves_twice-panics :
        (self : Server V) (before : List (NetMsg V)) (m : NetMsg V) (between : List (NetMsg V))
        (n : NetMsg V) (after : List (NetMsg V)) (mid : MId) (bytes : List ℕ)
        → asks_to_leave v m ≡ true
        → asks_to_leave v n ≡ true
        → n.cid ≡ m.cid
        → encode self.parts (any_disconnect v goodbye) ≡ ok (mid, tcp, bytes)
        → (relay v h order self (before ++ m ∷ (between ++ n ∷ after)) >>= λ r.
            disconnect_each v h r.0 r.1)
          ≡ panic
    leaves_twice-panics self before m between n after mid bytes asks again same e =
        let listed : leavers (before ++ m ∷ (between ++ n ∷ after))
            ≡ leavers before ++ m.cid ∷ (leavers between ++ m.cid ∷ leavers after) =
          leavers-append before m (between ++ n ∷ after) asks
          ∙ ap (λ l. leavers before ++ m.cid ∷ l)
              (leavers-append between n after again
                ∙ ap (λ c. leavers between ++ c ∷ leavers after) same) in
        elim (relay_cases self (before ++ m ∷ (between ++ n ∷ after))) [
          | inl bad ↦ rw bad refl
          | inr (s, relayed, kept) ↦
              ap (λ r. r >>= λ r. disconnect_each v h r.0 r.1) relayed
              ∙ ap (disconnect_each v h s) listed
              ∙ twice-panics s (leavers before) m.cid (leavers between) (leavers after) mid bytes
                  (ap (λ p. encode p (any_disconnect v goodbye)) kept ∙ e)
        ]
