-- ===== src/Chat/ServerLoop/Laws.antt =====
-- What the chatroom's server of examples/server.rs does with what is said.
use carrier_pigeon.Base.{
  ℕ, ◌≡◌, ◌==◌, sym, ap, List, [], ◌∷◌, ◌++◌, map, true, not, ok, if◌then◌else◌, All, filter_by,
  Bool-cases, inl, inr,
}
use carrier_pigeon.Base.HashMap.{HashMap}
use mathlib.Core.List.{append-nil}
use carrier_pigeon.Net.{CId, MId, udp}
use carrier_pigeon.Net.CIdSpec.{except, matches}
use carrier_pigeon.Net.Msg.{NetMsg}
use carrier_pigeon.Time.{Host}
use carrier_pigeon.Table.Parts.Codec.{encode}
use carrier_pigeon.Server.{Server, alive, cids}
use carrier_pigeon.Server.Send.Datagrams.{
  Carries, posted, posted-posted, addressed, datagram, send_spec-posted,
}
use carrier_pigeon.Chat.{Values}
use carrier_pigeon.Chat.ServerLoop.{relay, asks_to_leave}

module _ {V : Type 0} (v : Values V) (h : Host) (order : List CId → List CId) where
  -- A message that has come, and can be sent on.
  abbrev pub Relayed : Server V → MId → (NetMsg V → List ℕ) → NetMsg V → Type 0
  Relayed self mid bytes m =
      (encode self.parts (record { tid = v.msg_tid; value = m.m }) ≡ ok (mid, udp, bytes m))
      × Carries self.udp (bytes m)

  -- The datagrams that are to go out: for each message but a request to leave, in order, one to
  -- each connection but the sender's.
  unfoldable pub outgoing :
      HashMap ℕ → List CId → MId → (NetMsg V → List ℕ) → List (NetMsg V) → List (ℕ × List ℕ)
  outgoing cid_addr walk mid bytes [] = []
  outgoing cid_addr walk mid bytes (m ∷ msgs) =
      let rest = outgoing cid_addr walk mid bytes msgs in
      let others = filter_by (λ c. not (c == m.cid)) walk in
      if asks_to_leave v m
      then rest
      else (addressed cid_addr others (datagram h mid (bytes m)) ++ rest)

  -- Where each message can be sent on and the connections of the walk are alive, the relay succeeds:
  -- each message but `disconnect-me` goes, in order, as one datagram to each connection but its
  -- sender's, and the senders of `disconnect-me` are to be disconnected, in order.
  pub relay-outgoing :
      (self : Server V) (mid : MId) (bytes : NetMsg V → List ℕ) (msgs : List (NetMsg V))
      → All (Relayed self mid bytes) msgs
      → All (λ c. alive self c ≡ true) (cids order self)
      → relay v h order self msgs
        ≡ ok (
          posted self (outgoing self.cid_addr (cids order self) mid bytes msgs),
          map (λ m. m.cid) (filter_by (asks_to_leave v) msgs),
        )
  unfolding relay outgoing matches cids alive
  relay-outgoing self mid bytes [] can up =
      ap
        (λ sent.
          ok (
            record self { udp = record self.udp { udp = record self.udp.udp { sent = sent } } },
            [],
          ))
        (sym (append-nil self.udp.udp.sent))
  relay-outgoing self mid bytes (m ∷ msgs) (c, can) up = elim (Bool-cases (asks_to_leave v m)) [
    | inl quits ↦ rw (relay, quits, relay-outgoing self mid bytes msgs can up, outgoing)
    | inr talks ↦
        let others = filter_by (λ c. not (c == m.cid)) (cids order self) in
        let out = addressed self.cid_addr others (datagram h mid (bytes m)) in
        let sent = send_spec-posted h order self (except m.cid) _ mid (bytes m) c.0 c.1 up in
        let more = relay-outgoing (posted self out) mid bytes msgs can up in
        rw (relay, talks, sent, more, outgoing)
          (ap (λ s. ok (s, map (λ m. m.cid) (filter_by (asks_to_leave v) msgs)))
            (posted-posted self out _))
  ]
