-- ===== src/Server/Send/Datagrams.antt =====
-- To whom a server of src/server.rs sends a message that goes over UDP.
use mathlib.Core.List.{append_assoc, append-nil}
use carrier_pigeon.Base.{
  ℕ, ◌+◌, ◌≤◌, ◌≡◌, refl, ap, ◌∙◌, List, [], ◌∷◌, ◌++◌, Bool, true, none, some, ok, length, arith,
  All, filter_by, Bool-cases, Option-cases, inl, inr,
}
use carrier_pigeon.Base.HashMap
use carrier_pigeon.Net.{CId, MId, Any, udp}
use carrier_pigeon.Net.CIdSpec.{CIdSpec, matches}
use carrier_pigeon.Time.{Host}
use carrier_pigeon.Header.Udp as Header
use carrier_pigeon.Table.Parts.Codec.{encode}
use carrier_pigeon.Udp
use carrier_pigeon.Udp.{UdpCon}
use carrier_pigeon.Udp.Socket as Socket
use carrier_pigeon.Udp.Laws.{send_shared_fits}
use carrier_pigeon.Server.{Server, alive, cids}
use carrier_pigeon.Server.Send.{send_udp, send_over, send_to, send_each, go_on, send_spec}

abbrev pub datagram : Host → MId → List ℕ → List ℕ
datagram h mid b = Header.to_be_bytes (Header.new h mid) ++ b

-- A socket that works, with a buffer for the message.
abbrev pub Carries : UdpCon → List ℕ → Type 0
Carries con b = (con.udp.fault ≡ none) × (length b + 4 ≤ length con.buff)

-- One datagram to the address of each of the connections.
unfoldable pub addressed : HashMap.HashMap ℕ → List CId → List ℕ → List (ℕ × List ℕ)
addressed cid_addr [] bytes = []
addressed cid_addr (cid ∷ cids) bytes =
    let rest = addressed cid_addr cids bytes in
    elim (HashMap.get cid_addr cid) [ none ↦ rest | some addr ↦ (addr, bytes) ∷ rest ]

All-filter_by :
    (P : CId → Type 0) (p : CId → Bool) (cids : List CId) → All P cids → All P (filter_by p cids)
All-filter_by P p [] h = tt
All-filter_by P p (c ∷ cids) (x, h) = elim (Bool-cases (p c)) [
  | inl picked ↦ rw picked (x, All-filter_by P p cids h)
  | inr left ↦ rw left (All-filter_by P p cids h)
]

takes_it :
    (s : Socket.UdpSocket) (bytes : List ℕ) (addr : ℕ)
    → s.fault ≡ none
    → Socket.send_to s bytes addr
      ≡ (record s { sent = s.sent ++ (addr, bytes) ∷ [] }, ok (length bytes))
unfolding Socket.send_to
takes_it s bytes addr works = ground arith

module _ {V : Type 0} where
  -- The server after its socket took these datagrams.
  abbrev pub posted : Server V → List (ℕ × List ℕ) → Server V
  posted self out = record self {
    udp = record self.udp { udp = record self.udp.udp { sent = self.udp.udp.sent ++ out } };
  }

  send_to-posted :
      (h : Host) (self : Server V) (cid : CId) (msg : Any V) (mid : MId) (b : List ℕ) (addr : ℕ)
      → encode self.parts msg ≡ ok (mid, udp, b)
      → Carries self.udp b
      → HashMap.get self.cid_addr cid ≡ some addr
      → send_to h self cid msg ≡ (posted self ((addr, datagram h mid b) ∷ []), ok tt)
  unfolding send_to send_over send_udp Udp.send_to
  send_to-posted h self cid msg mid b addr e c held = rw (
    send_to,
    e,
    send_over,
    send_udp,
    held,
    Udp.send_to,
    send_shared_fits h self.udp mid b c.1,
    takes_it self.udp.udp _ addr c.0,
  )

  pub posted-posted :
      (self : Server V) (first second : List (ℕ × List ℕ))
      → posted (posted self first) second ≡ posted self (first ++ second)
  posted-posted self first second = rw (append_assoc self.udp.udp.sent first second) refl

  -- A loop over connections that are alive posts the message to the address of each, in order.
  send_each-posted :
      (h : Host) (self : Server V) (cids : List CId) (msg : Any V) (mid : MId) (b : List ℕ)
      → encode self.parts msg ≡ ok (mid, udp, b)
      → Carries self.udp b
      → All (λ c. alive self c ≡ true) cids
      → send_each h self cids msg
        ≡ (posted self (addressed self.cid_addr cids (datagram h mid b)), ok tt)
  unfolding send_each go_on addressed alive HashMap.contains_key
  send_each-posted h self [] msg mid b e c up = rw (append-nil self.udp.udp.sent) refl
  send_each-posted h self (cid ∷ cids) msg mid b e c (up, ups) =
      elim (Option-cases (HashMap.get self.cid_addr cid)) [
        | inl gone ↦ absurd (ground arith)
        | inr (addr, held) ↦
            let one = posted self ((addr, datagram h mid b) ∷ []) in
            let more = send_each-posted h one cids msg mid b e c ups in
            ap (λ r. go_on r (λ s. send_each h s cids msg))
              (send_to-posted h self cid msg mid b addr e c held)
            ∙ more
            ∙ ap (λ s. (s, ok tt))
                (posted-posted self _ _ ∙ ap (posted self) (rw (addressed, held) refl))
      ]

  -- A `send_spec` of a message that goes over UDP, with a socket that works and a buffer that it
  -- fits, where the connections of the walk are alive, succeeds: it posts one datagram to the
  -- address of each connection that matches, in the walk's order, and changes nothing else.
  pub send_spec-posted :
      (h : Host) (order : List CId → List CId) (self : Server V) (spec : CIdSpec) (msg : Any V)
      (mid : MId) (b : List ℕ)
      → encode self.parts msg ≡ ok (mid, udp, b)
      → Carries self.udp b
      → All (λ c. alive self c ≡ true) (cids order self)
      → send_spec h order self spec msg ≡ (
        posted self (
            addressed self.cid_addr
              (filter_by (matches spec) (cids order self))
              (datagram h mid b)),
        ok tt,
      )
  unfolding send_spec
  send_spec-posted h order self spec msg mid b e c up =
      send_each-posted h self (filter_by (matches spec) (cids order self)) msg mid b e c
        (All-filter_by _ (matches spec) (cids order self) up)
