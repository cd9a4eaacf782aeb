-- ===== src/Server/Receive/Datagram.antt =====
-- A message that a client of src/client.rs sends over UDP, at a server of src/server.rs.
use carrier_pigeon.Base.{
  ℕ, ◌+◌, ◌^◌, ◌≤◌, ◌<◌, ◌≡◌, ◌⊎◌, ap, ◌∙◌, List, [], ◌∷◌, ◌++◌, map, true, false, some, ok, length,
  arith, Option-cases, Outcome-cases, inl, inr,
}
use carrier_pigeon.Base.HashMap
use carrier_pigeon.Net.{CId, MId, Any, udp}
use carrier_pigeon.Time.{Host, unix_millis}
use carrier_pigeon.Table.{Bincode, RoundTrips, Entry}
use carrier_pigeon.Table.Parts.Index.{IsIndexOf}
use carrier_pigeon.Table.Parts.Codec.{encode, decode}
use carrier_pigeon.Table.Parts.Roundtrip.{Coded, decode-encode}
use carrier_pigeon.Udp
use carrier_pigeon.Udp.{UdpCon, send_shared}
use carrier_pigeon.Udp.Socket as Socket
use carrier_pigeon.Udp.Laws.{datagram_round_trip}
use carrier_pigeon.Client as Client
use carrier_pigeon.Client.{Client}
use carrier_pigeon.Server.{Server, alive}
use carrier_pigeon.Server.Receive.{recv_udp, from_addr}

-- A send that succeeds puts its datagram on the socket.
send-sent :
    (h : Host) (con con' : UdpCon) (mid : MId) (b : List ℕ)
    → Udp.send h con mid b ≡ (con', ok tt)
    → (datagram : List ℕ) × (to : ℕ) × (send_shared h con mid b ≡ ok datagram)
      × (con'.udp.sent ≡ con.udp.sent ++ (to, datagram) ∷ [])
unfolding Udp.send Socket.send Socket.send_to
send-sent h con con' mid b e = elim (Outcome-cases (send_shared h con mid b)) [
  | inl (datagram, q) ↦ elim (Outcome-cases con.udp.peer_addr) [
    | inl (to, known) ↦ elim (Option-cases con.udp.fault) [
      | inl works ↦ (datagram, to, q, ground (arith, e))
      | inr (x, broken) ↦ absurd (ground (arith, e))
    ]
    | inr (inl (x, known)) ↦ absurd (ground (arith, e))
    | inr (inr known) ↦ absurd (ground (arith, e))
  ]
  | inr (inl (x, q)) ↦ absurd (ground (arith, e))
  | inr (inr q) ↦ absurd (ground (arith, e))
]

module _ {V : Type 0} where
  -- The datagram that a UDP `send` of a client puts on its socket.
  client_datagram :
      (h : Host) (self z : Client V) (msg : Any V) (mid : MId) (b : List ℕ)
      → encode self.parts msg ≡ ok (mid, udp, b)
      → Client.send h self msg ≡ (z, ok tt)
      → (datagram : List ℕ) × (to : ℕ) × (send_shared h self.udp mid b ≡ ok datagram)
        × (z.udp.udp.sent ≡ self.udp.udp.sent ++ (to, datagram) ∷ [])
  unfolding Client.send Client.send_over Client.send_udp
  client_datagram h self z msg mid b e sent =
      send-sent h self.udp z.udp mid b
        (ap (λ r. (r.0.udp, r.1)) (rw (Client.send, e, Client.send_over, Client.send_udp) at sent))

  recv_udp-message :
      (h : Host) (self : Server V) (cid : CId) (from time : ℕ) (mid : MId) (b : List ℕ)
      (msg : Any V)
      → (Udp.recv_from h self.udp).1 ≡ ok (from, mid, time, b)
      → decode self.parts mid b ≡ ok msg
      → HashMap.get self.addr_cid from ≡ some cid
      → alive self cid ≡ true
      → (recv_udp h self).1 ≡ ok (mid, record { cid = cid; time = some time; msg = msg })
  unfolding recv_udp from_addr
  recv_udp-message h self cid from time mid b msg got d known up =
      rw (recv_udp, got, d, from_addr, known, up)

  -- A message that a client sends over UDP, the first on its socket, comes out at a server with the
  -- same table as that message, under the `CId` of the address that it came from and with the
  -- sender's clock: if the codec reads back what it writes, the number has 16 bits, the server's
  -- buffer is no smaller than the client's, the message took less than 2 ^ 16 ms, and the build wraps
  -- or the server's clock has its upper half above zero.
  pub datagram_delivery :
      (bin : Bincode V) (h : Host) (sent_at : ℕ) (client z : Client V) (server : Server V)
      (cid : CId) (from : ℕ) (es : List (Entry V)) (msg : Any V) (mid : MId) (b : List ℕ)
      (rest : List Socket.Packet)
      → RoundTrips bin
      → IsIndexOf client.parts es
      → Coded bin es
      → server.parts ≡ client.parts
      → encode client.parts msg ≡ ok (mid, udp, b)
      → client.udp.udp.sent ≡ []
      → Client.send (record h { millis = sent_at }) client msg ≡ (z, ok tt)
      → server.udp.udp.inbox ≡ map (λ d. ok (from, d.1)) z.udp.udp.sent ++ rest
      → HashMap.get server.addr_cid from ≡ some cid
      → alive server cid ≡ true
      → mid < 2 ^ 16
      → length client.udp.buff ≤ length server.udp.buff
      → sent_at ≤ h.millis
      → h.millis < sent_at + 2 ^ 16
      → (h.overflow_checks ≡ false) ⊎ (2 ^ 16 ≤ unix_millis h)
      → (recv_udp h server).1
        ≡ ok (
          mid,
          record {
            cid = cid;
            time = some (unix_millis (record h { millis = sent_at }));
            msg = msg;
          },
        )
  datagram_delivery bin h sent_at client z server cid from es msg mid b rest codec i coded same e
        fresh sent come known up small room past near safe =
      let past_host : Host = record h { millis = sent_at } in
      let (datagram, to, out, posted) = client_datagram past_host client z msg mid b e sent in
      let alone = posted ∙ ap (λ s. s ++ (to, datagram) ∷ []) fresh in
      recv_udp-message h server cid from _ mid b msg
        (datagram_round_trip h sent_at client.udp server.udp from mid b datagram rest out
          (come ∙ ap (λ s. map (λ d. ok (from, d.1)) s ++ rest) alone) small room past near safe)
        (ap (λ p. decode p mid b) same
          ∙ decode-encode bin client.parts es msg mid udp b codec i coded e)
        known up
