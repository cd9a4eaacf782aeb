-- ===== src/Udp/Laws.antt =====
-- Datagrams of src/udp.rs.
use carrier_pigeon.Base.{
  ℕ, ◌+◌, ◌^◌, ◌≤◌, ◌<◌, ◌≡◌, ◌≢◌, refl, ap, ◌⊎◌, false, List, [], ◌∷◌, ◌++◌, ok, err, ◌>>=◌, panic,
  length, take, drop, arith, ErrorKind, Outcome-cases, inl, inr, take-all, length-append,
  take-append,
}
use carrier_pigeon.Base.Results.{would_block}
use carrier_pigeon.Base.Buffer.{overwrite, write_at-frame}
use carrier_pigeon.Net.{MId}
use carrier_pigeon.Time.{Host, unix_millis, reconstruct_millis}
use carrier_pigeon.Header.Udp as Header
use carrier_pigeon.Header.Laws.{udp_from-to_be_bytes}
use carrier_pigeon.Udp.Socket as Socket
use carrier_pigeon.Udp.Socket.{UdpSocket}
use carrier_pigeon.Udp.{UdpCon, send_shared, recv_shared, received, recv_from, recv}

-- A message that fits the sender's buffer is a datagram of its header and payload.
pub send_shared_fits :
    (h : Host) (self : UdpCon) (mid : MId) (payload : List ℕ)
    → length payload + 4 ≤ length self.buff
    → send_shared h self mid payload ≡ ok (Header.to_be_bytes (Header.new h mid) ++ payload)
unfolding send_shared Header.to_be_bytes
send_shared_fits h self mid payload room =
    ground (arith, write_at-frame 0 (Header.to_be_bytes (Header.new h mid)) payload)

-- Reading a header gives a header or panics.
from_be_bytes-ne-err :
    (h : Host) (bytes : List ℕ) (e : ErrorKind) → Header.from_be_bytes h bytes ≢ err e
unfolding Header.from_be_bytes reconstruct_millis
from_be_bytes-ne-err h bytes e = ground arith

pub recv_shared_runt :
    (h : Host) (self : UdpCon) (n : ℕ) → 0 < n → n < 4 → recv_shared h self n ≡ panic
unfolding recv_shared
recv_shared_runt h self n some_ runt =
    elim (Outcome-cases (Header.from_be_bytes h (take 4 self.buff))) [
      | inl (header, q) ↦ ground arith
      | inr (inl (e, q)) ↦ absurd (from_be_bytes-ne-err h _ e q)
      | inr (inr q) ↦ ground arith
    ]

-- What `recv_from` makes of the datagram that is next.
recv_from_next :
    (h : Host) (self : UdpCon) (from : ℕ) (bytes : List ℕ) (rest : List Socket.Packet)
    → self.udp.inbox ≡ ok (from, bytes) ∷ rest
    → length bytes ≤ length self.buff
    → recv_from h self ≡ received h self (record self.udp { inbox = rest }, ok (from, bytes))
unfolding recv_from Socket.recv_from
recv_from_next h self from bytes rest come room =
    ground (arith, take-all (length self.buff) bytes room)

-- A datagram of one to three bytes that the buffer holds makes `recv_from` panic, whoever sent it.
recv_from_runt :
    (h : Host) (self : UdpCon) (from : ℕ) (bytes : List ℕ) (rest : List Socket.Packet)
    → self.udp.inbox ≡ ok (from, bytes) ∷ rest
    → 0 < length bytes
    → length bytes < 4
    → length bytes ≤ length self.buff
    → (recv_from h self).1 ≡ panic
unfolding received
recv_from_runt h self from bytes rest come some_ runt room =
    rw (recv_from_next h self from bytes rest come room) (
      rw (
        recv_shared_runt h
          (record { buff = overwrite bytes self.buff; udp = record self.udp { inbox = rest } })
          (length bytes) some_ runt))

send_shared-ok :
    (h : Host) (self : UdpCon) (mid : MId) (payload datagram : List ℕ)
    → send_shared h self mid payload ≡ ok datagram
    → (length payload + 4 ≤ length self.buff)
      × (datagram ≡ Header.to_be_bytes (Header.new h mid) ++ payload)
unfolding send_shared
send_shared-ok h self mid payload datagram out =
    (ground arith, ground (arith, send_shared_fits h self mid payload))

-- A buffer that begins with a header and a payload is read as they are.
pub recv_shared_reads :
    (h : Host) (self : UdpCon) (mid time a b c d : ℕ) (payload tail : List ℕ)
    → self.buff ≡ (a ∷ b ∷ c ∷ d ∷ payload) ++ tail
    → Header.from_be_bytes h (a ∷ b ∷ c ∷ d ∷ []) ≡ ok (record { mid = mid; time = time })
    → recv_shared h self (length (a ∷ b ∷ c ∷ d ∷ payload)) ≡ ok (mid, time, payload)
unfolding recv_shared
recv_shared_reads h self mid time a b c d payload tail start header =
    ground (arith, take-append payload tail, length-append payload tail)

-- What was sent less than 2 ^ 16 ms ago is received with its number, if that has 16 bits, its
-- payload and the sender's clock, where the receiver's buffer is no smaller than the sender's, and
-- the build wraps or the receiver's clock has its upper half above zero.
pub datagram_round_trip :
    (h : Host) (sent : ℕ) (a b : UdpCon) (from : ℕ) (mid : MId) (payload datagram : List ℕ)
    (rest : List Socket.Packet)
    → send_shared (record h { millis = sent }) a mid payload ≡ ok datagram
    → b.udp.inbox ≡ ok (from, datagram) ∷ rest
    → mid < 2 ^ 16
    → length a.buff ≤ length b.buff
    → sent ≤ h.millis
    → h.millis < sent + 2 ^ 16
    → (h.overflow_checks ≡ false) ⊎ (2 ^ 16 ≤ unix_millis h)
    → (recv_from h b).1 ≡ ok (from, mid, unix_millis (record h { millis = sent }), payload)
unfolding received Header.to_be_bytes Header.new
datagram_round_trip h sent a b from mid payload datagram rest out come small room past near safe =
    let past_host : Host = record h { millis = sent } in
    let head = Header.to_be_bytes (Header.new past_host mid) in
    let facts = send_shared-ok past_host a mid payload datagram out in
    let size = ap length facts.1 in
    rw (recv_from_next h b from datagram rest come (omega (arith, size, facts.0))) (
      rw facts.1 (
        ap (λ message. message >>= λ m. ok (from, m.0, m.1, m.2))
          (recv_shared_reads h
            (record {
              buff = overwrite (head ++ payload) b.buff;
              udp = record b.udp { inbox = rest };
            })
            mid (unix_millis past_host) _ _ _ _ payload (drop (length (head ++ payload)) b.buff)
            refl (udp_from-to_be_bytes h sent mid small past near safe))))

-- A call of `recv` takes the next datagram or error off the socket, or there was none.
pub recv_takes :
    (h : Host) (self : UdpCon)
    → ((recv h self).1 ≡ err would_block)
      ⊎ (length (recv h self).0.udp.inbox < length self.udp.inbox)
unfolding recv received Socket.recv_from
recv_takes h self = takes self.udp.inbox refl
  where
    takes :
        (packets : List Socket.Packet)
        → self.udp.inbox ≡ packets
        → ((recv h self).1 ≡ err would_block)
          ⊎ (length (recv h self).0.udp.inbox < length self.udp.inbox)
    takes [] e = inl (ground arith)
    takes (ok (from, bytes) ∷ rest) e = inr (ground arith)
    takes (err x ∷ rest) e = inr (ground arith)
    takes (panic ∷ rest) e = inr (ground arith)

-- A call of `recv_from` takes the next datagram or error off the socket, or there was none.
pub recv_from_takes :
    (h : Host) (self : UdpCon)
    → ((recv_from h self).1 ≡ err would_block)
      ⊎ (length (recv_from h self).0.udp.inbox < length self.udp.inbox)
unfolding recv_from received Socket.recv_from
recv_from_takes h self = takes self.udp.inbox refl
  where
    takes :
        (packets : List Socket.Packet)
        → self.udp.inbox ≡ packets
        → ((recv_from h self).1 ≡ err would_block)
          ⊎ (length (recv_from h self).0.udp.inbox < length self.udp.inbox)
    takes [] e = inl (ground arith)
    takes (ok (from, bytes) ∷ rest) e = inr (ground arith)
    takes (err x ∷ rest) e = inr (ground arith)
    takes (panic ∷ rest) e = inr (ground arith)
