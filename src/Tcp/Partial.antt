-- ===== src/Tcp/Partial.antt =====
-- What `recv` of src/tcp.rs does when a message has not come whole.
use carrier_pigeon.Base.{
  ℕ, ◌+◌, ◌-◌, ◌^◌, ◌≤◌, ◌<◌, ◌≡◌, refl, sym, ◌∙◌, ap, ◌⊎◌, true, false, List, [], ◌∷◌, ◌++◌, none,
  ok, err, length, take, arith, length-append, take-append_le,
}
use carrier_pigeon.Base.Results.{would_block, connection_aborted, invalid_data}
use carrier_pigeon.Base.Buffer.{overwrite, length-overwrite}
use carrier_pigeon.Net.{MId}
use carrier_pigeon.Header.Tcp as Header
use carrier_pigeon.Header.Tcp.{TcpHeader}
use carrier_pigeon.Tcp.Stream.{TcpStream, peek, read_exact, shutdown}
use carrier_pigeon.Tcp.{TcpCon, frame, recv, recv_message, max_msg_size}
use carrier_pigeon.Tcp.Send.{length-frame, frame-append}
use carrier_pigeon.Tcp.Recv.{recv_peeked, recv_header_read, header_read}

-- The same with the bytes named.
recv_short_of :
    (self : TcpCon) (bytes : List ℕ)
    → self.tcp.inbox ≡ bytes
    → self.tcp.fault ≡ none
    → length bytes < 4
    → ((recv self).0.tcp ≡ self.tcp)
      × (((recv self).1 ≡ err would_block)
          ⊎ ((self.tcp.inbox ≡ []) × ((recv self).1 ≡ err connection_aborted)))
unfolding recv peek
recv_short_of self [] come works short = ground arith
recv_short_of self (a ∷ []) come works short = ground arith
recv_short_of self (a ∷ b ∷ []) come works short = ground arith
recv_short_of self (a ∷ b ∷ c ∷ []) come works short = ground arith
recv_short_of self (a ∷ b ∷ c ∷ d ∷ bytes) come works short = absurd (omega arith)

-- On a stream that works, before four bytes have come, `recv` reports the end of a closed stream or
-- `WouldBlock`, and takes nothing off the stream.
pub recv_short :
    (self : TcpCon)
    → self.tcp.fault ≡ none
    → length self.tcp.inbox < 4
    → ((recv self).0.tcp ≡ self.tcp)
      × (((recv self).1 ≡ err would_block)
          ⊎ ((self.tcp.inbox ≡ []) × ((recv self).1 ≡ err connection_aborted)))
recv_short self works short = recv_short_of self self.tcp.inbox refl works short

peek_some :
    (s : TcpStream) (n : ℕ) (a : ℕ) (bytes : List ℕ)
    → s.fault ≡ none
    → s.inbox ≡ a ∷ bytes
    → peek s n ≡ ok (take n s.inbox)
unfolding peek
peek_some s n a bytes works come = ground arith

peek_front_of :
    (self : TcpCon) (bytes : List ℕ) (mid len : ℕ)
    → self.tcp.inbox ≡ bytes
    → self.tcp.fault ≡ none
    → take 4 bytes ≡ Header.to_be_bytes (Header.new mid len)
    → peek self.tcp 4 ≡ ok (Header.to_be_bytes (Header.new mid len))
unfolding Header.to_be_bytes
peek_front_of self [] mid len come works front = cc
peek_front_of self (a ∷ bytes) mid len come works front =
    peek_some self.tcp 4 a bytes works come ∙ ap ok (ap (take 4) come ∙ front)

-- Where the header of a message stands in front, `recv` goes on to read the message.
pub recv_to_message :
    (self : TcpCon) (mid len : ℕ)
    → self.tcp.fault ≡ none
    → take 4 self.tcp.inbox ≡ Header.to_be_bytes (Header.new mid len)
    → mid < 2 ^ 16
    → len < 2 ^ 16
    → recv self
      ≡ recv_message
          (record self { buff = overwrite (Header.to_be_bytes (Header.new mid len)) self.buff })
          (record { mid = mid; len = len })
unfolding Header.to_be_bytes
recv_to_message self mid len works front small short =
    let header = Header.to_be_bytes (Header.new mid len) in
    recv_peeked self header (peek_front_of self self.tcp.inbox mid len refl works front) refl
    ∙ recv_header_read (record self { buff = overwrite header self.buff })
        (record { mid = mid; len = len }) (header_read mid len small short)

-- A read of more than has come takes all of it.
recv_message_short :
    (self : TcpCon) (h : TcpHeader)
    → self.tcp.fault ≡ none
    → self.tcp.eof ≡ false
    → self.tcp.is_shut ≡ false
    → h.len + 4 ≤ length self.buff
    → length self.tcp.inbox < h.len + 4
    → ((recv_message self h).1 ≡ err would_block)
      × ((recv_message self h).0.tcp ≡ record self.tcp { inbox = [] })
unfolding recv_message read_exact
recv_message_short self h works open_ up room short = ground arith

recv_message_large :
    (self : TcpCon) (h : TcpHeader)
    → self.tcp.fault ≡ none
    → length self.buff - 4 < h.len
    → ((recv_message self h).1 ≡ err invalid_data)
      × ((recv_message self h).0.tcp ≡ record self.tcp { is_shut = true })
unfolding recv_message shutdown
recv_message_large self h works large = ground arith

front :
    (bytes missing : List ℕ) (mid : MId) (payload : List ℕ)
    → bytes ++ missing ≡ frame mid payload
    → 4 ≤ length bytes
    → take 4 bytes ≡ Header.to_be_bytes (Header.new mid (length payload))
unfolding Header.to_be_bytes
front bytes missing mid payload whole four =
    sym (take-append_le 4 bytes missing four) ∙ ap (take 4) (whole ∙ frame-append mid payload)

kept :
    (mid : MId) (payload buff : List ℕ)
    → 4 ≤ length buff
    → length (overwrite (Header.to_be_bytes (Header.new mid (length payload))) buff) ≡ length buff
unfolding Header.to_be_bytes
kept mid payload buff room =
    length-overwrite (Header.to_be_bytes (Header.new mid (length payload))) buff room

-- Where the header of a message that the buffer holds has come whole and its payload has not, on a
-- stream that is open, `recv` also reports `WouldBlock`, but the bytes that had come are gone from
-- the stream.
pub recv_partial :
    (self : TcpCon) (mid : MId) (payload missing : List ℕ)
    → self.tcp.fault ≡ none
    → self.tcp.eof ≡ false
    → self.tcp.is_shut ≡ false
    → mid < 2 ^ 16
    → length payload < 2 ^ 16
    → length payload + 4 ≤ length self.buff
    → self.tcp.inbox ++ missing ≡ frame mid payload
    → 0 < length missing
    → 4 ≤ length self.tcp.inbox
    → ((recv self).1 ≡ err would_block) × ((recv self).0.tcp ≡ record self.tcp { inbox = [] })
recv_partial self mid payload missing works open_ up small short room whole lacks four =
    let h : TcpHeader = record { mid = mid; len = length payload } in
    let header = Header.to_be_bytes (Header.new mid (length payload)) in
    let total = length-frame mid payload in
    rw
      (recv_to_message self mid (length payload) works
        (front self.tcp.inbox missing mid payload whole four) small short)
      (recv_message_short (record self { buff = overwrite header self.buff }) h works open_ up
        (omega (arith, kept mid payload self.buff))
        (omega (arith, ap length whole, length-append self.tcp.inbox missing, total)))

-- On a stream that works, a header that announces more than the buffer holds is answered by
-- shutting the stream down; the call reports `InvalidData`, and nothing is taken off the stream.
pub recv_oversized :
    (self : TcpCon) (mid len : ℕ)
    → self.tcp.fault ≡ none
    → take 4 self.tcp.inbox ≡ Header.to_be_bytes (Header.new mid len)
    → mid < 2 ^ 16
    → len < 2 ^ 16
    → 4 ≤ length self.buff
    → max_msg_size self < len
    → ((recv self).1 ≡ err invalid_data) × ((recv self).0.tcp ≡ record self.tcp { is_shut = true })
unfolding Header.to_be_bytes max_msg_size
recv_oversized self mid len works front small short room large =
    let header = Header.to_be_bytes (Header.new mid len) in
    rw (recv_to_message self mid len works front small short) (
      recv_message_large (record self { buff = overwrite header self.buff })
        (record { mid = mid; len = len }) works
        (omega (arith, length-overwrite header self.buff room)))
