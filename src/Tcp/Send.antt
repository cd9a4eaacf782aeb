-- ===== src/Tcp/Send.antt =====
-- Sending over src/tcp.rs.
use carrier_pigeon.Base.{
  ℕ, ap, ◌+◌, ◌-◌, ◌≤◌, ◌<◌, ◌≡◌, ◌⊎◌, inl, inr, false, List, ◌++◌, none, ok, err, length, take,
  arith, Bool-cases, ltb, leb, length-append,
}
use carrier_pigeon.Base.Results.{invalid_data, would_block}
use carrier_pigeon.Base.Buffer.{write_at-frame}
use carrier_pigeon.Net.{MId}
use carrier_pigeon.Header.Tcp as Header
use carrier_pigeon.Tcp.Stream.{write_all}
use carrier_pigeon.Tcp.{TcpCon, frame, send}

-- The two loops of `send` leave the header's bytes and then the payload's.
pub frame-append :
    (mid : MId) (payload : List ℕ)
    → frame mid payload ≡ Header.to_be_bytes (Header.new mid (length payload)) ++ payload
unfolding frame Header.to_be_bytes
frame-append mid payload =
    write_at-frame 0 (Header.to_be_bytes (Header.new mid (length payload))) payload

pub length-frame : (mid : MId) (payload : List ℕ) → length (frame mid payload) ≡ length payload + 4
unfolding Header.to_be_bytes
length-frame mid payload = omega (
  arith,
  length-append (Header.to_be_bytes (Header.new mid (length payload))) payload,
  ap length (frame-append mid payload),
)

-- On a stream that works, `send` refuses a message that is larger than the buffer and writes
-- nothing of it, writes the whole frame where the system has room for it, and otherwise writes the
-- part that fits and reports `WouldBlock`.
pub send_cases :
    (self : TcpCon) (mid : MId) (payload : List ℕ)
    → self.tcp.fault ≡ none
    → self.tcp.is_shut ≡ false
    → let whole = frame mid payload in
      let tcp = self.tcp in
      ((length self.buff < length whole) × (send self mid payload ≡ (self, err invalid_data)))
      ⊎ ((length whole ≤ length self.buff)
          × (length whole ≤ tcp.room)
          × (send self mid payload ≡ (
            record self {
              tcp = record tcp { sent = tcp.sent ++ whole; room = tcp.room - length whole };
            },
            ok tt,
          )))
      ⊎ ((length whole ≤ length self.buff)
          × (tcp.room < length whole)
          × (send self mid payload ≡ (
            record self { tcp = record tcp { sent = tcp.sent ++ take tcp.room whole; room = 0 } },
            err would_block,
          )))
unfolding send write_all
send_cases self mid payload works open_ =
    elim (Bool-cases (ltb (length self.buff) (length payload + 4))) [
      | inl large ↦ inl (ground (arith, length-frame mid payload), ground arith)
      | inr fits ↦ elim (Bool-cases (leb (length (frame mid payload)) self.tcp.room)) [
        | inl all ↦ inr (inl (ground (arith, length-frame mid payload), ground arith, ground arith))
        | inr part ↦
            inr (inr (ground (arith, length-frame mid payload), ground arith, ground arith))
      ]
    ]
