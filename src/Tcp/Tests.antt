-- ===== src/Tcp/Tests.antt =====
-- Messages of src/tcp.rs on concrete streams.
use carrier_pigeon.Base.{
  List, ◌-◌, ◌≤◌, ◌<◌, ◌≡◌, refl, ◌⊎◌, [], ◌∷◌, ◌++◌, ok, err, length, take, arith, ℕ, true,
}
use carrier_pigeon.Base.Results.{invalid_data, would_block}
use carrier_pigeon.Header.Tcp as Header
use carrier_pigeon.Tcp.Stream.{write_all}
use carrier_pigeon.Tcp.{TcpCon, frame, send, recv, max_msg_size}
use carrier_pigeon.Tcp.Send.{send_cases}
use carrier_pigeon.Tcp.Partial.{recv_partial, recv_oversized}
use carrier_pigeon.Tcp.Roundtrip.{Message, Sends, Receives, stream_round_trip}
use carrier_pigeon.Samples.{stream, tcp_con}

-- The message 3 with the payload 9, 9.
abbrev bytes : List ℕ
bytes = 0 ∷ 3 ∷ 0 ∷ 2 ∷ 9 ∷ 9 ∷ []

frame-bytes : frame 3 (9 ∷ 9 ∷ []) ≡ bytes
unfolding frame Header.to_be_bytes Header.new
frame-bytes = refl

send_cases_example :
    let self = tcp_con [] in
    let tcp = self.tcp in
    let whole = frame 3 (9 ∷ 9 ∷ []) in
    ((length self.buff < length whole) × (send self 3 (9 ∷ 9 ∷ []) ≡ (self, err invalid_data)))
    ⊎ ((length whole ≤ length self.buff)
        × (length whole ≤ tcp.room)
        × (send self 3 (9 ∷ 9 ∷ []) ≡ (
          record self {
            tcp = record tcp { sent = tcp.sent ++ whole; room = tcp.room - length whole };
          },
          ok tt,
        )))
    ⊎ ((length whole ≤ length self.buff)
        × (tcp.room < length whole)
        × (send self 3 (9 ∷ 9 ∷ []) ≡ (
          record self { tcp = record tcp { sent = tcp.sent ++ take tcp.room whole; room = 0 } },
          err would_block,
        )))
send_cases_example = send_cases (tcp_con []) 3 (9 ∷ 9 ∷ []) refl refl

recv_partial_example :
    ((recv (tcp_con (take 5 bytes))).1 ≡ err would_block)
    × ((recv (tcp_con (take 5 bytes))).0.tcp ≡ stream [])
unfolding frame Header.to_be_bytes Header.new
recv_partial_example =
    recv_partial (tcp_con (take 5 bytes)) 3 (9 ∷ 9 ∷ []) (9 ∷ []) refl refl refl (ground arith)
      (ground arith) (ground arith) whole (ground arith) (ground arith)
  where
    whole : take 5 bytes ++ 9 ∷ [] ≡ frame 3 (9 ∷ 9 ∷ [])
    whole = refl

recv_oversized_example :
    ((recv (tcp_con (0 ∷ 3 ∷ 1 ∷ 0 ∷ []))).1 ≡ err invalid_data)
    × ((recv (tcp_con (0 ∷ 3 ∷ 1 ∷ 0 ∷ []))).0.tcp
        ≡ record (stream (0 ∷ 3 ∷ 1 ∷ 0 ∷ [])) { is_shut = true })
unfolding Header.to_be_bytes Header.new max_msg_size
recv_oversized_example =
    recv_oversized (tcp_con (0 ∷ 3 ∷ 1 ∷ 0 ∷ [])) 3 256 refl header (ground arith) (ground arith)
      (ground arith) (ground arith)
  where
    header : 0 ∷ 3 ∷ 1 ∷ 0 ∷ [] ≡ Header.to_be_bytes (Header.new 3 256)
    header = refl

abbrev two : List Message
two = (3, 9 ∷ 9 ∷ []) ∷ (4, 5 ∷ []) ∷ []

-- Their bytes.
abbrev wire : List ℕ
wire = 0 ∷ 3 ∷ 0 ∷ 2 ∷ 9 ∷ 9 ∷ 0 ∷ 4 ∷ 0 ∷ 1 ∷ 5 ∷ []

abbrev after : List ℕ → ℕ → TcpCon
after sent room = record (tcp_con []) { tcp = record (stream []) { sent = sent; room = room } }

two_sent : Sends (tcp_con []) two (after wire 89)
unfolding send write_all frame Header.to_be_bytes Header.new
two_sent = (after bytes 94, refl, (after wire 89, refl, refl))

stream_round_trip_example : (y : TcpCon) × Receives (tcp_con wire) two y × (y.tcp ≡ stream [])
stream_round_trip_example =
    stream_round_trip (tcp_con []) (after wire 89) (tcp_con wire) two two_sent refl refl refl
      (ground arith)
