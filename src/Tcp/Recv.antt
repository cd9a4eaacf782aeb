-- ===== src/Tcp/Recv.antt =====
-- Receiving over src/tcp.rs.
use mathlib.Core.List.{append_assoc}
use carrier_pigeon.Base.{
  ℕ, ◌+◌, ◌^◌, ◌≤◌, ◌<◌, ◌≡◌, refl, ◌∙◌, ap, List, ◌∷◌, ◌++◌, none, ok, length, take, drop, arith,
  length-append, take-append, drop-append,
}
use carrier_pigeon.Base.Buffer.{overwrite, length-overwrite}
use carrier_pigeon.Net.{MId}
use carrier_pigeon.Header.Tcp as Header
use carrier_pigeon.Header.Tcp.{TcpHeader}
use carrier_pigeon.Header.Laws.{tcp_from-to_be_bytes}
use carrier_pigeon.Tcp.Stream.{TcpStream, peek, read_exact}
use carrier_pigeon.Tcp.{TcpCon, frame, recv, recv_header, recv_message}
use carrier_pigeon.Tcp.Send.{frame-append, length-frame}

-- Where a whole block has come, `read_exact` of its length takes it off.
read_exact-append :
    (s : TcpStream) (block rest : List ℕ)
    → s.fault ≡ none
    → s.inbox ≡ block ++ rest
    → read_exact s (length block) ≡ (record s { inbox = rest }, ok block)
unfolding read_exact
read_exact-append s block rest works come = ground (
  arith,
  come,
  take-append block rest,
  drop-append block rest,
  ap length come,
  length-append block rest,
)

pub peek-append :
    (s : TcpStream) (a : ℕ) (block rest : List ℕ)
    → s.fault ≡ none
    → s.inbox ≡ (a ∷ block) ++ rest
    → peek s (length (a ∷ block)) ≡ ok (a ∷ block)
unfolding peek
peek-append s a block rest works come = ground (arith, take-append (a ∷ block) rest)

-- The three stages of `recv`, each where it goes well.
pub recv_peeked :
    (self : TcpCon) (header : List ℕ)
    → peek self.tcp 4 ≡ ok header
    → length header ≡ 4
    → recv self ≡ recv_header (record self { buff = overwrite header self.buff })
unfolding recv
recv_peeked self header come four = rw (come, recv) (ground arith)

pub recv_header_read :
    (self : TcpCon) (h : TcpHeader)
    → Header.from_be_bytes (take 4 self.buff) ≡ ok h
    → recv_header self ≡ recv_message self h
unfolding recv_header
recv_header_read self h e = rw (e, recv_header)

recv_message_read :
    (self : TcpCon) (h : TcpHeader) (tcp : TcpStream) (bytes : List ℕ)
    → h.len + 4 ≤ length self.buff
    → read_exact self.tcp (h.len + 4) ≡ (tcp, ok bytes)
    → recv_message self h ≡ (
      record { buff = overwrite bytes self.buff; tcp = tcp },
      ok (h.mid, drop 4 (take (h.len + 4) (overwrite bytes self.buff))),
    )
unfolding recv_message
recv_message_read self h tcp bytes room e = ground arith

pub header_read :
    (mid : MId) (len : ℕ)
    → mid < 2 ^ 16
    → len < 2 ^ 16
    → Header.from_be_bytes (Header.to_be_bytes (Header.new mid len))
      ≡ ok (record { mid = mid; len = len })
unfolding Header.new
header_read mid len small short =
    ground (arith, tcp_from-to_be_bytes (record { mid = mid; len = len }))

-- What `recv` hands on of the buffer is the payload.
payload_of :
    (mid : MId) (payload buff : List ℕ)
    → drop 4 (take (length payload + 4) (overwrite (frame mid payload) buff)) ≡ payload
unfolding Header.to_be_bytes
payload_of mid payload buff =
    rw (← length-frame mid payload)
      (ap (drop 4) (take-append (frame mid payload) _) ∙ ap (drop 4) (frame-append mid payload))

-- Where a frame has come whole, its four header bytes have.
frame_come :
    (s : TcpStream) (mid : MId) (payload rest : List ℕ)
    → s.inbox ≡ frame mid payload ++ rest
    → s.inbox ≡ Header.to_be_bytes (Header.new mid (length payload)) ++ (payload ++ rest)
frame_come s mid payload rest come =
    come
    ∙ ap (λ bytes. bytes ++ rest) (frame-append mid payload)
    ∙ append_assoc (Header.to_be_bytes (Header.new mid (length payload))) payload rest

-- On a stream that works, a message whose frame has come whole is received, if both header fields
-- and the buffer hold it, and the stream goes on behind it.
pub recv-frame :
    (self : TcpCon) (mid : MId) (payload rest : List ℕ)
    → self.tcp.fault ≡ none
    → self.tcp.inbox ≡ frame mid payload ++ rest
    → mid < 2 ^ 16
    → length payload < 2 ^ 16
    → length payload + 4 ≤ length self.buff
    → (buff : List ℕ) × (recv self
        ≡ (record { buff = buff; tcp = record self.tcp { inbox = rest } }, ok (mid, payload)))
      × (length buff ≡ length self.buff)
unfolding Header.to_be_bytes
recv-frame self mid payload rest works come small short room =
    let h : TcpHeader = record { mid = mid; len = length payload } in
    let header = Header.to_be_bytes (Header.new mid (length payload)) in
    let peeked : TcpCon = record self { buff = overwrite header self.buff } in
    let kept = length-overwrite header self.buff (omega arith) in
    let whole = frame mid payload in
    (
      overwrite whole peeked.buff,
      recv_peeked self header
            (peek-append self.tcp _ _ (payload ++ rest) works
              (frame_come self.tcp mid payload rest come))
            refl
          ∙ recv_header_read peeked h (header_read mid (length payload) small short)
          ∙ recv_message_read peeked h (record self.tcp { inbox = rest }) whole
              (omega (arith, kept))
              (rw (← length-frame mid payload) (read_exact-append self.tcp whole rest works come))
          ∙ ap
              (λ bytes. (
                record {
                  buff = overwrite whole peeked.buff;
                  tcp = record self.tcp { inbox = rest };
                },
                ok (mid, bytes),
              ))
              (payload_of mid payload peeked.buff),
      omega (arith, kept, length-frame mid payload, length-overwrite whole peeked.buff),
    )
