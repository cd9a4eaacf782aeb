-- ===== src/Tcp/Progress.antt =====
-- `recv` of src/tcp.rs takes something off the stream with each message, and does not panic.
use carrier_pigeon.Base.{ℕ, ◌+◌, ◌≤◌, ◌≡◌, List, ok, length, take, arith, Outcome-cases, inl, inr}
use carrier_pigeon.Base.Buffer.{overwrite, length-drop}
use carrier_pigeon.Net.{MId}
use carrier_pigeon.Header.Tcp as Header
use carrier_pigeon.Header.Tcp.{TcpHeader}
use carrier_pigeon.Tcp.Stream.{TcpStream, peek, read_exact, shutdown}
use carrier_pigeon.Tcp.{TcpCon, recv, recv_header, recv_message}

read_exact_shorter :
    (s t : TcpStream) (n : ℕ) (bytes : List ℕ)
    → read_exact s n ≡ (t, ok bytes)
    → length t.inbox + n ≡ length s.inbox
unfolding read_exact
read_exact_shorter s t n bytes h = ground (arith, length-drop n s.inbox)

recv_message_shorter :
    (self z : TcpCon) (h : TcpHeader) (m : MId × List ℕ)
    → recv_message self h ≡ (z, ok m)
    → length z.tcp.inbox + 4 ≤ length self.tcp.inbox
unfolding recv_message shutdown read_exact
recv_message_shorter self z h m e = ground (arith, length-drop (h.len + 4) self.tcp.inbox)

recv_header_shorter :
    (self z : TcpCon) (m : MId × List ℕ)
    → recv_header self ≡ (z, ok m)
    → length z.tcp.inbox + 4 ≤ length self.tcp.inbox
unfolding recv_header
recv_header_shorter self z m e = elim (Outcome-cases (Header.from_be_bytes (take 4 self.buff))) [
  | inl (h, q) ↦ ground (arith, recv_message_shorter self z h m)
  | inr (inl (x, q)) ↦ ground arith
  | inr (inr q) ↦ ground arith
]

-- Each message that is received takes at least its header off the stream.
pub recv_shorter :
    (self z : TcpCon) (m : MId × List ℕ)
    → recv self ≡ (z, ok m)
    → length z.tcp.inbox + 4 ≤ length self.tcp.inbox
unfolding recv
recv_shorter self z m e = elim (Outcome-cases (peek self.tcp 4)) [
  | inl (bytes, q) ↦
      ground (arith, q, recv_header_shorter (record self { buff = overwrite bytes self.buff }) z m)
  | inr (inl (x, q)) ↦ ground arith
  | inr (inr q) ↦ ground arith
]
