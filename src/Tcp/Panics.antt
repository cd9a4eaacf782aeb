-- ===== src/Tcp/Panics.antt =====
-- `recv` of src/tcp.rs: whatever has come, it does not panic.
use carrier_pigeon.Base.{
  ℕ, ◌≤◌, ◌≡◌, ◌≢◌, refl, List, [], ◌∷◌, ok, panic, length, take, arith, Outcome-cases, inl, inr,
}
use carrier_pigeon.Base.Buffer.{overwrite, length-overwrite}
use carrier_pigeon.Header.Tcp as Header
use carrier_pigeon.Header.Tcp.{TcpHeader}
use carrier_pigeon.Tcp.Stream.{TcpStream, peek, read_exact, shutdown}
use carrier_pigeon.Tcp.{TcpCon, recv, recv_header, recv_message}

recv_message-ne-panic : (self : TcpCon) (header : TcpHeader) → (recv_message self header).1 ≢ panic
unfolding recv_message read_exact shutdown
recv_message-ne-panic self header e = ground arith

four :
    (buff : List ℕ)
    → 4 ≤ length buff
    → (header : TcpHeader) × (Header.from_be_bytes (take 4 buff) ≡ ok header)
unfolding Header.from_be_bytes
four (a ∷ b ∷ c ∷ d ∷ rest) size = (_, refl)
four [] size = absurd (omega arith)
four (a ∷ []) size = absurd (omega arith)
four (a ∷ b ∷ []) size = absurd (omega arith)
four (a ∷ b ∷ c ∷ []) size = absurd (omega arith)

recv_header-ne-panic : (self : TcpCon) → 4 ≤ length self.buff → (recv_header self).1 ≢ panic
unfolding recv_header
recv_header-ne-panic self size e =
    let (header, q) = four self.buff size in
    recv_message-ne-panic self header (rw (q, recv_header) at e)

peek-ne-panic : (s : TcpStream) → peek s 4 ≢ panic
unfolding peek
peek-ne-panic s e = ground arith

pub recv-ne-panic : (self : TcpCon) → 4 ≤ length self.buff → (recv self).1 ≢ panic
unfolding recv
recv-ne-panic self size e = elim (Outcome-cases (peek self.tcp 4)) [
  | inl (bytes, q) ↦ ground (
    arith,
    length-overwrite bytes self.buff,
    recv_header-ne-panic (record self { buff = overwrite bytes self.buff }),
  )
  | inr (inl (x, q)) ↦ ground arith
  | inr (inr q) ↦ peek-ne-panic self.tcp q
]
