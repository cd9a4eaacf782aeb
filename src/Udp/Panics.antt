-- ===== src/Udp/Panics.antt =====
-- `recv_from` of src/udp.rs: which datagrams make it panic.
use carrier_pigeon.Base.{
  ℕ, ◌+◌, ◌*◌, ◌^◌, ◌≤◌, ◌<◌, ◌≡◌, ◌⊎◌, inl, inr, refl, ap, ◌>>=◌, true, List, [], ◌∷◌, ok, err,
  panic, length, drop, arith, Outcome-cases,
}
use carrier_pigeon.Base.Results.{not_connected}
use carrier_pigeon.Base.Buffer.{overwrite}
use carrier_pigeon.Time.Laws.{reconstruct_millis_panics}
use carrier_pigeon.Time.{Host, unix_millis, reconstruct_millis}
use carrier_pigeon.Header.Udp as Header
use carrier_pigeon.Udp.Socket.{UdpSocket}
use carrier_pigeon.Udp.Laws.{recv_shared_runt, recv_shared_reads}
use carrier_pigeon.Udp.{UdpCon, received, recv_shared}

-- The two fields of a header at the start of a datagram.
abbrev pub number : List ℕ → ℕ
number (a ∷ b ∷ bytes) = a * 256 + b
number [] = 0
number (a ∷ []) = 0

abbrev pub stamp : List ℕ → ℕ
stamp (a ∷ b ∷ bytes) = number bytes
stamp [] = 0
stamp (a ∷ []) = 0

-- A datagram that is too short for a header, but not empty.
abbrev pub Runt : List ℕ → Type 0
Runt bytes = (0 < length bytes) × (length bytes < 4)

-- A datagram from before the clock of the receiver wrapped, in a build that checks overflow.
abbrev pub Early : Host → List ℕ → Type 0
Early h bytes =
    (4 ≤ length bytes)
    × (h.overflow_checks ≡ true)
    × (unix_millis h < 2 ^ 16)
    × (unix_millis h < stamp bytes)

header_cases :
    (h : Host) (a b c d : ℕ) (payload : List ℕ)
    → (Early h (a ∷ b ∷ c ∷ d ∷ payload) × (Header.from_be_bytes h (a ∷ b ∷ c ∷ d ∷ []) ≡ panic))
      ⊎ ((¬ Early h (a ∷ b ∷ c ∷ d ∷ payload))
          × (time : ℕ) × (Header.from_be_bytes h (a ∷ b ∷ c ∷ d ∷ [])
              ≡ ok (record { mid = a * 256 + b; time = time })))
unfolding Header.from_be_bytes reconstruct_millis
header_cases h a b c d payload = elim (Outcome-cases (reconstruct_millis h (c * 256 + d))) [
  | inl (time, q) ↦ inr (
    (λ early. absurd (ground (arith, q, reconstruct_millis_panics h (c * 256 + d)))),
    time,
    ground (arith, q),
  )
  | inr (inl (e, q)) ↦ absurd (ground arith)
  | inr (inr q) ↦ inl (
    (
      omega arith,
      ((reconstruct_millis_panics h (c * 256 + d)).0 q).0,
      ((reconstruct_millis_panics h (c * 256 + d)).0 q).1,
      ((reconstruct_millis_panics h (c * 256 + d)).0 q).2,
    ),
    ground (arith, q),
  )
]

-- What becomes of a datagram that the buffer holds.
pub received_cases :
    (h : Host) (self : UdpCon) (socket : UdpSocket) (from : ℕ) (bytes : List ℕ)
    → length bytes ≤ length self.buff
    → let result = (received h self (socket, ok (from, bytes))).1 in
      ((Runt bytes ⊎ Early h bytes) × (result ≡ panic))
      ⊎ ((bytes ≡ []) × (result ≡ err not_connected))
      ⊎ ((4 ≤ length bytes)
          × (¬ Early h bytes)
          × (time : ℕ) × (result ≡ ok (from, number bytes, time, drop 4 bytes)))
unfolding received recv_shared
received_cases h self socket from [] room = inr (inl (refl, refl))
received_cases h self socket from (a ∷ []) room =
    inl
      (inl (omega arith, omega arith), rw (recv_shared_runt h _ 1 (omega arith) (omega arith)) refl)
received_cases h self socket from (a ∷ b ∷ []) room =
    inl
      (inl (omega arith, omega arith), rw (recv_shared_runt h _ 2 (omega arith) (omega arith)) refl)
received_cases h self socket from (a ∷ b ∷ c ∷ []) room =
    inl
      (inl (omega arith, omega arith), rw (recv_shared_runt h _ 3 (omega arith) (omega arith)) refl)
received_cases h self socket from (a ∷ b ∷ c ∷ d ∷ payload) room =
    elim (header_cases h a b c d payload) [
      | inl (early, q) ↦ inl (inr early, ground (arith, q))
      | inr (late, time, q) ↦ inr (
          inr (
            omega arith,
            late,
            time,
            ap (λ message. message >>= λ m. ok (from, m.0, m.1, m.2))
                (recv_shared_reads h
                  (record { buff = overwrite (a ∷ b ∷ c ∷ d ∷ payload) self.buff; udp = socket })
                  (a * 256 + b) time a b c d payload
                  (drop (length (a ∷ b ∷ c ∷ d ∷ payload)) self.buff) refl q),
          ))
    ]
