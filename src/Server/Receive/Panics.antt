-- ===== src/Server/Receive/Panics.antt =====
-- What a client can send that makes a server of src/server.rs panic while it receives.
use carrier_pigeon.Base.{
  ℕ, ◌≤◌, ◌≡◌, ◌≢◌, ◌↔◌, refl, none, Io, ◌>>=◌, ◌⊎◌, inl, inr, ap, List, [], ◌∷◌, some, ok, err,
  panic, length, length-take, drop, arith, Outcome-cases,
}
use carrier_pigeon.Base.HashMap
use carrier_pigeon.Net.{CId, MId, Any}
use carrier_pigeon.Net.Msg.{ErasedNetMsg}
use carrier_pigeon.Time.{Host}
use carrier_pigeon.Table.{Bincode, Entry}
use carrier_pigeon.Table.Parts.Typed.{IsBuilt}
use carrier_pigeon.Table.Parts.Panics.{decode_then-panics}
use carrier_pigeon.Tcp
use carrier_pigeon.Tcp.{TcpCon}
use carrier_pigeon.Tcp.Panics.{recv-ne-panic}
use carrier_pigeon.Udp
use carrier_pigeon.Udp.Panics.{Runt, Early, number, received_cases}
use carrier_pigeon.Udp.Socket as Socket
use carrier_pigeon.Udp.Socket.{UdpSocket}
use carrier_pigeon.Server.{Server}
use carrier_pigeon.Server.Receive.{recv_tcp, recv_udp, from_addr}

datagram-fits :
    (s socket : UdpSocket) (size from : ℕ) (bytes : List ℕ)
    → Socket.recv_from s size ≡ (socket, ok (from, bytes))
    → length bytes ≤ size
unfolding Socket.recv_from
datagram-fits s socket size from bytes e = fits s.inbox refl
  where
    fits : (packets : List Socket.Packet) → s.inbox ≡ packets → length bytes ≤ size
    fits [] q = ground arith
    fits (ok (sender, b) ∷ rest) q = ground (arith, length-take size b)
    fits (err x ∷ rest) q = ground arith
    fits (panic ∷ rest) q = ground arith

widen : {A B C : Type 0} → A ⊎ B → A ⊎ B ⊎ C
widen (inl a) = inl a
widen (inr b) = inr (inl b)

-- Of the three reasons, the one that is left.
last_reason :
    (h : Host) (bytes : List ℕ) (n : ℕ)
    → (Runt bytes ⊎ Early h bytes ⊎ ((4 ≤ length bytes) × (number bytes ≡ n)))
    → 4 ≤ length bytes
    → ¬ Early h bytes
    → number bytes ≡ n
last_reason h bytes n (inl (some_, runt)) size late = absurd (omega arith)
last_reason h bytes n (inr (inl early)) size late = absurd (late early)
last_reason h bytes n (inr (inr (_, is))) size late = is

module _ {V : Type 0} (bin : Bincode V) (es : List (Entry V)) (self : Server V) where
  -- What follows the decoding of a message.
  abbrev tcp_end : CId → MId → Any V → Io (MId × ErasedNetMsg V)
  tcp_end cid mid msg = ok (mid, record { cid = cid; time = none; msg = msg })

  abbrev udp_end : ℕ → ℕ → MId → Any V → Io (MId × ErasedNetMsg V)
  udp_end from time mid msg = from_addr self from time msg >>= λ net_msg. ok (mid, net_msg)

  calm_tcp : (cid : CId) (mid : MId) (msg : Any V) → tcp_end cid mid msg ≢ panic
  calm_tcp cid mid msg e = ground arith

  calm_udp : (from time : ℕ) (mid : MId) (msg : Any V) → udp_end from time mid msg ≢ panic
  unfolding from_addr
  calm_udp from time mid msg e = ground arith

  -- Where a connection's buffer has room for a header, a receive over TCP panics exactly when the
  -- message that has come has the first number that was not given out.
  pub recv_tcp-panics :
      (cid : CId) (con : TcpCon)
      → IsBuilt bin es self.parts
      → HashMap.get self.tcp cid ≡ some con
      → 4 ≤ length con.buff
      → ((recv_tcp self cid).1 ≡ panic)
        ↔ ((bytes : List ℕ) × ((Tcp.recv con).1 ≡ ok (length es, bytes)))
  unfolding recv_tcp
  recv_tcp-panics cid con b held size = elim (Outcome-cases (Tcp.recv con).1) [
    | inl (m, q) ↦
        let then_ =
          decode_then-panics bin es self.parts m.0 m.1 (tcp_end cid m.0) b (calm_tcp cid m.0) in
        rw (held, q, recv_tcp)
          ((λ e. (m.1, ap (λ k. ok (k, m.1)) (then_.0 e))), (λ (bytes, g). then_.1 (ground arith)))
    | inr (inl (e, q)) ↦
        rw (held, q, recv_tcp) ((λ g. absurd (ground arith)), (λ g. absurd (ground arith)))
    | inr (inr q) ↦ absurd (recv-ne-panic con size q)
  ]

  -- A receive over UDP panics exactly when the datagram that has come has one to three bytes, is from
  -- before the receiver's clock wrapped in a build that checks overflow, or has the first number that
  -- was not given out. It does not matter whether the sender is connected.
  pub recv_udp-panics :
      (h : Host) (socket : UdpSocket) (from : ℕ) (bytes : List ℕ)
      → IsBuilt bin es self.parts
      → Socket.recv_from self.udp.udp (length self.udp.buff) ≡ (socket, ok (from, bytes))
      → ((recv_udp h self).1 ≡ panic)
        ↔ (Runt bytes ⊎ Early h bytes ⊎ ((4 ≤ length bytes) × (number bytes ≡ length es)))
  unfolding recv_udp Udp.recv_from
  recv_udp-panics h socket from bytes b came =
      let came' : (Udp.recv_from h self.udp).1
          ≡ (Udp.received h self.udp (socket, ok (from, bytes))).1 =
        ap (λ r. (Udp.received h self.udp r).1) came in
      elim (received_cases h self.udp socket from bytes
        (datagram-fits self.udp.udp socket (length self.udp.buff) from bytes came)) [
          | inl (bad, q) ↦ rw (came', q, recv_udp) ((λ e. widen bad), (λ why. refl))
          | inr (inl (none_, q)) ↦
              rw (came', q, recv_udp)
                ((λ e. absurd (ground arith)), (λ why. absurd (ground (arith, none_, why))))
          | inr (inr (size, late, time, q)) ↦
              let then_ =
                decode_then-panics bin es self.parts (number bytes) (drop 4 bytes)
                  (udp_end from time (number bytes)) b (calm_udp from time (number bytes)) in
              rw (came', q, recv_udp)
                (
                  (λ e. inr (inr (size, then_.0 e))),
                  (λ why. then_.1 (last_reason h bytes (length es) why size late)),
                )
        ]
