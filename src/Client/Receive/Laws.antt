-- ===== src/Client/Receive/Laws.antt =====
-- Receiving on a client of src/client.rs.
use carrier_pigeon.Base.{
  ℕ, suc, ◌+◌, ◌≤◌, ◌<◌, ◌≡◌, refl, some, ok, err, panic, Io, Outcome-cases, inl, inr, length,
  if◌then◌else◌, ap, Bool-cases, ◌⊎◌, arith,
}
use carrier_pigeon.Base.Results.{would_block}
use carrier_pigeon.Base.Loop.{next, loop_total}
use carrier_pigeon.Net.Status as ConStatus
use carrier_pigeon.Net.Status.{Status}
use carrier_pigeon.Time.{Host}
use carrier_pigeon.Net.{MId}
use carrier_pigeon.Net.Msg.{ErasedNetMsg}
use carrier_pigeon.Tcp
use carrier_pigeon.Tcp.Progress.{recv_shorter}
use carrier_pigeon.Udp.Laws.{recv_takes}
use carrier_pigeon.Client.{Client, is_open, recv_tcp, recv_udp}
use carrier_pigeon.Client.Receive.{
  Progress, tcp_arm, tcp_round, udp_arm, udp_round, tcp_loop, udp_loop, recv_msgs,
}

module _ {V : Type 0} where
  -- What is left to do: nothing on a closed client.
  abbrev tcp_left : Progress V → ℕ
  tcp_left s = if is_open s.0 then suc (length s.0.tcp.tcp.inbox) else 0

  recv_tcp_shorter :
      (self z : Client V) (m : MId × ErasedNetMsg V)
      → recv_tcp self ≡ (z, ok m)
      → length z.tcp.tcp.inbox + 4 ≤ length self.tcp.tcp.inbox
  unfolding recv_tcp
  recv_tcp_shorter self z m e =
      let came = Tcp.recv self.tcp in
      elim (Outcome-cases came.1) [
        | inl (m', q) ↦ ground (arith, recv_shorter self.tcp came.0 m' (ap (λ r. (came.0, r)) q))
        | inr (inl (x, q)) ↦ ground arith
        | inr (inr q) ↦ ground arith
      ]

  tcp_arm-falls :
      (self z : Client V) (r : Io (MId × ErasedNetMsg V)) (i : ℕ) (s : Progress V)
      → recv_tcp self ≡ (z, r)
      → tcp_arm (z, r) i ≡ next s
      → tcp_left s < suc (length self.tcp.tcp.inbox)
  unfolding tcp_arm is_open ConStatus.connected
  tcp_arm-falls self z (ok m) i s e f = ground (arith, recv_tcp_shorter self z m e)
  tcp_arm-falls self z (err e) i s h f = ground arith
  tcp_arm-falls self z panic i s e f = ground arith

  tcp_round-falls : (s s' : Progress V) → tcp_round s ≡ next s' → tcp_left s' < tcp_left s
  unfolding tcp_round
  tcp_round-falls s s' e = elim (Bool-cases (is_open s.0)) [
    | inl up ↦
        rw up (
          tcp_arm-falls s.0 (recv_tcp s.0).0 (recv_tcp s.0).1 s.1 s' refl (rw (up, tcp_round) at e))
    | inr shut ↦ ground arith
  ]

  tcp_loop_total : (s : Progress V) → (r : Io (Progress V)) × (tcp_loop s ≡ some r)
  unfolding tcp_loop
  tcp_loop_total s = loop_total tcp_left tcp_round tcp_round-falls _ s (ground arith)

  abbrev udp_left : Progress V → ℕ
  udp_left s = length s.0.udp.udp.inbox

  recv_udp_cases :
      (h : Host) (self z : Client V) (r : Io (MId × ErasedNetMsg V))
      → recv_udp h self ≡ (z, r)
      → (r ≡ err would_block) ⊎ (length z.udp.udp.inbox < length self.udp.udp.inbox)
  unfolding recv_udp
  recv_udp_cases h self z r e = elim (recv_takes h self.udp) [
    | inl none_left ↦ inl (ground arith)
    | inr fewer ↦ inr (ground arith)
  ]

  udp_arm-falls :
      (h : Host) (self z : Client V) (r : Io (MId × ErasedNetMsg V)) (i : ℕ) (s : Progress V)
      → recv_udp h self ≡ (z, r)
      → udp_arm (z, r) i ≡ next s
      → udp_left s < length self.udp.udp.inbox
  unfolding udp_arm
  udp_arm-falls h self z (ok m) i s e f = ground (arith, recv_udp_cases h self z (ok m) e)
  udp_arm-falls h self z (err x) i s e f = ground (arith, recv_udp_cases h self z (err x) e)
  udp_arm-falls h self z panic i s e f = ground arith

  udp_round-falls :
      (h : Host) (s s' : Progress V) → udp_round h s ≡ next s' → udp_left s' < udp_left s
  unfolding udp_round
  udp_round-falls h s s' e = elim (Bool-cases (is_open s.0)) [
    | inl up ↦
        udp_arm-falls h s.0 (recv_udp h s.0).0 (recv_udp h s.0).1 s.1 s' refl
          (rw (up, udp_round) at e)
    | inr shut ↦ ground arith
  ]

  udp_loop_total : (h : Host) (s : Progress V) → (r : Io (Progress V)) × (udp_loop h s ≡ some r)
  unfolding udp_loop
  udp_loop_total h s = loop_total udp_left (udp_round h) (udp_round-falls h) _ s (ground arith)

  -- Both loops of `recv_msgs` end, whatever has come: the fuel never runs out.
  pub recv_msgs_total :
      (h : Host) (self : Client V) → (r : Io (Progress V)) × (recv_msgs h self ≡ some r)
  unfolding recv_msgs
  recv_msgs_total h self =
      let first = tcp_loop_total (self, 0) in
      elim (Outcome-cases first.0) [
        | inl (s, q) ↦ rw (first.1, q, recv_msgs) (udp_loop_total h s)
        | inr (inl (x, q)) ↦ (err x, rw (first.1, q, recv_msgs))
        | inr (inr q) ↦ (panic, rw (first.1, q, recv_msgs))
      ]
