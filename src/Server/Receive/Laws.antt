-- ===== src/Server/Receive/Laws.antt =====
-- Receiving on a server of src/server.rs.
use carrier_pigeon.Base.{
  ℕ, ◌<◌, ◌≡◌, refl, ap, Option, none, some, List, [], ◌∷◌, ok, err, panic, Io, Outcome-cases,
  Option-cases, inl, inr, length, ==-refl, arith,
}
use carrier_pigeon.Base.Loop.{next, loop_total}
use carrier_pigeon.Base.HashMap
use carrier_pigeon.Base.HashMap.{get-insert}
use carrier_pigeon.Time.{Host}
use carrier_pigeon.Net.{CId, MId}
use carrier_pigeon.Net.Msg.{ErasedNetMsg}
use carrier_pigeon.Tcp
use carrier_pigeon.Tcp.Progress.{recv_shorter}
use carrier_pigeon.Udp.Laws.{recv_from_takes}
use carrier_pigeon.Server.{Server, cids}
use carrier_pigeon.Server.Receive.{
  Progress, recv_tcp, recv_udp, handle_tcp_msg, tcp_round, handle_udp_msg, udp_round, waiting,
  tcp_loop, udp_loop, and_then, tcp_loops, recv_msgs,
}

module _ {V : Type 0} where
  -- A TCP message takes at least its header off the connection's stream.
  recv_tcp_shorter :
      (self z : Server V) (cid : CId) (m : MId × ErasedNetMsg V)
      → recv_tcp self cid ≡ (z, ok m)
      → waiting z cid < waiting self cid
  unfolding recv_tcp waiting
  recv_tcp_shorter self z cid m e = elim (Option-cases (HashMap.get self.tcp cid)) [
    | inl gone ↦ absurd (ground arith)
    | inr (con, held) ↦
        let came = Tcp.recv con in
        elim (Outcome-cases came.1) [
          | inl (m', q) ↦ ground (
            arith,
            ==-refl cid,
            get-insert self.tcp cid came.0 cid,
            recv_shorter con came.0 m' (ap (λ r. (came.0, r)) q),
          )
          | inr (inl (x, q)) ↦ absurd (ground arith)
          | inr (inr q) ↦ absurd (ground arith)
        ]
  ]

  handle_tcp_msg-falls :
      (self z : Server V) (cid : CId) (r : Io (MId × ErasedNetMsg V)) (i : ℕ) (s : Progress V)
      → recv_tcp self cid ≡ (z, r)
      → handle_tcp_msg (z, r) i cid ≡ next s
      → waiting s.0 cid < waiting self cid
  unfolding handle_tcp_msg waiting
  handle_tcp_msg-falls self z cid (ok m) i s e f = ground (arith, recv_tcp_shorter self z cid m e)
  handle_tcp_msg-falls self z cid (err x) i s e f = ground arith
  handle_tcp_msg-falls self z cid panic i s e f = ground arith

  tcp_loop_total : (cid : CId) (s : Progress V) → (r : Io (Progress V)) × (tcp_loop cid s ≡ some r)
  unfolding tcp_loop tcp_round
  tcp_loop_total cid s =
      loop_total (λ s. waiting s.0 cid) (tcp_round cid)
        (λ s s' e.
          handle_tcp_msg-falls s.0 (recv_tcp s.0 cid).0 cid (recv_tcp s.0 cid).1 s.1 s' refl e)
        _ s (omega arith)

  recv_udp_shorter :
      (h : Host) (self z : Server V) (m : MId × ErasedNetMsg V)
      → recv_udp h self ≡ (z, ok m)
      → length z.udp.udp.inbox < length self.udp.udp.inbox
  unfolding recv_udp
  recv_udp_shorter h self z m e = elim (recv_from_takes h self.udp) [
    | inl none_left ↦ absurd (ground arith)
    | inr fewer ↦ ground arith
  ]

  handle_udp_msg-falls :
      (h : Host) (self z : Server V) (r : Io (MId × ErasedNetMsg V)) (i : ℕ) (s : Progress V)
      → recv_udp h self ≡ (z, r)
      → handle_udp_msg (z, r) i ≡ next s
      → length s.0.udp.udp.inbox < length self.udp.udp.inbox
  unfolding handle_udp_msg
  handle_udp_msg-falls h self z (ok m) i s e f = ground (arith, recv_udp_shorter h self z m e)
  handle_udp_msg-falls h self z (err x) i s e f = ground arith
  handle_udp_msg-falls h self z panic i s e f = ground arith

  udp_loop_total : (h : Host) (s : Progress V) → (r : Io (Progress V)) × (udp_loop h s ≡ some r)
  unfolding udp_loop udp_round
  udp_loop_total h s =
      loop_total (λ s. length s.0.udp.udp.inbox) (udp_round h)
        (λ s s' e. handle_udp_msg-falls h s.0 (recv_udp h s.0).0 (recv_udp h s.0).1 s.1 s' refl e) _
        s (omega arith)

  and_then_total :
      (o : Option (Io (Progress V))) (rest : Progress V → Option (Io (Progress V)))
      → (r : Io (Progress V)) × (o ≡ some r)
      → ((s : Progress V) → (r : Io (Progress V)) × (rest s ≡ some r))
      → (r : Io (Progress V)) × (and_then o rest ≡ some r)
  unfolding and_then
  and_then_total none rest (r, e) f = cc
  and_then_total (some (ok s)) rest t f = f s
  and_then_total (some (err x)) rest t f = (err x, refl)
  and_then_total (some panic) rest t f = (panic, refl)

  tcp_loops_total :
      (cids : List CId) (s : Progress V) → (r : Io (Progress V)) × (tcp_loops cids s ≡ some r)
  unfolding tcp_loops
  tcp_loops_total [] s = (ok s, refl)
  tcp_loops_total (cid ∷ cids) s =
      and_then_total (tcp_loop cid s) (tcp_loops cids) (tcp_loop_total cid s) (tcp_loops_total cids)

  -- The loops of `recv_msgs` end, whatever has come on whatever connection: the fuel never runs out.
  pub server_recv_msgs_total :
      (h : Host) (order : List CId → List CId) (self : Server V)
      → (r : Io (Progress V)) × (recv_msgs h order self ≡ some r)
  unfolding recv_msgs
  server_recv_msgs_total h order self =
      and_then_total (tcp_loops (cids order self) (self, 0)) (udp_loop h)
        (tcp_loops_total (cids order self) (self, 0)) (udp_loop_total h)
