-- ===== src/Server/Mirror/Received.antt =====
-- `recv_msgs` of src/server.rs leaves the tables of connections as they are.
use carrier_pigeon.Base.{
  ℕ, ◌+◌, ◌≡◌, refl, subst, List, [], ◌∷◌, Option, none, some, Io, ok, err, panic, Option-cases,
  Outcome-cases, inl, inr, Bool-cases, ◌==◌, arith,
}
use carrier_pigeon.Base.HashMap
use carrier_pigeon.Base.Results.{would_block}
use carrier_pigeon.Base.Loop.{Flow, next, done, fail, loop, loop_inv}
use carrier_pigeon.Net.{CId, MId}
use carrier_pigeon.Net.Status.{Status}
use carrier_pigeon.Table.{disconnect_type_mid}
use carrier_pigeon.Net.Msg.{ErasedNetMsg, push}
use carrier_pigeon.Time.{Host}
use carrier_pigeon.Tcp
use carrier_pigeon.Server.{Server, cids}
use carrier_pigeon.Server.Receive.{
  Progress, queue, recv_tcp, recv_udp, keep, handle_tcp_msg, tcp_round, handle_udp_msg, udp_round,
  tcp_loop, udp_loop, and_then, tcp_loops, recv_msgs,
}
use carrier_pigeon.Server.Mirror.Kept.{Kept, Kept-refl, Kept-trans, replaced}

module _ {V : Type 0} where
  recv_tcp-Kept : (self : Server V) (cid : CId) → Kept self (recv_tcp self cid).0
  unfolding recv_tcp
  recv_tcp-Kept self cid = elim (Option-cases (HashMap.get self.tcp cid)) [
    | inl gone ↦ rw (recv_tcp, gone) (Kept-refl self)
    | inr (con, held) ↦
        rw (recv_tcp, held)
          (record {
            current = refl;
            waiting = refl;
            cid_addr = refl;
            addr_cid = refl;
            tcp = λ c. replaced self.tcp cid con (Tcp.recv con).0 c held;
          })
  ]

  recv_udp-Kept : (h : Host) (self : Server V) → Kept self (recv_udp h self).0
  unfolding recv_udp
  recv_udp-Kept h self = record {
    current = refl;
    waiting = refl;
    cid_addr = refl;
    addr_cid = refl;
    tcp = λ c. refl;
  }

  -- The state that a round leads to, if it does not panic.
  abbrev Leads : Server V → Flow (Progress V) → Type 0
  Leads self (next s) = Kept self s.0
  Leads self (done s) = Kept self s.0
  Leads self fail = Unit

  keep-Leads :
      (self s : Server V) (i : ℕ) (mid : MId) (m : ErasedNetMsg V)
      → Kept self s
      → Leads self (keep (s, i) mid m)
  unfolding keep
  keep-Leads self s i mid m k = elim (Outcome-cases (push s.msg_buff mid m)) [
    | inl (buff, q) ↦
        rw (keep, q)
          (record {
            current = k.current;
            waiting = k.waiting;
            cid_addr = k.cid_addr;
            addr_cid = k.addr_cid;
            tcp = k.tcp;
          })
    | inr (inl (e, q)) ↦ rw (keep, q) tt
    | inr (inr q) ↦ rw (keep, q) tt
  ]

  queue-Kept :
      (self s : Server V) (cid : CId) (status : Status V)
      → Kept self s
      → Kept self (queue s cid status)
  queue-Kept self s cid status k = record {
    current = k.current;
    waiting = k.waiting;
    cid_addr = k.cid_addr;
    addr_cid = k.addr_cid;
    tcp = k.tcp;
  }

  handle_tcp_msg-Leads :
      (self s : Server V) (r : Io (MId × ErasedNetMsg V)) (i : ℕ) (cid : CId)
      → Kept self s
      → Leads self (handle_tcp_msg (s, r) i cid)
  unfolding handle_tcp_msg
  handle_tcp_msg-Leads self s (ok (mid, m)) i cid k =
      elim (Bool-cases (mid == disconnect_type_mid)) [
        | inl last ↦ rw (handle_tcp_msg, last) (queue-Kept self s cid (Status.disconnected m.msg) k)
        | inr more ↦ rw (handle_tcp_msg, more) (keep-Leads self s (i + 1) mid m k)
      ]
  handle_tcp_msg-Leads self s (err would_block) i cid k = k
  handle_tcp_msg-Leads self s (err e) i cid k = queue-Kept self s cid (Status.dropped e) k
  handle_tcp_msg-Leads self s panic i cid k = tt

  handle_udp_msg-Leads :
      (self s : Server V) (r : Io (MId × ErasedNetMsg V)) (i : ℕ)
      → Kept self s
      → Leads self (handle_udp_msg (s, r) i)
  unfolding handle_udp_msg
  handle_udp_msg-Leads self s (ok (mid, m)) i k = keep-Leads self s (i + 1) mid m k
  handle_udp_msg-Leads self s (err e) i k = k
  handle_udp_msg-Leads self s panic i k = tt

  -- A loop whose rounds all keep the tables keeps them.
  loop-Kept :
      (body : Progress V → Flow (Progress V))
      → ((s : Progress V) → Leads s.0 (body s))
      → (fuel : ℕ) (s z : Progress V) → loop fuel body s ≡ some (ok z)
      → Kept s.0 z.0
  loop-Kept body leads fuel s z e =
      loop_inv (λ t. Kept s.0 t.0) body (λ t t' k q. Kept-trans k (subst (Leads t.0) q (leads t)))
        (λ t t' k q. Kept-trans k (subst (Leads t.0) q (leads t))) fuel s z e (Kept-refl s.0)

  tcp_loop-Kept : (cid : CId) (s z : Progress V) → tcp_loop cid s ≡ some (ok z) → Kept s.0 z.0
  unfolding tcp_loop tcp_round
  tcp_loop-Kept cid s z e =
      loop-Kept (tcp_round cid)
        (λ t.
          handle_tcp_msg-Leads t.0 (recv_tcp t.0 cid).0 (recv_tcp t.0 cid).1 t.1 cid
            (recv_tcp-Kept t.0 cid))
        _ s z e

  udp_loop-Kept : (h : Host) (s z : Progress V) → udp_loop h s ≡ some (ok z) → Kept s.0 z.0
  unfolding udp_loop udp_round
  udp_loop-Kept h s z e =
      loop-Kept (udp_round h)
        (λ t.
          handle_udp_msg-Leads t.0 (recv_udp h t.0).0 (recv_udp h t.0).1 t.1 (recv_udp-Kept h t.0))
        _ s z e

  and_then-Kept :
      (s z : Progress V) (o : Option (Io (Progress V)))
      (rest : Progress V → Option (Io (Progress V)))
      → ((t : Progress V) → o ≡ some (ok t) → Kept s.0 t.0)
      → ((t : Progress V) → rest t ≡ some (ok z) → Kept t.0 z.0)
      → and_then o rest ≡ some (ok z)
      → Kept s.0 z.0
  unfolding and_then
  and_then-Kept s z none rest f g e = absurd (ground arith)
  and_then-Kept s z (some (ok t)) rest f g e = Kept-trans (f t refl) (g t e)
  and_then-Kept s z (some (err x)) rest f g e = absurd (ground arith)
  and_then-Kept s z (some panic) rest f g e = absurd (ground arith)

  tcp_loops-Kept :
      (cids : List CId) (s z : Progress V) → tcp_loops cids s ≡ some (ok z) → Kept s.0 z.0
  unfolding tcp_loops
  tcp_loops-Kept [] s z e =
      let same : s ≡ z = ground (arith, e) in
      subst (λ (t : Progress V). Kept s.0 t.0) same (Kept-refl s.0)
  tcp_loops-Kept (cid ∷ cids) s z e =
      and_then-Kept s z (tcp_loop cid s) (tcp_loops cids) (λ t. tcp_loop-Kept cid s t)
        (λ t. tcp_loops-Kept cids t z) e

  pub recv_msgs-Kept :
      (h : Host) (order : List CId → List CId) (self : Server V) (z : Progress V)
      → recv_msgs h order self ≡ some (ok z)
      → Kept self z.0
  unfolding recv_msgs
  recv_msgs-Kept h order self z e =
      and_then-Kept (self, 0) z (tcp_loops (cids order self) (self, 0)) (udp_loop h)
        (λ t. tcp_loops-Kept (cids order self) (self, 0) t) (λ t. udp_loop-Kept h t z) e
