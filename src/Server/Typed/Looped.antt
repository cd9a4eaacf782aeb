-- ===== src/Server/Typed/Looped.antt =====
-- The loops of `recv_msgs` in src/server.rs, and what they put into the buffers.
use carrier_pigeon.Base.{
  ℕ, ◌+◌, ◌≡◌, refl, subst, List, [], ◌∷◌, Option, none, some, Io, ok, err, panic, Bool-cases, ◌==◌,
  inl, inr, arith,
}
use carrier_pigeon.Base.Results.{would_block}
use carrier_pigeon.Base.Loop.{Flow, next, done, fail, loop, loop_inv}
use carrier_pigeon.Net.{CId, MId}
use carrier_pigeon.Net.Msg.{ErasedNetMsg}
use carrier_pigeon.Time.{Host}
use carrier_pigeon.Table.{Bincode, Entry, disconnect_type_mid}
use carrier_pigeon.Table.Parts.{MsgTableParts}
use carrier_pigeon.Table.Parts.Typed.{IsBuilt, push-IsTyped}
use carrier_pigeon.Server.{Server, cids}
use carrier_pigeon.Server.Receive.{
  Progress, recv_tcp, recv_udp, keep, handle_tcp_msg, tcp_round, handle_udp_msg, udp_round,
  tcp_loop, udp_loop, and_then, tcp_loops, recv_msgs,
}
use carrier_pigeon.Server.Typed.{Holds}
use carrier_pigeon.Server.Typed.Received.{Right, recv_tcp-Right, recv_udp-Right}

module _ {V : Type 0} (bin : Bincode V) (es : List (Entry V)) (p : MsgTableParts V) where
  -- What a round leads to, if it does not panic.
  abbrev Leads : Flow (Progress V) → Type 0
  Leads (next s) = Holds es p s.0
  Leads (done s) = Holds es p s.0
  Leads fail = Unit

  keep-Leads :
      (self : Server V) (i : ℕ) (mid : MId) (m : ErasedNetMsg V)
      → Holds es p self
      → Right bin es p (ok (mid, m))
      → Leads (keep (self, i) mid m)
  unfolding keep
  keep-Leads self i mid m k (e, here, tid) =
      let (buff, pushed, typed) = push-IsTyped es self.msg_buff mid e m k.typed here tid in
      rw (keep, pushed) (record { same = k.same; typed = typed })

  handle_tcp_msg-Leads :
      (self : Server V) (r : Io (MId × ErasedNetMsg V)) (i : ℕ) (cid : CId)
      → Holds es p self
      → Right bin es p r
      → Leads (handle_tcp_msg (self, r) i cid)
  unfolding handle_tcp_msg
  handle_tcp_msg-Leads self (ok (mid, m)) i cid k right =
      elim (Bool-cases (mid == disconnect_type_mid)) [
        | inl last ↦ rw (handle_tcp_msg, last) (record { same = k.same; typed = k.typed })
        | inr more ↦ rw (handle_tcp_msg, more) (keep-Leads self (i + 1) mid m k right)
      ]
  handle_tcp_msg-Leads self (err would_block) i cid k right = k
  handle_tcp_msg-Leads self (err e) i cid k right = record { same = k.same; typed = k.typed }
  handle_tcp_msg-Leads self panic i cid k right = tt

  handle_udp_msg-Leads :
      (self : Server V) (r : Io (MId × ErasedNetMsg V)) (i : ℕ)
      → Holds es p self
      → Right bin es p r
      → Leads (handle_udp_msg (self, r) i)
  unfolding handle_udp_msg
  handle_udp_msg-Leads self (ok (mid, m)) i k right = keep-Leads self (i + 1) mid m k right
  handle_udp_msg-Leads self (err e) i k right = k
  handle_udp_msg-Leads self panic i k right = tt

  loop-Holds :
      (body : Progress V → Flow (Progress V))
      → ((s : Progress V) → Holds es p s.0 → Leads (body s))
      → (fuel : ℕ) (s z : Progress V) → loop fuel body s ≡ some (ok z)
      → Holds es p s.0
      → Holds es p z.0
  loop-Holds body leads =
      loop_inv (λ s. Holds es p s.0) body (λ s s' k e. subst Leads e (leads s k))
        (λ s s' k e. subst Leads e (leads s k))

  tcp_loop-Holds :
      (b : IsBuilt bin es p) (cid : CId) (s z : Progress V)
      → tcp_loop cid s ≡ some (ok z)
      → Holds es p s.0
      → Holds es p z.0
  unfolding tcp_loop tcp_round
  tcp_loop-Holds b cid s z e =
      loop-Holds (tcp_round cid)
        (λ t k.
          let (k', right) = recv_tcp-Right bin es p b t.0 cid k in
          handle_tcp_msg-Leads (recv_tcp t.0 cid).0 (recv_tcp t.0 cid).1 t.1 cid k' right)
        _ s z e

  udp_loop-Holds :
      (b : IsBuilt bin es p) (h : Host) (s z : Progress V)
      → udp_loop h s ≡ some (ok z)
      → Holds es p s.0
      → Holds es p z.0
  unfolding udp_loop udp_round
  udp_loop-Holds b h s z e =
      loop-Holds (udp_round h)
        (λ t k.
          let (k', right) = recv_udp-Right bin es p b h t.0 k in
          handle_udp_msg-Leads (recv_udp h t.0).0 (recv_udp h t.0).1 t.1 k' right)
        _ s z e

  and_then-Holds :
      (z : Progress V) (o : Option (Io (Progress V))) (rest : Progress V → Option (Io (Progress V)))
      → ((t : Progress V) → o ≡ some (ok t) → Holds es p t.0)
      → ((t : Progress V) → rest t ≡ some (ok z) → Holds es p t.0 → Holds es p z.0)
      → and_then o rest ≡ some (ok z)
      → Holds es p z.0
  unfolding and_then
  and_then-Holds z none rest f g e = absurd (ground arith)
  and_then-Holds z (some (ok t)) rest f g e = g t e (f t refl)
  and_then-Holds z (some (err x)) rest f g e = absurd (ground arith)
  and_then-Holds z (some panic) rest f g e = absurd (ground arith)

  tcp_loops-Holds :
      (b : IsBuilt bin es p) (cids : List CId) (s z : Progress V)
      → tcp_loops cids s ≡ some (ok z)
      → Holds es p s.0
      → Holds es p z.0
  unfolding tcp_loops
  tcp_loops-Holds b [] s z e k =
      let same : s ≡ z = ground (arith, e) in subst (λ (t : Progress V). Holds es p t.0) same k
  tcp_loops-Holds b (cid ∷ cids) s z e k =
      and_then-Holds z (tcp_loop cid s) (tcp_loops cids) (λ t q. tcp_loop-Holds b cid s t q k)
        (λ t q. tcp_loops-Holds b cids t z q) e

  pub recv_msgs-Holds :
      (b : IsBuilt bin es p) (h : Host) (order : List CId → List CId) (self : Server V)
      (z : Progress V)
      → recv_msgs h order self ≡ some (ok z)
      → Holds es p self
      → Holds es p z.0
  unfolding recv_msgs
  recv_msgs-Holds b h order self z e k =
      and_then-Holds z (tcp_loops (cids order self) (self, 0)) (udp_loop h)
        (λ t q. tcp_loops-Holds b (cids order self) (self, 0) t q k)
        (λ t q. udp_loop-Holds b h t z q) e
