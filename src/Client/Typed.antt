-- ===== src/Client/Typed.antt =====
-- What the buffers of a client of src/client.rs hold, in every state that it goes through.
use carrier_pigeon.Base.{
  ℕ, ◌+◌, ◌≡◌, sym, ◌∙◌, ap, subst, inl, inr, List, Option, none, some, Io, ok, err, panic,
  Outcome-cases, Option-cases, Bool-cases, get_elem?, ◌==◌, arith, ◌>>=◌,
}
use carrier_pigeon.Base.Results.{would_block}
use carrier_pigeon.Base.Loop.{Flow, next, done, fail, loop, loop_inv}
use carrier_pigeon.Net.{MId}
use carrier_pigeon.Net.Msg.{ErasedNetMsg}
use carrier_pigeon.Time.{Host}
use carrier_pigeon.Table.{Bincode, Entry, disconnect_type_mid}
use carrier_pigeon.Table.Parts.{MsgTableParts}
use carrier_pigeon.Table.Parts.Codec.{decode}
use carrier_pigeon.Table.Parts.Typed.{IsTyped, IsBuilt, push-IsTyped, decode-tid}
use carrier_pigeon.Tcp
use carrier_pigeon.Udp
use carrier_pigeon.Client.{Client, recv_tcp, recv_udp, is_open, from_server}
use carrier_pigeon.Client.Receive.{
  Progress, keep, tcp_arm, tcp_round, udp_arm, udp_round, tcp_loop, udp_loop, recv_msgs,
}

module _ {V : Type 0} where
  recv_msgs_ok :
      (h : Host) (self : Client V) (z : Progress V)
      → recv_msgs h self ≡ some (ok z)
      → (s : Progress V) × (tcp_loop (self, 0) ≡ some (ok s)) × (udp_loop h s ≡ some (ok z))
  unfolding recv_msgs
  recv_msgs_ok h self z e = elim (Option-cases (tcp_loop (self, 0))) [
    | inl out ↦ absurd (ground arith)
    | inr (r, q) ↦ elim (Outcome-cases r) [
      | inl (s, g) ↦ (s, ground arith, ground arith)
      | inr (inl (x, g)) ↦ absurd (ground arith)
      | inr (inr g) ↦ absurd (ground arith)
    ]
  ]

module _ {V : Type 0} (bin : Bincode V) (es : List (Entry V)) (p : MsgTableParts V) where
  -- The table is as it was, and the buffers hold messages of their types.
  pub record Holds (self : Client V) : Type 0 where
    pub same : self.parts ≡ p
    pub typed : IsTyped es self.msg_buff

  -- What a round leads to, if it does not panic.
  abbrev Leads : Flow (Progress V) → Type 0
  Leads (next s) = Holds s.0
  Leads (done s) = Holds s.0
  Leads fail = Unit

  -- A result that is a message has the type of its number.
  abbrev pub Right : Io (MId × ErasedNetMsg V) → Type 0
  Right (ok (mid, m)) = (e : Entry V) × (get_elem? es mid ≡ some e) × (m.msg.tid ≡ e.tid)
  Right (err e) = Unit
  Right panic = Unit

  -- The end of `recv_tcp` and `recv_udp`.
  decoded-Right :
      (b : IsBuilt bin es p) (self : Client V) (time : Option ℕ) (mid : MId) (bytes : List ℕ)
      → self.parts ≡ p
      → Right (decode self.parts mid bytes >>= λ msg. ok (mid, from_server time msg))
  decoded-Right b self time mid bytes same = elim (Outcome-cases (decode self.parts mid bytes)) [
    | inl (msg, d) ↦
        rw d (decode-tid bin es p mid bytes msg b (ap (λ q. decode q mid bytes) (sym same) ∙ d))
    | inr (inl (e, d)) ↦ rw d tt
    | inr (inr d) ↦ rw d tt
  ]

  pub recv_tcp-Right :
      (b : IsBuilt bin es p) (self : Client V)
      → Holds self
      → Holds (recv_tcp self).0 × Right (recv_tcp self).1
  unfolding recv_tcp
  recv_tcp-Right b self k = (
    record { same = k.same; typed = k.typed },
    (elim (Outcome-cases (Tcp.recv self.tcp).1) [
      | inl (m, q) ↦ rw q (decoded-Right b self none m.0 m.1 k.same)
      | inr (inl (e, q)) ↦ rw q tt
      | inr (inr q) ↦ rw q tt
    ]),
  )

  recv_udp-Right :
      (b : IsBuilt bin es p) (h : Host) (self : Client V)
      → Holds self
      → Holds (recv_udp h self).0 × Right (recv_udp h self).1
  unfolding recv_udp
  recv_udp-Right b h self k = (
    record { same = k.same; typed = k.typed },
    (elim (Outcome-cases (Udp.recv h self.udp).1) [
      | inl (m, q) ↦ rw q (decoded-Right b self (some m.1) m.0 m.2 k.same)
      | inr (inl (e, q)) ↦ rw q tt
      | inr (inr q) ↦ rw q tt
    ]),
  )

  keep-Leads :
      (self : Client V) (i : ℕ) (mid : MId) (m : ErasedNetMsg V)
      → Holds self
      → Right (ok (mid, m))
      → Leads (keep (self, i) mid m)
  unfolding keep
  keep-Leads self i mid m k (e, at, tid) =
      let (buff, pushed, typed) = push-IsTyped es self.msg_buff mid e m k.typed at tid in
      rw (keep, pushed) (record { same = k.same; typed = typed })

  tcp_arm-Leads :
      (self : Client V) (r : Io (MId × ErasedNetMsg V)) (i : ℕ)
      → Holds self
      → Right r
      → Leads (tcp_arm (self, r) i)
  unfolding tcp_arm
  tcp_arm-Leads self (ok (mid, m)) i k right = elim (Bool-cases (mid == disconnect_type_mid)) [
    | inl last ↦ rw (tcp_arm, last) (record { same = k.same; typed = k.typed })
    | inr more ↦ rw (tcp_arm, more) (keep-Leads self (i + 1) mid m k right)
  ]
  tcp_arm-Leads self (err would_block) i k right = k
  tcp_arm-Leads self (err e) i k right = record { same = k.same; typed = k.typed }
  tcp_arm-Leads self panic i k right = tt

  udp_arm-Leads :
      (self : Client V) (r : Io (MId × ErasedNetMsg V)) (i : ℕ)
      → Holds self
      → Right r
      → Leads (udp_arm (self, r) i)
  unfolding udp_arm
  udp_arm-Leads self (ok (mid, m)) i k right = keep-Leads self (i + 1) mid m k right
  udp_arm-Leads self (err would_block) i k right = k
  udp_arm-Leads self (err e) i k right = k
  udp_arm-Leads self panic i k right = tt

  tcp_round-Leads : (b : IsBuilt bin es p) (s : Progress V) → Holds s.0 → Leads (tcp_round s)
  unfolding tcp_round
  tcp_round-Leads b s k = elim (Bool-cases (is_open s.0)) [
    | inl up ↦
        let (k', right) = recv_tcp-Right b s.0 k in
        rw (tcp_round, up) (tcp_arm-Leads (recv_tcp s.0).0 (recv_tcp s.0).1 s.1 k' right)
    | inr shut ↦ rw (tcp_round, shut) k
  ]

  udp_round-Leads :
      (b : IsBuilt bin es p) (h : Host) (s : Progress V) → Holds s.0 → Leads (udp_round h s)
  unfolding udp_round
  udp_round-Leads b h s k = elim (Bool-cases (is_open s.0)) [
    | inl up ↦
        let (k', right) = recv_udp-Right b h s.0 k in
        rw (udp_round, up) (udp_arm-Leads (recv_udp h s.0).0 (recv_udp h s.0).1 s.1 k' right)
    | inr shut ↦ rw (udp_round, shut) k
  ]

  loop-Holds :
      (body : Progress V → Flow (Progress V))
      → ((s : Progress V) → Holds s.0 → Leads (body s))
      → (fuel : ℕ) (s z : Progress V) → loop fuel body s ≡ some (ok z)
      → Holds s.0
      → Holds z.0
  loop-Holds body leads =
      loop_inv (λ s. Holds s.0) body (λ s s' k e. subst Leads e (leads s k))
        (λ s s' k e. subst Leads e (leads s k))

  pub recv_msgs-Holds :
      (b : IsBuilt bin es p) (h : Host) (self : Client V) (z : Progress V)
      → recv_msgs h self ≡ some (ok z)
      → Holds self
      → Holds z.0
  unfolding tcp_loop udp_loop
  recv_msgs-Holds b h self z e k =
      let (s, first, second) = recv_msgs_ok h self z e in
      loop-Holds (udp_round h) (udp_round-Leads b h) _ s z second
        (loop-Holds tcp_round (tcp_round-Leads b) _ (self, 0) s first k)
