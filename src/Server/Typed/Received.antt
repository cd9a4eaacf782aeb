-- ===== src/Server/Typed/Received.antt =====
-- What `recv_msgs` of src/server.rs puts into the buffers.
use carrier_pigeon.Base.{
  ℕ, ◌≡◌, sym, ◌∙◌, ap, List, none, some, Io, ok, err, panic, Outcome-cases, Option-cases,
  Bool-cases, get_elem?, inl, inr, ◌>>=◌, arith,
}
use carrier_pigeon.Base.HashMap
use carrier_pigeon.Net.{CId, MId, Any}
use carrier_pigeon.Net.Msg.{ErasedNetMsg}
use carrier_pigeon.Time.{Host}
use carrier_pigeon.Table.{Bincode, Entry}
use carrier_pigeon.Table.Parts.{MsgTableParts}
use carrier_pigeon.Table.Parts.Codec.{decode}
use carrier_pigeon.Table.Parts.Typed.{IsBuilt, decode-tid}
use carrier_pigeon.Tcp
use carrier_pigeon.Udp
use carrier_pigeon.Server.{Server, alive}
use carrier_pigeon.Server.Receive.{recv_tcp, recv_udp, from_addr}
use carrier_pigeon.Server.Typed.{Holds}

module _ {V : Type 0} (bin : Bincode V) (es : List (Entry V)) (p : MsgTableParts V) where
  -- A result that is a message has the type of its number.
  abbrev pub Right : Io (MId × ErasedNetMsg V) → Type 0
  Right (ok (mid, m)) = (e : Entry V) × (get_elem? es mid ≡ some e) × (m.msg.tid ≡ e.tid)
  Right (err e) = Unit
  Right panic = Unit

  decoded-Right :
      (b : IsBuilt bin es p) (self : Server V) (cid : CId) (mid : MId) (bytes : List ℕ)
      → self.parts ≡ p
      → Right (
          decode self.parts mid bytes >>= λ msg.
          ok (mid, record { cid = cid; time = none; msg = msg }))
  decoded-Right b self cid mid bytes same = elim (Outcome-cases (decode self.parts mid bytes)) [
    | inl (msg, d) ↦
        rw d (decode-tid bin es p mid bytes msg b (ap (λ q. decode q mid bytes) (sym same) ∙ d))
    | inr (inl (e, d)) ↦ rw d tt
    | inr (inr d) ↦ rw d tt
  ]

  from_addr-msg :
      (self : Server V) (from time : ℕ) (msg : Any V) (m : ErasedNetMsg V)
      → from_addr self from time msg ≡ ok m
      → m.msg ≡ msg
  unfolding from_addr
  from_addr-msg self from time msg m e = elim (Option-cases (HashMap.get self.addr_cid from)) [
    | inl gone ↦ absurd (ground arith)
    | inr (cid, known) ↦ elim (Bool-cases (alive self cid)) [
      | inl up ↦ ground (arith, rw (from_addr, known, up) at e)
      | inr down ↦ absurd (ground (arith, rw (from_addr, known, down) at e))
    ]
  ]

  addressed-Right :
      (b : IsBuilt bin es p) (self : Server V) (from time : ℕ) (mid : MId) (bytes : List ℕ)
      → self.parts ≡ p
      → Right
          (decode self.parts mid bytes >>= λ msg. from_addr self from time msg >>= λ m. ok (mid, m))
  addressed-Right b self from time mid bytes same =
      elim (Outcome-cases (decode self.parts mid bytes)) [
        | inl (msg, d) ↦ elim (Outcome-cases (from_addr self from time msg)) [
          | inl (m, f) ↦
              let (e, at_, tid) =
                decode-tid bin es p mid bytes msg b (ap (λ q. decode q mid bytes) (sym same) ∙ d) in
              rw (d, f) ((e, at_, ap (λ a. a.tid) (from_addr-msg self from time msg m f) ∙ tid))
          | inr (inl (x, f)) ↦ rw (d, f) tt
          | inr (inr f) ↦ rw (d, f) tt
        ]
        | inr (inl (e, d)) ↦ rw d tt
        | inr (inr d) ↦ rw d tt
      ]

  pub recv_tcp-Right :
      (b : IsBuilt bin es p) (self : Server V) (cid : CId)
      → Holds es p self
      → Holds es p (recv_tcp self cid).0 × Right (recv_tcp self cid).1
  unfolding recv_tcp
  recv_tcp-Right b self cid k = elim (Option-cases (HashMap.get self.tcp cid)) [
    | inl gone ↦ rw (recv_tcp, gone) (k, tt)
    | inr (con, held) ↦
        rw (recv_tcp, held)
          (
            record { same = k.same; typed = k.typed },
            (elim (Outcome-cases (Tcp.recv con).1) [
              | inl (m, q) ↦ rw q (decoded-Right b self cid m.0 m.1 k.same)
              | inr (inl (e, q)) ↦ rw q tt
              | inr (inr q) ↦ rw q tt
            ]),
          )
  ]

  pub recv_udp-Right :
      (b : IsBuilt bin es p) (h : Host) (self : Server V)
      → Holds es p self
      → Holds es p (recv_udp h self).0 × Right (recv_udp h self).1
  unfolding recv_udp
  recv_udp-Right b h self k = (
    record { same = k.same; typed = k.typed },
    (elim (Outcome-cases (Udp.recv_from h self.udp).1) [
      | inl ((from, mid, time, bytes), q) ↦ rw q (addressed-Right b self from time mid bytes k.same)
      | inr (inl (e, q)) ↦ rw q tt
      | inr (inr q) ↦ rw q tt
    ]),
  )
