-- ===== src/Server/Typed/Sent.antt =====
-- Sending and disconnecting leave the buffers of a server of src/server.rs as they are.
use carrier_pigeon.Base.{
  ℕ, filter_by, refl, List, [], ◌∷◌, Io, ok, err, panic, Option-cases, Outcome-cases, Bool-cases,
  inl, inr,
}
use carrier_pigeon.Base.HashMap
use carrier_pigeon.Net.{CId, MId, Any, Transport}
use carrier_pigeon.Net.Transport.{tcp, udp}
use carrier_pigeon.Net.CIdSpec.{CIdSpec, matches}
use carrier_pigeon.Time.{Host}
use carrier_pigeon.Table.Parts.Codec.{encode}
use carrier_pigeon.Tcp
use carrier_pigeon.Server.{Server, alive, cids}
use carrier_pigeon.Server.Send.{
  send_tcp, send_udp, send_over, send_to, go_on, send_each, send_spec, close_con, disconnect,
}
use carrier_pigeon.Server.Typed.{Same, Same-refl, Same-trans}

module _ {V : Type 0} where
  send_over-Same :
      (h : Host) (self : Server V) (cid : CId) (way : Io (MId × Transport × List ℕ))
      → Same self (send_over h self cid way).0
  unfolding send_over send_tcp send_udp
  send_over-Same h self cid (ok (mid, tcp, b)) = elim (Option-cases (HashMap.get self.tcp cid)) [
    | inl gone ↦ rw (send_over, send_tcp, gone) (Same-refl self)
    | inr (con, held) ↦ rw (send_over, send_tcp, held) (record { parts = refl; msg_buff = refl })
  ]
  send_over-Same h self cid (ok (mid, udp, b)) =
      elim (Option-cases (HashMap.get self.cid_addr cid)) [
        | inl gone ↦ rw (send_over, send_udp, gone) (Same-refl self)
        | inr (addr, known) ↦
            rw (send_over, send_udp, known) (record { parts = refl; msg_buff = refl })
      ]
  send_over-Same h self cid (err e) = Same-refl self
  send_over-Same h self cid panic = Same-refl self

  pub send_to-Same :
      (h : Host) (self : Server V) (cid : CId) (msg : Any V) → Same self (send_to h self cid msg).0
  unfolding send_to
  send_to-Same h self cid msg = send_over-Same h self cid (encode self.parts msg)

  go_on-Same :
      (self : Server V) (r : Server V × Io (Unit {0})) (rest : Server V → Server V × Io (Unit {0}))
      → Same self r.0
      → ((s : Server V) → Same s (rest s).0)
      → Same self (go_on r rest).0
  unfolding go_on
  go_on-Same self (s, ok _) rest k f = Same-trans k (f s)
  go_on-Same self (s, err e) rest k f = k
  go_on-Same self (s, panic) rest k f = k

  pub send_each-Same :
      (h : Host) (self : Server V) (cids : List CId) (msg : Any V)
      → Same self (send_each h self cids msg).0
  unfolding send_each
  send_each-Same h self [] msg = Same-refl self
  send_each-Same h self (cid ∷ cids) msg =
      go_on-Same self (send_to h self cid msg) (λ s. send_each h s cids msg)
        (send_to-Same h self cid msg) (λ s. send_each-Same h s cids msg)

  pub send_spec-Same :
      (h : Host) (order : List CId → List CId) (self : Server V) (spec : CIdSpec) (msg : Any V)
      → Same self (send_spec h order self spec msg).0
  unfolding send_spec
  send_spec-Same h order self spec msg =
      send_each-Same h self (filter_by (λ cid. matches spec cid) (cids order self)) msg

  close_con-Same :
      (self : Server V) (cid : CId) (r : Server V × Io (Unit {0}))
      → Same self r.0
      → Same self (close_con cid r).0
  unfolding close_con
  close_con-Same self cid (s, ok _) k = elim (Option-cases (HashMap.get s.tcp cid)) [
    | inl gone ↦ rw (close_con, gone) k
    | inr (con, held) ↦ elim (Outcome-cases (Tcp.close con).1) [
      | inl (u, q) ↦ rw (close_con, held, q) (record { parts = k.parts; msg_buff = k.msg_buff })
      | inr (inl (e, q)) ↦
          rw (close_con, held, q) (record { parts = k.parts; msg_buff = k.msg_buff })
      | inr (inr q) ↦ rw (close_con, held, q) (record { parts = k.parts; msg_buff = k.msg_buff })
    ]
  ]
  close_con-Same self cid (s, err e) k = k
  close_con-Same self cid (s, panic) k = k

  pub disconnect-Same :
      (h : Host) (self : Server V) (msg : Any V) (cid : CId)
      → Same self (disconnect h self msg cid).0
  unfolding disconnect
  disconnect-Same h self msg cid = elim (Bool-cases (alive self cid)) [
    | inl up ↦
        rw (disconnect, up)
          (close_con-Same self cid (send_to h self cid msg) (send_to-Same h self cid msg))
    | inr gone ↦ rw (disconnect, gone) (Same-refl self)
  ]
