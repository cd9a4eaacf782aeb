-- ===== src/Server/Send.antt =====
-- src/server.rs: sending, and disconnecting a client.
pub mod Laws
pub mod Datagrams
pub mod Shut
pub mod Posts
pub mod Mail
mod Tests
use carrier_pigeon.Base.{
  ℕ, List, [], ◌∷◌, ◌++◌, Bool, Option, none, some, Io, ok, err, panic, if◌then◌else◌, filter_by,
}
use carrier_pigeon.Base.Results.{invalid_data}
use carrier_pigeon.Base.HashMap
use carrier_pigeon.Net.{CId, MId, Any, Transport}
use carrier_pigeon.Net.Transport.{tcp, udp}
use carrier_pigeon.Net.Status.{Status}
use carrier_pigeon.Net.CIdSpec.{CIdSpec, matches}
use carrier_pigeon.Time.{Host}
use carrier_pigeon.Table.Parts.Codec.{encode}
use carrier_pigeon.Tcp
use carrier_pigeon.Udp
use carrier_pigeon.Server.{Server, alive, cids}

module _ {V : Type 0} where
  unfoldable pub send_tcp : Server V → CId → MId → List ℕ → Server V × Io (Unit {0})
  send_tcp self cid mid payload = elim (HashMap.get self.tcp cid) [
    | none ↦ (self, err invalid_data)
    | some con ↦
        let (con', result) = Tcp.send con mid payload in
        (record self { tcp = HashMap.insert self.tcp cid con' }, result)
  ]

  unfoldable pub send_udp : Host → Server V → CId → MId → List ℕ → Server V × Io (Unit {0})
  send_udp h self cid mid payload = elim (HashMap.get self.cid_addr cid) [
    | none ↦ (self, err invalid_data)
    | some addr ↦
        let (con, result) = Udp.send_to h self.udp addr mid payload in
        (record self { udp = con }, result)
  ]

  -- `send_tcp` or `send_udp`, as the table says.
  unfoldable pub send_over :
      Host → Server V → CId → Io (MId × Transport × List ℕ) → Server V × Io (Unit {0})
  unfolding send_tcp send_udp
  send_over h self cid (ok (mid, tcp, b)) = send_tcp self cid mid b
  send_over h self cid (ok (mid, udp, b)) = send_udp h self cid mid b
  send_over h self cid (err e) = (self, err e)
  send_over h self cid panic = (self, panic)

  unfoldable pub send_to : Host → Server V → CId → Any V → Server V × Io (Unit {0})
  unfolding send_over
  send_to h self cid msg = send_over h self cid (encode self.parts msg)

  -- `self.send_to(cid, msg)?;` and what follows.
  unfoldable pub go_on :
      Server V × Io (Unit {0}) → (Server V → Server V × Io (Unit {0})) → Server V × Io (Unit {0})
  go_on (self, ok _) rest = rest self
  go_on (self, err e) rest = (self, err e)
  go_on (self, panic) rest = (self, panic)

  -- The loop of `broadcast` and `send_spec`, which stops at the first error.
  unfoldable pub send_each : Host → Server V → List CId → Any V → Server V × Io (Unit {0})
  unfolding go_on
  send_each h self [] msg = (self, ok tt)
  send_each h self (cid ∷ cids) msg =
      go_on (send_to h self cid msg) (λ self'. send_each h self' cids msg)

  unfoldable pub broadcast :
      Host → (List CId → List CId) → Server V → Any V → Server V × Io (Unit {0})
  broadcast h order self msg = send_each h self (cids order self) msg

  unfoldable pub send_spec :
      Host → (List CId → List CId) → Server V → CIdSpec → Any V → Server V × Io (Unit {0})
  send_spec h order self spec msg =
      send_each h self (filter_by (λ cid. matches spec cid) (cids order self)) msg

  -- `disconnect` once the message is sent.
  unfoldable pub close_con : CId → Server V × Io (Unit {0}) → Server V × Io (Unit {0})
  close_con cid (self, ok _) = elim (HashMap.get self.tcp cid) [
    | none ↦ (self, panic)
    | some con ↦
        let (con', result) = Tcp.close con in
        let closed = record self { tcp = HashMap.insert self.tcp cid con' } in
        elim result [
          | ok _ ↦ (
            record closed { disconnected = self.disconnected ++ (cid, Status.closed) ∷ [] },
            ok tt,
          )
          | err e ↦ (closed, err e)
          | panic ↦ (closed, panic)
        ]
  ]
  close_con cid (self, err e) = (self, err e)
  close_con cid (self, panic) = (self, panic)

  unfoldable pub disconnect : Host → Server V → Any V → CId → Server V × Io (Unit {0})
  unfolding close_con
  disconnect h self discon_msg cid =
      if alive self cid
      then close_con cid (send_to h self cid discon_msg)
      else (self, err invalid_data)
