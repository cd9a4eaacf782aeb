-- ===== src/Server/Receive.antt =====
-- src/server.rs: what a server does with what has come.
pub mod Laws
pub mod Took
pub mod Round
pub mod Inbox
pub mod Walk
pub mod Mail
pub mod Panics
mod Tests
pub mod Delivery
pub mod Datagram
use carrier_pigeon.Base.{
  ℕ, ◌+◌, List, [], ◌∷◌, ◌++◌, Bool, true, false, Option, none, some, Io, ok, err, panic,
  if◌then◌else◌, ◌==◌, length, ◌>>=◌, filter_by,
}
use carrier_pigeon.Base.Results.{would_block, invalid_data, other}
use carrier_pigeon.Base.HashMap
use carrier_pigeon.Base.Loop.{Flow, next, done, fail, loop}
use carrier_pigeon.Net.{MId, CId, TypeId, Any}
use carrier_pigeon.Net.Status.{Status}
use carrier_pigeon.Net.CIdSpec.{CIdSpec, matches}
use carrier_pigeon.Net.Msg as Msg
use carrier_pigeon.Net.Msg.{ErasedNetMsg, NetMsg}
use carrier_pigeon.Time.{Host}
use carrier_pigeon.Table.{disconnect_type_mid}
use carrier_pigeon.Table.Parts.{valid_tid}
use carrier_pigeon.Table.Parts.Codec.{decode, index, mid_of}
use carrier_pigeon.Tcp
use carrier_pigeon.Udp
use carrier_pigeon.Server.{Server, alive, cids}

-- A server and the count of messages so far (a `u32`, whose overflow is not modelled).
abbrev pub Progress : Type 0 → Type 0
Progress V = Server V × ℕ

module _ {V : Type 0} where
  unfoldable pub recv_tcp : Server V → CId → Server V × Io (MId × ErasedNetMsg V)
  recv_tcp self cid = elim (HashMap.get self.tcp cid) [
    | none ↦ (self, err invalid_data)
    | some con ↦
        let (con', result) = Tcp.recv con in
        (
          record self { tcp = HashMap.insert self.tcp cid con' },
          result >>= λ m. decode self.parts m.0 m.1 >>= λ msg.
              ok (m.0, record { cid = cid; time = none; msg = msg }),
        )
  ]

  -- The message of a sender that is connected.
  unfoldable pub from_addr : Server V → ℕ → ℕ → Any V → Io (ErasedNetMsg V)
  from_addr self from time msg = elim (HashMap.get self.addr_cid from) [
    | none ↦ err other
    | some cid ↦
        if alive self cid then ok (record { cid = cid; time = some time; msg = msg }) else err other
  ]

  unfoldable pub recv_udp : Host → Server V → Server V × Io (MId × ErasedNetMsg V)
  unfolding from_addr
  recv_udp h self =
      let (con, result) = Udp.recv_from h self.udp in
      (
        record self { udp = con },
        result >>= λ (from, mid, time, bytes). decode self.parts mid bytes >>= λ msg.
            from_addr self from time msg >>= λ net_msg. ok (mid, net_msg),
      )

  -- `self.msg_buff[mid].push(net_msg)` and the next round.
  unfoldable pub keep : Progress V → MId → ErasedNetMsg V → Flow (Progress V)
  keep (self, i) mid m = elim (Msg.push self.msg_buff mid m) [
    | ok buff ↦ next (record self { msg_buff = buff }, i)
    | err e ↦ fail
    | panic ↦ fail
  ]

  -- The end of a connection, which waits for `handle_disconnects`.
  abbrev pub queue : Server V → CId → Status V → Server V
  queue self cid status = record self { disconnected = self.disconnected ++ (cid, status) ∷ [] }

  -- A round that is done is the `true` of the source.
  unfoldable pub handle_tcp_msg : Server V × Io (MId × ErasedNetMsg V) → ℕ → CId → Flow (Progress V)
  unfolding keep
  handle_tcp_msg (self, err would_block) i cid = done (self, i)
  handle_tcp_msg (self, err e) i cid = done (queue self cid (Status.dropped e), i)
  handle_tcp_msg (self, ok (mid, m)) i cid =
      if mid == disconnect_type_mid
      then done (queue self cid (Status.disconnected m.msg), i + 1)
      else keep (self, i + 1) mid m
  handle_tcp_msg (self, panic) i cid = fail

  unfoldable pub tcp_round : CId → Progress V → Flow (Progress V)
  unfolding handle_tcp_msg
  tcp_round cid (self, i) = handle_tcp_msg (recv_tcp self cid) i cid

  unfoldable pub handle_udp_msg : Server V × Io (MId × ErasedNetMsg V) → ℕ → Flow (Progress V)
  unfolding keep
  handle_udp_msg (self, err e) i = done (self, i)
  handle_udp_msg (self, ok (mid, m)) i = keep (self, i + 1) mid m
  handle_udp_msg (self, panic) i = fail

  unfoldable pub udp_round : Host → Progress V → Flow (Progress V)
  unfolding handle_udp_msg
  udp_round h (self, i) = handle_udp_msg (recv_udp h self) i

  -- The bytes that have come on a connection.
  unfoldable pub waiting : Server V → CId → ℕ
  waiting self cid = elim (HashMap.get self.tcp cid) [ none ↦ 0 | some con ↦ length con.tcp.inbox ]

  -- The loops, with fuel above the bytes and the datagrams that have come.
  unfoldable pub tcp_loop : CId → Progress V → Option (Io (Progress V))
  unfolding waiting
  tcp_loop cid s = loop (waiting s.0 cid + 1) (tcp_round cid) s

  unfoldable pub udp_loop : Host → Progress V → Option (Io (Progress V))
  udp_loop h s = loop (length s.0.udp.udp.inbox + 1) (udp_round h) s

  -- What follows a loop that has ended without a panic.
  unfoldable pub and_then :
      Option (Io (Progress V)) → (Progress V → Option (Io (Progress V))) → Option (Io (Progress V))
  and_then none rest = none
  and_then (some (ok s)) rest = rest s
  and_then (some (err e)) rest = some (err e)
  and_then (some panic) rest = some panic

  unfoldable pub tcp_loops : List CId → Progress V → Option (Io (Progress V))
  unfolding tcp_loop and_then
  tcp_loops [] s = some (ok s)
  tcp_loops (cid ∷ cids) s = and_then (tcp_loop cid s) (tcp_loops cids)

  -- `none` would mean that the fuel ran out.
  unfoldable pub recv_msgs : Host → (List CId → List CId) → Server V → Option (Io (Progress V))
  unfolding tcp_loops udp_loop and_then
  recv_msgs h order self = and_then (tcp_loops (cids order self) (self, 0)) (udp_loop h)

  unfoldable pub clear_msgs : Server V → Server V
  unfolding Msg.clear_all
  clear_msgs self = record self { msg_buff = Msg.clear_all self.msg_buff }

  -- A type that is not registered panics.
  unfoldable pub recv : Server V → TypeId → Io (List (NetMsg V))
  recv self tid =
      if valid_tid self.parts tid
      then (do
        mid ← mid_of self.parts tid
        msgs ← index self.msg_buff mid
        Msg.to_typed_all tid msgs)
      else panic

  unfoldable pub try_recv : Server V → TypeId → Io (Option (List (NetMsg V)))
  try_recv self tid = elim (HashMap.get self.parts.tid_map tid) [
    | none ↦ ok none
    | some mid ↦ do
      msgs ← index self.msg_buff mid
      typed ← Msg.to_typed_all tid msgs
      ok (some typed)
  ]

  -- The messages of the clients that match.
  abbrev matching : CIdSpec → List (ErasedNetMsg V) → List (ErasedNetMsg V)
  matching spec msgs = filter_by (λ m. matches spec m.cid) msgs

  unfoldable pub recv_spec : Server V → TypeId → CIdSpec → Io (List (NetMsg V))
  recv_spec self tid spec =
      if valid_tid self.parts tid
      then (do
        mid ← mid_of self.parts tid
        msgs ← index self.msg_buff mid
        Msg.to_typed_all tid (matching spec msgs))
      else panic

  unfoldable pub try_recv_spec : Server V → TypeId → CIdSpec → Io (Option (List (NetMsg V)))
  try_recv_spec self tid spec = elim (HashMap.get self.parts.tid_map tid) [
    | none ↦ ok none
    | some mid ↦ do
      msgs ← index self.msg_buff mid
      typed ← Msg.to_typed_all tid (matching spec msgs)
      ok (some typed)
  ]
