-- ===== src/Client/Receive.antt =====
-- src/client.rs: what a client does with what has come.
pub mod Round
pub mod Inbox
pub mod Laws
use carrier_pigeon.Base.{
  ℕ, ◌+◌, List, Bool, true, false, Option, none, some, Io, ok, err, panic, ErrorKind, if◌then◌else◌,
  ◌==◌, length, ◌>>=◌,
}
use carrier_pigeon.Base.Results.{would_block}
use carrier_pigeon.Base.HashMap
use carrier_pigeon.Base.Loop.{Flow, next, done, fail, loop}
use carrier_pigeon.Net.{MId, TypeId}
use carrier_pigeon.Net.Status.{Status}
use carrier_pigeon.Net.Msg as Msg
use carrier_pigeon.Net.Msg.{ErasedNetMsg, NetMsg}
use carrier_pigeon.Time.{Host}
use carrier_pigeon.Table.{disconnect_type_mid}
use carrier_pigeon.Table.Parts.{valid_tid}
use carrier_pigeon.Table.Parts.Codec.{index, mid_of}
use carrier_pigeon.Client.{Client, is_open, recv_tcp, recv_udp}

-- A client and the count of messages so far (a `u32`, whose overflow is not modelled).
abbrev pub Progress : Type 0 → Type 0
Progress V = Client V × ℕ

module _ {V : Type 0} where
  -- `self.msg_buff[mid].push(net_msg)` and the next round.
  unfoldable pub keep : Progress V → MId → ErasedNetMsg V → Flow (Progress V)
  keep (self, i) mid m = elim (Msg.push self.msg_buff mid m) [
    | ok buff ↦ next (record self { msg_buff = buff }, i)
    | err e ↦ fail
    | panic ↦ fail
  ]

  -- The `match` of the TCP loop.
  unfoldable pub tcp_arm : Client V × Io (MId × ErasedNetMsg V) → ℕ → Flow (Progress V)
  unfolding keep
  tcp_arm (self, err would_block) i = done (self, i)
  tcp_arm (self, err e) i = next (record self { status = Status.dropped e }, i)
  tcp_arm (self, ok (mid, m)) i =
      if mid == disconnect_type_mid
      then next (record self { status = Status.disconnected m.msg }, i + 1)
      else keep (self, i + 1) mid m
  tcp_arm (self, panic) i = fail

  unfoldable pub tcp_round : Progress V → Flow (Progress V)
  unfolding tcp_arm
  tcp_round (self, i) = if is_open self then tcp_arm (recv_tcp self) i else done (self, i)

  -- The `match` of the UDP loop: an error of another kind is only logged.
  unfoldable pub udp_arm : Client V × Io (MId × ErasedNetMsg V) → ℕ → Flow (Progress V)
  unfolding keep
  udp_arm (self, err would_block) i = done (self, i)
  udp_arm (self, err e) i = next (self, i)
  udp_arm (self, ok (mid, m)) i = keep (self, i + 1) mid m
  udp_arm (self, panic) i = fail

  unfoldable pub udp_round : Host → Progress V → Flow (Progress V)
  unfolding udp_arm
  udp_round h (self, i) = if is_open self then udp_arm (recv_udp h self) i else done (self, i)

  -- The loops, with fuel above the bytes and the datagrams that have come.
  unfoldable pub tcp_loop : Progress V → Option (Io (Progress V))
  tcp_loop s = loop (length s.0.tcp.tcp.inbox + 2) tcp_round s

  unfoldable pub udp_loop : Host → Progress V → Option (Io (Progress V))
  udp_loop h s = loop (length s.0.udp.udp.inbox + 1) (udp_round h) s

  -- `none` would mean that the fuel ran out.
  unfoldable pub recv_msgs : Host → Client V → Option (Io (Progress V))
  recv_msgs h self = elim (tcp_loop (self, 0)) [
    | none ↦ none
    | some (ok s) ↦ udp_loop h s
    | some (err e) ↦ some (err e)
    | some panic ↦ some panic
  ]

  unfoldable pub clear_msgs : Client V → Client V
  unfolding Msg.clear_all
  clear_msgs self = record self { msg_buff = Msg.clear_all self.msg_buff }

  -- A type that is not registered panics.
  unfoldable pub recv : Client V → TypeId → Io (List (NetMsg V))
  recv self tid =
      if valid_tid self.parts tid
      then (do
        mid ← mid_of self.parts tid
        msgs ← index self.msg_buff mid
        Msg.to_typed_all tid msgs)
      else panic

  unfoldable pub try_recv : Client V → TypeId → Io (Option (List (NetMsg V)))
  try_recv self tid = elim (HashMap.get self.parts.tid_map tid) [
    | none ↦ ok none
    | some mid ↦ do
      msgs ← index self.msg_buff mid
      typed ← Msg.to_typed_all tid msgs
      ok (some typed)
  ]
