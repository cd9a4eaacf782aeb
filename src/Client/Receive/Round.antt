-- ===== src/Client/Receive/Round.antt =====
-- A round of the TCP loop of `recv_msgs` of src/client.rs, over a connection on which a whole message
-- has come.
use carrier_pigeon.Base.{
  ℕ, ◌+◌, ◌≡◌, ◌≢◌, refl, ap, ◌∙◌, List, [], ◌∷◌, ◌++◌, none, ok, err, length, arith, ne→==,
  ErrorKind,
}
use carrier_pigeon.Base.Results.{connection_aborted}
use carrier_pigeon.Base.Loop.{next}
use carrier_pigeon.Net.{MId, Any}
use carrier_pigeon.Net.Status.{Status}
use carrier_pigeon.Net.Status as ConStatus
use carrier_pigeon.Net.Msg.{ErasedNetMsg, push}
use carrier_pigeon.Net.Filed.{Filed, Filed-append, push-Filed}
use carrier_pigeon.Table.{disconnect_type_mid}
use carrier_pigeon.Table.Parts.Codec.{decode}
use carrier_pigeon.Tcp
use carrier_pigeon.Tcp.{TcpCon, frame}
use carrier_pigeon.Tcp.Recv.{recv-frame}
use carrier_pigeon.Tcp.Letters.{Letter, Ending, stays, leaves, drops, Taken}
use carrier_pigeon.Client.{Client, recv_tcp, from_server, is_open}
use carrier_pigeon.Client.Receive.{keep, tcp_arm, tcp_round}

module _ {V : Type 0} where
  -- A letter as the client files it.
  abbrev pub arrival : Letter V → MId × ErasedNetMsg V
  arrival l = (l.mid, from_server none l.msg)

  -- What the client's status becomes.
  abbrev pub status_after : Ending V → Status V
  status_after stays = Status.connected
  status_after (leaves l) = Status.disconnected l.msg
  status_after drops = Status.dropped connection_aborted

  pub recv_tcp-decoded :
      (self : Client V) (con : TcpCon) (mid : MId) (b : List ℕ) (msg : Any V)
      → Tcp.recv self.tcp ≡ (con, ok (mid, b))
      → decode self.parts mid b ≡ ok msg
      → recv_tcp self ≡ (record self { tcp = con }, ok (mid, from_server none msg))
  unfolding recv_tcp
  recv_tcp-decoded self con mid b msg got d = ground (arith, got, d)

  pub recv_tcp-failed :
      (self : Client V) (e : ErrorKind)
      → Tcp.recv self.tcp ≡ (self.tcp, err e)
      → recv_tcp self ≡ (self, err e)
  unfolding recv_tcp
  recv_tcp-failed self e got = ground (arith, got)

  -- The client has filed `ms` and its status is `st`.
  pub record Took (ms : List (MId × ErasedNetMsg V)) (st : Status V) (self z : Client V)
      : Type 0 where
    pub filed : Filed ms self.msg_buff z.msg_buff
    pub status : z.status ≡ st
    pub same_parts : z.parts ≡ self.parts
    pub same_udp : z.udp ≡ self.udp

  pub Took-append :
      (ms ns : List (MId × ErasedNetMsg V)) (s t : Status V) (a b c : Client V)
      → Took ms s a b
      → Took ns t b c
      → Took (ms ++ ns) t a c
  Took-append ms ns s t a b c p q = record {
    filed = Filed-append p.filed q.filed;
    status = q.status;
    same_parts = q.same_parts ∙ p.same_parts;
    same_udp = q.same_udp ∙ p.same_udp;
  }

  tcp_arm-keeps :
      (self : Client V) (mid : MId) (m : ErasedNetMsg V) (i : ℕ)
      (after : List (List (ErasedNetMsg V)))
      → mid ≢ disconnect_type_mid
      → push self.msg_buff mid m ≡ ok after
      → tcp_arm (self, ok (mid, m)) i ≡ next (record self { msg_buff = after }, i + 1)
  unfolding tcp_arm
  tcp_arm-keeps self mid m i after other pushed =
      rw (ne→== mid disconnect_type_mid other, keep, pushed) refl

  pub tcp_round-open :
      (self : Client V) (i : ℕ)
      → self.status ≡ Status.connected
      → tcp_round (self, i) ≡ tcp_arm (recv_tcp self) i
  unfolding tcp_round is_open ConStatus.connected
  tcp_round-open self i open_ = rw (ap ConStatus.connected open_, tcp_round, is_open) refl

  -- A round takes the message at the front of the stream.
  pub tcp_round-letter :
      (self : Client V) (i : ℕ) (l : Letter V) (rest : List ℕ)
      → self.status ≡ Status.connected
      → self.tcp.tcp.fault ≡ none
      → self.tcp.tcp.inbox ≡ frame l.mid l.bytes ++ rest
      → Taken self.parts (length self.msg_buff) (length self.tcp.buff) l
      → (z : Client V) × (tcp_round (self, i) ≡ next (z, i + 1))
        × Took (arrival l ∷ []) Status.connected self z
        × (z.tcp.tcp ≡ record self.tcp.tcp { inbox = rest })
        × (length z.tcp.buff ≡ length self.tcp.buff)
  tcp_round-letter self i l rest open_ works come t =
      let (buff, got, size) =
        recv-frame self.tcp l.mid l.bytes rest works come t.small t.short t.room in
      let (after, pushed, filed) = push-Filed self.msg_buff l.mid (arrival l).1 t.numbered in
      let con : TcpCon = record { buff = buff; tcp = record self.tcp.tcp { inbox = rest } } in
      (
        record self { tcp = con; msg_buff = after },
        tcp_round-open self i open_
            ∙ ap (λ r. tcp_arm r i) (recv_tcp-decoded self con l.mid l.bytes l.msg got t.decodes)
            ∙ tcp_arm-keeps (record self { tcp = con }) l.mid (arrival l).1 i after t.kept pushed,
        record { filed = filed; status = open_; same_parts = refl; same_udp = refl },
        refl,
        size,
      )
