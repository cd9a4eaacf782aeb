-- ===== src/Server/Mirror/Tests.antt =====
-- A server of src/server.rs from its start to its first client.
use carrier_pigeon.Server.Typed.Reach.{server_recv-Reachable}
use carrier_pigeon.Server.Mirror.Reach.{receives}
use carrier_pigeon.Base.Loop.{loop}
use carrier_pigeon.Server.{cids}
use carrier_pigeon.Net.Msg.{push}
use carrier_pigeon.Table.Parts.{valid_mid, mid_count}
use carrier_pigeon.Table.Parts.Codec.{decode}
use carrier_pigeon.Server.Receive.{
  tcp_loops, tcp_loop, waiting, and_then, tcp_round, recv_tcp, handle_tcp_msg, keep, udp_loop,
  udp_round, recv_udp, handle_udp_msg, recv_msgs, recv, try_recv,
}
use carrier_pigeon.Table.Parts.Typed.{as_net_msg}
use carrier_pigeon.Net.Msg.{ErasedNetMsg}
use carrier_pigeon.Net.{MId}
use carrier_pigeon.Base.{none}
use carrier_pigeon.Base.{
  List, map, some, panic, ◌⊎◌, get_elem?, arith, ◌+◌, ℕ, ◌≡◌, refl, [], ◌∷◌, true, ok,
}
use carrier_pigeon.Base.Buffer.{replicate}
use carrier_pigeon.Base.HashMap
use carrier_pigeon.Net.{downcast_ref}
use carrier_pigeon.Table.{ser_fn, deser_fn}
use carrier_pigeon.Table.Parts.{fill, valid_tid}
use carrier_pigeon.Table.Parts.Codec.{encode, index, mid_of}
use carrier_pigeon.Header.{u16_to_be_bytes, u16_from_be_bytes}
use carrier_pigeon.Header.Tcp as Header
use carrier_pigeon.Tcp
use carrier_pigeon.Server.Mirror.Arrivals.{on_tcp}
use carrier_pigeon.Tcp.Stream.{TcpStream}
use carrier_pigeon.Tcp.{TcpCon, frame}
use carrier_pigeon.Tcp.Stream as Stream
use carrier_pigeon.Udp
use carrier_pigeon.Udp.Socket as Socket
use carrier_pigeon.Server
use carrier_pigeon.Server.{Server, TcpListener, NewCon, add_tcp_con_cid, new_cid}
use carrier_pigeon.Server.Send.{send_to, send_over, send_tcp}
use carrier_pigeon.Server.Accept.{
  start_incoming, accept_pending, start_one, handle_con_helper, read_con_msg, accept_incoming,
}
use carrier_pigeon.Server.Accept.Handle.{
  Hook, handle_new_cons, handle_pending, scan, accept_each, reject_each, drop_each, take_out, stay,
  answer,
}
use carrier_pigeon.Server.Mirror.{Sound, HaveAddrs, tags}
use carrier_pigeon.Server.Mirror.Reach.{
  Reachable, Step, starts, goes_on, arrives, handles_new_cons, Reachable-Sound,
}
use carrier_pigeon.Samples.{
  copy, entries, Bytes, host, server, config, parts, parts-IsBuilt, stream, tcp_con, udp_con,
}

abbrev listener : TcpListener
listener = record { pending = ok (stream (0 ∷ 0 ∷ 0 ∷ 1 ∷ 5 ∷ [])) ∷ []; local_addr = ok 80 }

abbrev started : Server Bytes
started = record (server [] []) {
  current_cid = 0;
  disconnected = [];
  tcp = [];
  cid_addr = [];
  addr_cid = [];
  listener = listener;
}

started-Reachable : Reachable parts started
unfolding Server.new Udp.new Socket.connect_to fill HashMap.insert
started-Reachable = starts (ok listener) (λ addr. ok (udp_con []).udp) config started refl

-- Each client is accepted; the state counts them.
abbrev welcome : Hook Bytes ℕ
welcome n cid c = (n + 1, true, record { tid = 11; value = 9 ∷ [] })

abbrev joined : Server Bytes
joined = record started {
  current_cid = 1;
  listener = record listener { pending = [] };
  tcp =
      (
        1,
        record {
          buff = 0 ∷ 0 ∷ 0 ∷ 1 ∷ 5 ∷ replicate 7 0;
          tcp = record (stream []) { sent = 0 ∷ 1 ∷ 0 ∷ 1 ∷ 9 ∷ []; room = 95 };
        },
      )
      ∷ [];
  cid_addr = (1, 70) ∷ [];
  addr_cid = (70, 1) ∷ [];
}

abbrev asked : Server Bytes
asked = record started {
  current_cid = 1;
  listener = record listener { pending = [] };
  new_cons = record { con = tcp_con (0 ∷ 0 ∷ 0 ∷ 1 ∷ 5 ∷ []); cid = 1; time = 7 } ∷ [];
}

started-asked : start_incoming true 7 started ≡ ok asked
unfolding start_incoming new_cid Tcp.set_nonblocking Tcp.from_stream Stream.set_nonblocking
started-asked = refl

asked-HaveAddrs : HaveAddrs asked (tags asked.new_cons)
unfolding HashMap.get
asked-HaveAddrs = record { known = ((70, refl, refl), tt); addrs = (tt, tt) }

asked-joined : handle_new_cons host 7 welcome 10 0 started ≡ ok (joined, 1, 1)
unfolding handle_new_cons handle_pending start_incoming accept_pending start_one new_cid
    Tcp.set_nonblocking Tcp.from_stream Stream.set_nonblocking index fill deser_fn scan
    handle_con_helper read_con_msg downcast_ref Tcp.recv Tcp.recv_header Tcp.recv_message
    Tcp.read_message Tcp.max_msg_size Stream.peek Stream.read_exact Header.from_be_bytes
    u16_from_be_bytes accept_each reject_each drop_each take_out accept_incoming add_tcp_con_cid
    Tcp.peer_addr send_to send_over send_tcp encode mid_of valid_tid ser_fn HashMap.get
    HashMap.insert HashMap.contains_key Tcp.send Tcp.buff_size frame Header.new Header.to_be_bytes
    u16_to_be_bytes Stream.write_all stay answer
asked-joined = refl

-- Then a message of type 20 comes.
abbrev line : TcpStream
line = record (stream (0 ∷ 3 ∷ 0 ∷ 1 ∷ 9 ∷ [])) { sent = 0 ∷ 1 ∷ 0 ∷ 1 ∷ 9 ∷ []; room = 95 }

abbrev con : TcpCon
con = record { buff = 0 ∷ 0 ∷ 0 ∷ 1 ∷ 5 ∷ replicate 7 0; tcp = record line { inbox = [] } }

abbrev rung : Server Bytes
rung = record joined { tcp = (1, record con { tcp = line }) ∷ [] }

joined-rung : Step joined rung
unfolding HashMap.insert HashMap.get
joined-rung = arrives joined rung (on_tcp joined 1 con line refl refl)

joined-Reachable : Reachable parts joined
joined-Reachable = goes_on started joined started-Reachable (
    handles_new_cons host 7 welcome 10 0 started asked (joined, 1, 1) (ground arith) started-asked
      asked-HaveAddrs asked-joined)

rung-Reachable : Reachable parts rung
rung-Reachable = goes_on joined rung joined-Reachable joined-rung

Reachable-Sound_example : Sound rung
Reachable-Sound_example = Reachable-Sound parts rung rung-Reachable

abbrev heard : Server Bytes
heard = record joined {
  msg_buff =
      []
      ∷ []
      ∷ []
      ∷ (record { cid = 1; time = none; msg = record { tid = 20; value = 9 ∷ [] } } ∷ [])
      ∷ [];
  tcp =
      (
        1,
        record {
          buff = 0 ∷ 3 ∷ 0 ∷ 1 ∷ 9 ∷ replicate 7 0;
          tcp = record (stream []) { sent = 0 ∷ 1 ∷ 0 ∷ 1 ∷ 9 ∷ []; room = 95 };
        },
      )
      ∷ [];
}

rung-heard : recv_msgs host (λ c. c) rung ≡ some (ok (heard, 1))
unfolding recv_msgs tcp_loops tcp_loop waiting and_then loop tcp_round recv_tcp handle_tcp_msg keep
    push udp_loop udp_round recv_udp handle_udp_msg cids HashMap.keys HashMap.get HashMap.insert
    Tcp.recv Tcp.recv_header Tcp.recv_message Tcp.read_message Tcp.max_msg_size Stream.peek
    Stream.read_exact Header.from_be_bytes u16_from_be_bytes decode valid_mid mid_count index fill
    deser_fn Udp.recv_from Udp.received Socket.recv_from
rung-heard = refl

server_recv-Reachable_example :
    ((HashMap.get parts.tid_map 20 ≡ none)
      × (recv heard 20 ≡ panic)
      × (try_recv heard 20 ≡ ok none))
    ⊎ ((mid : MId) × (msgs : List (ErasedNetMsg Bytes)) × (HashMap.get parts.tid_map 20 ≡ some mid)
        × (get_elem? heard.msg_buff mid ≡ some msgs)
        × (recv heard 20 ≡ ok (map as_net_msg msgs))
        × (try_recv heard 20 ≡ ok (some (map as_net_msg msgs))))
server_recv-Reachable_example =
    server_recv-Reachable copy entries parts parts-IsBuilt heard 20
      (goes_on rung heard rung-Reachable (receives host (λ c. c) rung (heard, 1) rung-heard))
