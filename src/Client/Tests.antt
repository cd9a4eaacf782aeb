-- ===== src/Client/Tests.antt =====
-- A client of src/client.rs with concrete streams.
use carrier_pigeon.Base.{
  ◌≡◌, ◌⊎◌, List, map, panic, get_elem?, refl, [], ◌∷◌, some, none, ok, Io, false,
}
use carrier_pigeon.Net.Status as ConStatus
use carrier_pigeon.Net.Status.{Status}
use carrier_pigeon.Client.{Client, is_open}
use carrier_pigeon.Net.{Any}
use carrier_pigeon.Client.{new_blocking, handshake, send, send_over, send_tcp, recv_tcp, recv_udp}
use carrier_pigeon.Tcp
use carrier_pigeon.Tcp.{frame}
use carrier_pigeon.Tcp.Stream as Stream
use carrier_pigeon.Tcp.Stream.{TcpStream, peek, read_exact, write_all}
use carrier_pigeon.Header.{u16_to_be_bytes, u16_from_be_bytes}
use carrier_pigeon.Header.Tcp as Header
use carrier_pigeon.Table.{ser_fn, deser_fn}
use carrier_pigeon.Base.HashMap
use carrier_pigeon.Net.{downcast_ref}
use carrier_pigeon.Net.Msg.{push, to_typed_all}
use carrier_pigeon.Table.Parts.{mid_count, valid_mid, valid_tid, fill}
use carrier_pigeon.Table.Parts.Codec.{encode, decode, index, mid_of}
use carrier_pigeon.Udp
use carrier_pigeon.Udp.Socket as Socket
use carrier_pigeon.Base.Buffer.{replicate}
use carrier_pigeon.Base.Loop.{loop}
use carrier_pigeon.Table.Parts.Typed.{IsBuilt}
use carrier_pigeon.Samples.{copy, entries, parts, entries-Distinct, entries-Coded, stream, config}
use carrier_pigeon.Client.Reach.{starts, goes_on, receives, arrives, recv-Reachable}
use carrier_pigeon.Table.Parts.Typed.{as_net_msg}
use carrier_pigeon.Net.{MId}
use carrier_pigeon.Net.Msg.{ErasedNetMsg}
use carrier_pigeon.Client.Receive.{recv, try_recv}
use carrier_pigeon.Client.Receive.{Progress, recv_msgs, tcp_loop, udp_loop, tcp_round, udp_round}
use carrier_pigeon.Client.Receive.Laws.{recv_msgs_total}
use carrier_pigeon.Samples.{Bytes, host, client}

-- A message of type 20, and then the message of disconnecting.
recv_msgs_total_example :
    (r : Io (Progress Bytes)) × (recv_msgs host (client (0 ∷ 3 ∷ 0 ∷ 1 ∷ 9 ∷ 0 ∷ 2 ∷ 0 ∷ 0 ∷ []) [])
      ≡ some r)
recv_msgs_total_example = recv_msgs_total host (client (0 ∷ 3 ∷ 0 ∷ 1 ∷ 9 ∷ 0 ∷ 2 ∷ 0 ∷ 0 ∷ []) [])

parts-IsBuilt : IsBuilt copy entries parts
parts-IsBuilt = record { made = refl; distinct = entries-Distinct; coded = entries-Coded }

-- The response has come, and a message of type 20.
abbrev begin : Io (Client Bytes × Any Bytes)
begin =
    new_blocking host (ok (stream (0 ∷ 1 ∷ 0 ∷ 1 ∷ 5 ∷ [])))
      (λ addr. ok (record {
        inbox = [];
        sent = [];
        fault = none;
        nonblocking = false;
        peer_addr = ok 70;
        local_addr = ok 80;
      }))
      parts config (record { tid = 10; value = 6 ∷ [] })

abbrev ready : Client Bytes
ready = record (client [] []) {
  tcp = record {
    buff = 0 ∷ 1 ∷ 0 ∷ 1 ∷ 5 ∷ replicate 7 0;
    tcp = record (stream []) { sent = 0 ∷ 0 ∷ 0 ∷ 1 ∷ 6 ∷ []; room = 95 };
  };
}

-- Then a message of type 20 comes.
abbrev line : TcpStream
line = record (stream (0 ∷ 3 ∷ 0 ∷ 1 ∷ 9 ∷ [])) { sent = 0 ∷ 0 ∷ 0 ∷ 1 ∷ 6 ∷ []; room = 95 }

abbrev rung : Client Bytes
rung = record ready { tcp = record ready.tcp { tcp = line } }

begin-ready : begin ≡ ok (ready, record { tid = 11; value = 5 ∷ [] })
unfolding new_blocking Tcp.from_stream Tcp.local_addr Tcp.peer_addr Udp.new Socket.connect_to
    mid_count handshake send send_over send_tcp encode index mid_of valid_tid HashMap.contains_key
    HashMap.get HashMap.insert ser_fn downcast_ref Tcp.send Tcp.buff_size frame Header.new
    Header.to_be_bytes u16_to_be_bytes write_all recv_tcp Tcp.recv peek Tcp.recv_header
    Header.from_be_bytes u16_from_be_bytes Tcp.recv_message Tcp.max_msg_size Tcp.read_message
    read_exact decode valid_mid fill deser_fn Tcp.set_nonblocking Stream.set_nonblocking
    Udp.set_nonblocking Stream.set_read_timeout
begin-ready = refl

abbrev heard : Client Bytes
heard = record (client [] []) {
  msg_buff =
      []
      ∷ []
      ∷ []
      ∷ (record { cid = 0; time = none; msg = record { tid = 20; value = 9 ∷ [] } } ∷ [])
      ∷ [];
  tcp = record {
    buff = 0 ∷ 3 ∷ 0 ∷ 1 ∷ 9 ∷ replicate 7 0;
    tcp = record (stream []) { sent = 0 ∷ 0 ∷ 0 ∷ 1 ∷ 6 ∷ []; room = 95 };
  };
}

rung-heard : recv_msgs host rung ≡ some (ok (heard, 1))
unfolding recv_msgs tcp_loop udp_loop loop tcp_round udp_round is_open ConStatus.connected recv_tcp
    Tcp.recv peek Tcp.recv_header Header.from_be_bytes Tcp.recv_message read_exact decode fill
    deser_fn push recv_udp Udp.recv Socket.recv_from
rung-heard = refl

recv-Reachable_example :
    ((HashMap.get parts.tid_map 20 ≡ none)
      × (recv heard 20 ≡ panic)
      × (try_recv heard 20 ≡ ok none))
    ⊎ ((mid : MId) × (msgs : List (ErasedNetMsg Bytes)) × (HashMap.get parts.tid_map 20 ≡ some mid)
        × (get_elem? heard.msg_buff mid ≡ some msgs)
        × (recv heard 20 ≡ ok (map as_net_msg msgs))
        × (try_recv heard 20 ≡ ok (some (map as_net_msg msgs))))
recv-Reachable_example = recv-Reachable copy entries parts parts-IsBuilt heard 20 (
    goes_on rung heard
      (goes_on ready rung (starts host _ _ config _ _ begin-ready)
        (arrives ready line ready.udp.udp refl))
      (receives host rung (heard, 1) rung-heard))

-- And so the message of type 20 is there.
recv_heard : recv heard 20 ≡ ok (record { cid = 0; time = none; m = 9 ∷ [] } ∷ [])
unfolding recv valid_tid fill HashMap.insert mid_of index to_typed_all
recv_heard = refl
