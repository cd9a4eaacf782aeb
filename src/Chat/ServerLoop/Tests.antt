-- ===== src/Chat/ServerLoop/Tests.antt =====
-- The chatroom's server of examples/server.rs with concrete texts.
use carrier_pigeon.Header.Udp as UdpHeader
use carrier_pigeon.Server.Receive.Datagram.{datagram_delivery}
use carrier_pigeon.Server.Receive.{recv_udp}
use carrier_pigeon.Time.{Host, unix_millis}
use carrier_pigeon.Client as Client
use carrier_pigeon.Client.{Client}
use carrier_pigeon.Udp
use carrier_pigeon.Udp.Socket as Socket
use carrier_pigeon.Table.Parts.Index.{IsIndexOf, fill-IsIndexOf}
use carrier_pigeon.Chat.{Msg}
use carrier_pigeon.Chat.Laws.{chat_entries}
use carrier_pigeon.Base.{some, inr}
use carrier_pigeon.Samples.{copy-RoundTrips, client}
use carrier_pigeon.Base.{
  ◌>>=◌, ◌≡◌, refl, List, [], ◌∷◌, ◌++◌, map, false, none, ok, panic, arith, filter_by,
}
use carrier_pigeon.Base.Buffer.{replicate}
use carrier_pigeon.Base.HashMap
use carrier_pigeon.Base.Text.{bytes_of}
use carrier_pigeon.Net.{CId, downcast_ref}
use carrier_pigeon.Net.CIdSpec.{except, matches}
use carrier_pigeon.Net.Msg.{NetMsg}
use carrier_pigeon.Table.Parts.{fill, valid_tid}
use carrier_pigeon.Table.Parts.Codec.{encode, index, mid_of}
use carrier_pigeon.Tcp
use carrier_pigeon.Tcp.Stream as Stream
use carrier_pigeon.Tcp.{TcpCon, frame}
use carrier_pigeon.Header.Tcp as Header
use carrier_pigeon.Table.{ser_fn, deser_fn}
use carrier_pigeon.Server.{Server, NewCon, cids, alive}
use carrier_pigeon.Server.Send.{send_spec}
use carrier_pigeon.Server.Send.Datagrams.{posted, addressed, datagram, send_spec-posted}
use carrier_pigeon.Server.Accept.{handle_con_helper}
use carrier_pigeon.Table.Sorted.{str_eq}
use carrier_pigeon.Server.Accept.Handle.{Found, scan}
use carrier_pigeon.Samples.{Bytes, copy, host, stream, server}
use carrier_pigeon.Chat.{accepted, any_msg, any_response}
use carrier_pigeon.Chat.ServerLoop.{
  relay, disconnect_each, goodbye, asks_to_leave, greet, greeter, is_blacklisted,
}
use carrier_pigeon.Chat.ServerLoop.Laws.{outgoing, relay-outgoing}
use carrier_pigeon.Chat.ServerLoop.Leaving.{leaves_twice-panics}
use carrier_pigeon.Chat.ServerLoop.Greeting.{Greeted, refusal, scan-Greeted}
use carrier_pigeon.Chat.Samples.{plain, kept, chat_parts}

abbrev wide : TcpCon
wide = record { buff = replicate 40 0; tcp = stream [] }

-- The clients 1 and 2, at the addresses 70 and 71.
abbrev room : Server Bytes
room = record (server [] []) {
  parts = chat_parts;
  tcp = (1, wide) ∷ (2, wide) ∷ [];
  udp = record (server [] []).udp { buff = replicate 40 0 };
}

-- A line of client 1, and client 2 asks to leave.
abbrev spoken : List (NetMsg Bytes)
spoken =
    record { cid = 1; time = none; m = bytes_of "hi" }
    ∷ record { cid = 2; time = none; m = bytes_of "disconnect-me" }
    ∷ []

relay-outgoing_example :
    relay plain host (λ c. c) room spoken
    ≡ ok (
      posted room
          (outgoing plain host (λ c. c) room.cid_addr (cids (λ c. c) room) 3 (λ m. m.m) spoken),
      map (λ m. m.cid) (filter_by (asks_to_leave plain) spoken),
    )
unfolding encode alive cids fill HashMap.insert HashMap.get HashMap.contains_key ser_fn downcast_ref
    HashMap.keys index mid_of valid_tid
relay-outgoing_example =
    relay-outgoing plain host (λ c. c) room 3 (λ m. m.m) spoken
      ((refl, (refl, ground arith)), ((refl, (refl, ground arith)), tt)) (refl, (refl, tt))

send_spec-posted_example :
    send_spec host
      (λ c. c)
      room
      (except 1)
      (any_msg plain (record { from = []; text = bytes_of "hi" }))
    ≡ (
      posted room (
          addressed room.cid_addr
            (filter_by (matches (except 1)) (cids (λ c. c) room))
            (datagram host 3 (bytes_of "hi"))),
      ok tt,
    )
unfolding encode alive cids fill HashMap.insert HashMap.get HashMap.contains_key ser_fn downcast_ref
    HashMap.keys index mid_of valid_tid
send_spec-posted_example =
    send_spec-posted host (λ c. c) room (except 1)
      (any_msg plain (record { from = []; text = bytes_of "hi" })) 3 (bytes_of "hi") refl
      (refl, ground arith) (refl, (refl, tt))

-- Client 2 asks to leave, then client 1 does, and then client 2 again.
abbrev quits : CId → NetMsg Bytes
quits cid = record { cid = cid; time = none; m = bytes_of "disconnect-me" }

leaves_twice-panics_example :
    (relay plain host (λ c. c) room (quits 2 ∷ quits 1 ∷ quits 2 ∷ []) >>= λ r.
    disconnect_each plain host r.0 r.1)
    ≡ panic
unfolding encode fill HashMap.insert HashMap.get HashMap.contains_key ser_fn downcast_ref index
    mid_of valid_tid str_eq
leaves_twice-panics_example =
    leaves_twice-panics plain host (λ c. c) room [] (quits 2) (quits 1 ∷ []) (quits 2) [] 2
      goodbye.reason refl refl refl refl

-- The connection messages of `jane` and of `me`.
abbrev arrivals : List NewCon
arrivals =
    record {
      con = record { buff = replicate 12 0; tcp = stream (0 ∷ 0 ∷ 0 ∷ 4 ∷ bytes_of "jane") };
      cid = 3;
      time = 0;
    }
    ∷ record {
      con = record { buff = replicate 12 0; tcp = stream (0 ∷ 0 ∷ 0 ∷ 2 ∷ bytes_of "me") };
      cid = 4;
      time = 0;
    }
    ∷ []

-- The connection of `arrivals` that is left when `bytes` are read, from client `cid`.
abbrev read_from : Bytes → CId → NewCon
read_from bytes cid = record { con = record { buff = bytes; tcp = stream [] }; cid = cid; time = 0 }

abbrev seen : Found Bytes (Unit {0})
seen = record {
  new_cons =
      read_from (0 ∷ 0 ∷ 0 ∷ 4 ∷ bytes_of "jane" ++ replicate 4 0) 3
      ∷ read_from (0 ∷ 0 ∷ 0 ∷ 2 ∷ bytes_of "me" ++ replicate 6 0) 4
      ∷ [];
  accepted = (1, any_response plain accepted) ∷ [];
  rejected = (0, any_response plain refusal) ∷ [];
  dead = [];
  hook_state = tt;
}

scan-seen : scan false (greeter plain kept) (deser_fn copy 10) 10 5 1 0 arrivals tt ≡ ok seen
unfolding scan handle_con_helper Tcp.recv Stream.peek Tcp.recv_header Header.from_be_bytes
    Tcp.recv_message Stream.read_exact deser_fn downcast_ref greet is_blacklisted str_eq
scan-seen = refl

scan-Greeted_example : Greeted plain kept (deser_fn copy 10) 10 5 1 0 arrivals seen
scan-Greeted_example = scan-Greeted plain kept (deser_fn copy 10) 10 5 1 0 arrivals seen scan-seen

abbrev past : Host
past = record host { millis = 990_000 }

abbrev hi : Msg
hi = record { from = []; text = bytes_of "hi" }

-- A client of the chatroom, before and after it says `hi`.
abbrev member : Client Bytes
member = record (client [] []) { parts = chat_parts }

abbrev has_spoken : Client Bytes
has_spoken = record member {
  udp = record member.udp {
    udp = record member.udp.udp { sent = (70, 0 ∷ 3 ∷ 27 ∷ 48 ∷ bytes_of "hi") ∷ [] };
  };
}

member-has_spoken : Client.send past member (any_msg plain hi) ≡ (has_spoken, ok tt)
unfolding Client.send Client.send_over Client.send_udp Udp.send encode fill HashMap.insert ser_fn
    Udp.send_shared Socket.send UdpHeader.to_be_bytes UdpHeader.new unix_millis
member-has_spoken = refl

-- The server that hears it, from the address of client 2.
abbrev hearing : Server Bytes
hearing = record room {
  udp = record room.udp {
    udp = record room.udp.udp { inbox = ok (71, 0 ∷ 3 ∷ 27 ∷ 48 ∷ bytes_of "hi") ∷ [] };
  };
}

chat-IsIndexOf : IsIndexOf chat_parts (chat_entries plain copy)
chat-IsIndexOf = fill-IsIndexOf (chat_entries plain copy) (ground arith)

datagram_delivery_example :
    (recv_udp host hearing).1
    ≡ ok (3, record { cid = 2; time = some (unix_millis past); msg = any_msg plain hi })
unfolding encode alive fill HashMap.insert HashMap.get HashMap.contains_key ser_fn downcast_ref
    index mid_of valid_tid unix_millis
datagram_delivery_example =
    datagram_delivery copy host 990_000 member has_spoken hearing 2 71 (chat_entries plain copy)
      (any_msg plain hi) 3 (bytes_of "hi") [] copy-RoundTrips chat-IsIndexOf
      ((refl, refl), ((refl, refl), ((refl, refl), ((refl, refl), tt)))) refl refl refl
      member-has_spoken refl refl refl (ground arith) (ground arith) (ground arith) (ground arith)
      (inr (ground arith))
