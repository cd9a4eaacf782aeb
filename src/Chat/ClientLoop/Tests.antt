-- ===== src/Chat/ClientLoop/Tests.antt =====
-- The chatroom's client of examples/client.rs with concrete texts.
use carrier_pigeon.Base.{◌≡◌, ◌≢◌, ◌⊎◌, refl, [], ◌∷◌, ◌++◌, ok}
use carrier_pigeon.Base.Buffer.{replicate}
use carrier_pigeon.Base.HashMap
use carrier_pigeon.Base.Text.{bytes_of}
use carrier_pigeon.Net.{downcast_ref}
use carrier_pigeon.Table.Parts.{fill, valid_tid, valid_mid, mid_count}
use carrier_pigeon.Table.Parts.Codec.{encode, decode, index, mid_of}
use carrier_pigeon.Tcp
use carrier_pigeon.Tcp.Stream as Stream
use carrier_pigeon.Tcp.{TcpCon, frame}
use carrier_pigeon.Header.Tcp as Header
use carrier_pigeon.Table.{ser_fn, deser_fn}
use carrier_pigeon.Samples.{Bytes, host, stream, client, udp_con, config}
use carrier_pigeon.Client
use carrier_pigeon.Client.{Client, send, new_blocking, handshake, recv_tcp}
use carrier_pigeon.Udp
use carrier_pigeon.Udp.Socket as Socket
use carrier_pigeon.Header.{u16_to_be_bytes, u16_from_be_bytes}
use carrier_pigeon.Chat.{Text, any_connection}
use carrier_pigeon.Chat.ClientLoop.{command, nothing, leave, say, disconnect_word, disconnect_me}
use carrier_pigeon.Chat.ClientLoop.Laws.{command_cases}
use carrier_pigeon.Chat.Samples.{plain, kept, chat_parts}

command_cases_example :
    ((bytes_of "disconnect bye" ≡ []) × (command kept (bytes_of "disconnect bye") ≡ nothing))
    ⊎ ((rest : Text) × (bytes_of "disconnect bye" ≡ disconnect_word ++ rest)
        × ((tail : Text) → bytes_of "disconnect bye" ≢ disconnect_me ++ tail)
        × (command kept (bytes_of "disconnect bye") ≡ leave rest))
    ⊎ ((bytes_of "disconnect bye" ≢ [])
        × (((rest : Text) → bytes_of "disconnect bye" ≢ disconnect_word ++ rest)
            ⊎ ((tail : Text) × (bytes_of "disconnect bye" ≡ disconnect_me ++ tail)))
        × (command kept (bytes_of "disconnect bye") ≡ say (bytes_of "disconnect bye")))
command_cases_example = command_cases kept (bytes_of "disconnect bye")

abbrev joined : Client Bytes
joined = record (client [] []) {
  tcp = record {
    buff = 0 ∷ 1 ∷ 0 ∷ 1 ∷ 5 ∷ replicate 7 0;
    tcp = record (stream []) { sent = 0 ∷ 0 ∷ 0 ∷ 1 ∷ 6 ∷ []; room = 95 };
  };
  parts = chat_parts;
}

-- The response has come.
join_joined :
    new_blocking host
      (ok (stream (0 ∷ 1 ∷ 0 ∷ 1 ∷ 5 ∷ [])))
      (λ addr. ok (udp_con []).udp)
      chat_parts
      config
      (any_connection plain (record { user = 6 ∷ [] }))
    ≡ ok (joined, record { tid = 11; value = 5 ∷ [] })
unfolding new_blocking Tcp.from_stream Tcp.local_addr Tcp.peer_addr Udp.new Socket.connect_to
    mid_count handshake send Client.send_over Client.send_tcp encode index mid_of valid_tid
    HashMap.contains_key HashMap.get HashMap.insert ser_fn downcast_ref Tcp.send Tcp.buff_size frame
    Header.new Header.to_be_bytes u16_to_be_bytes Stream.write_all recv_tcp Tcp.recv Stream.peek
    Tcp.recv_header Header.from_be_bytes u16_from_be_bytes Tcp.recv_message Tcp.max_msg_size
    Tcp.read_message Stream.read_exact decode valid_mid fill deser_fn Tcp.set_nonblocking
    Stream.set_nonblocking Udp.set_nonblocking Stream.set_read_timeout
join_joined = refl
