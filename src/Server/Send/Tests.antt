-- ===== src/Server/Send/Tests.antt =====
-- What a server of src/server.rs sends to a client, at concrete inputs.
use carrier_pigeon.Base.{ℕ, true, ◌≡◌, refl, [], ◌∷◌, ◌++◌, map, some, ok, arith}
use carrier_pigeon.Base.HashMap
use carrier_pigeon.Net.{tcp, downcast_ref}
use carrier_pigeon.Net.Status.{Status}
use carrier_pigeon.Net.Filed.{Filed}
use carrier_pigeon.Table.{ser_fn}
use carrier_pigeon.Table.Parts.{fill, valid_tid}
use carrier_pigeon.Table.Parts.Codec.{encode, index, mid_of}
use carrier_pigeon.Header.{u16_to_be_bytes}
use carrier_pigeon.Header.Tcp as Header
use carrier_pigeon.Tcp
use carrier_pigeon.Tcp.{TcpCon, frame}
use carrier_pigeon.Tcp.Stream as Stream
use carrier_pigeon.Tcp.Letters.{Letter, leaves}
use carrier_pigeon.Client.{Client}
use carrier_pigeon.Client.Receive.{recv_msgs}
use carrier_pigeon.Client.Receive.Round.{arrival}
use carrier_pigeon.Server.{Server, alive}
use carrier_pigeon.Server.Send.{send_to, send_over, send_tcp, disconnect, close_con}
use carrier_pigeon.Server.Send.Mail.{client_mail_delivery}
use carrier_pigeon.Samples.{
  Bytes, copy, copy-RoundTrips, parts, entries, parts-IsBuilt, host, server, client, stream,
  tcp_con,
}

abbrev line : Letter Bytes
line = record { mid = 3; bytes = 7 ∷ []; msg = record { tid = 20; value = 7 ∷ [] } }

abbrev farewell : Letter Bytes
farewell = record { mid = 2; bytes = 4 ∷ []; msg = record { tid = 12; value = 4 ∷ [] } }

abbrev line_frame : Bytes
line_frame = 0 ∷ 3 ∷ 0 ∷ 1 ∷ 7 ∷ []

abbrev farewell_frame : Bytes
farewell_frame = 0 ∷ 2 ∷ 0 ∷ 1 ∷ 4 ∷ []

abbrev start : Server Bytes
start = server [] []

abbrev con_after : Bytes → ℕ → TcpCon
con_after sent room = record (tcp_con []) { tcp = record (stream []) { sent = sent; room = room } }

-- The server after it has sent a line to the client 1, and after it has disconnected it.
abbrev said : Server Bytes
said = record start { tcp = (1, con_after line_frame 95) ∷ (2, tcp_con []) ∷ [] }

abbrev end_con : TcpCon
end_con = record (tcp_con []) {
  tcp = record (stream []) { sent = line_frame ++ farewell_frame; room = 90; is_shut = true };
}

abbrev gone : Server Bytes
gone = record start {
  tcp = (1, end_con) ∷ (2, tcp_con []) ∷ [];
  disconnected = start.disconnected ++ (1, Status.closed) ∷ [];
}

encodes :
    (encode parts line.msg ≡ ok (3, tcp, 7 ∷ []))
    × (encode parts farewell.msg ≡ ok (2, tcp, 4 ∷ []))
unfolding encode fill valid_tid mid_of index ser_fn HashMap.get HashMap.insert HashMap.contains_key
    downcast_ref
encodes = (refl, refl)

says :
    (send_to host start 1 line.msg ≡ (said, ok tt))
    × (disconnect host said farewell.msg 1 ≡ (gone, ok tt))
unfolding send_to send_over send_tcp disconnect close_con alive Tcp.close Stream.flush
    Stream.shutdown encode fill valid_tid mid_of index ser_fn HashMap.get HashMap.insert
    HashMap.contains_key downcast_ref Tcp.send Tcp.buff_size frame Header.new Header.to_be_bytes
    u16_to_be_bytes Stream.write_all
says = (refl, refl)

holds : (HashMap.get start.tcp 1 ≡ some (tcp_con [])) × (HashMap.get gone.tcp 1 ≡ some end_con)
unfolding HashMap.get
holds = (refl, refl)

abbrev listener : Client Bytes
listener = client (line_frame ++ farewell_frame) []

client_mail_delivery_example :
    (z : Client Bytes) × (recv_msgs host listener ≡ some (ok (z, 2)))
    × Filed (map arrival (line ∷ [])) listener.msg_buff z.msg_buff
    × (z.status ≡ Status.disconnected farewell.msg)
client_mail_delivery_example =
    client_mail_delivery copy entries host host 1 start said gone (tcp_con []) end_con listener
      (line ∷ []) (leaves farewell) copy-RoundTrips parts-IsBuilt refl refl refl holds.0
      (said, encodes.0, says.0, refl) (refl, encodes.1, says.1) holds.1 refl (refl, omega arith)
      (omega arith) ((λ e. absurd (omega arith)), tt) refl
