-- ===== src/Server/Receive/Tests.antt =====
-- What comes on the connections of src/server.rs, at concrete inputs.
use carrier_pigeon.Base.{
  ℕ, true, ◌≡◌, ◌≤◌, ◌↔◌, ◌⊎◌, panic, refl, List, [], ◌∷◌, ◌++◌, some, Io, ok, arith, if◌then◌else◌,
  ◌==◌,
}
use carrier_pigeon.Base.HashMap
use carrier_pigeon.Net.{CId, tcp, downcast_ref}
use carrier_pigeon.Net.Filed.{Filed}
use carrier_pigeon.Table.{ser_fn}
use carrier_pigeon.Table.Parts.{fill, valid_tid}
use carrier_pigeon.Table.Parts.Codec.{encode, index, mid_of}
use carrier_pigeon.Header.{u16_to_be_bytes}
use carrier_pigeon.Header.Tcp as Header
use carrier_pigeon.Tcp
use carrier_pigeon.Tcp.{frame}
use carrier_pigeon.Tcp.Stream as Stream
use carrier_pigeon.Client as Client
use carrier_pigeon.Client.{Client}
use carrier_pigeon.Net.Status.{Status}
use carrier_pigeon.Server.{Server, cids}
use carrier_pigeon.Server.Receive.{recv_msgs, recv_tcp, recv_udp}
use carrier_pigeon.Server.Receive.Panics.{recv_tcp-panics, recv_udp-panics}
use carrier_pigeon.Udp.Socket as Socket
use carrier_pigeon.Udp.Panics.{Runt, Early, number}
use carrier_pigeon.Server.Receive.Walk.{arrivals}
use carrier_pigeon.Server.Receive.Mail.{Sent, mail_delivery}
use carrier_pigeon.Samples.{
  Bytes, copy, copy-RoundTrips, entries, parts, parts-IsBuilt, host, server, client, stream,
  tcp_con, udp_con,
}
use carrier_pigeon.Tcp.Letters.{Letter, Ending, stays, leaves}

abbrev line : Bytes → Letter Bytes
line text = record { mid = 3; bytes = text; msg = record { tid = 20; value = text } }

abbrev farewell : Letter Bytes
farewell = record { mid = 2; bytes = 4 ∷ []; msg = record { tid = 12; value = 4 ∷ [] } }

-- The first client stays and the second one disconnects.
abbrev ends : CId → Ending Bytes
ends cid = if cid == 1 then stays else leaves farewell

-- The first client sends two lines and the second one.
abbrev letters : CId → List (Letter Bytes)
letters cid = if cid == 1 then line (7 ∷ 8 ∷ []) ∷ line (9 ∷ []) ∷ [] else line (6 ∷ []) ∷ []

abbrev first_line : Bytes
first_line = 0 ∷ 3 ∷ 0 ∷ 2 ∷ 7 ∷ 8 ∷ []

abbrev second_line : Bytes
second_line = 0 ∷ 3 ∷ 0 ∷ 1 ∷ 9 ∷ []

abbrev other_line : Bytes
other_line = 0 ∷ 3 ∷ 0 ∷ 1 ∷ 6 ∷ []

abbrev farewell_line : Bytes
farewell_line = 0 ∷ 2 ∷ 0 ∷ 1 ∷ 4 ∷ []

-- A client that has sent `bytes`, where `room` are left.
abbrev said : Bytes → ℕ → Client Bytes
said bytes room = record (client [] []) {
  tcp = record (tcp_con []) { tcp = record (stream []) { sent = bytes; room = room } };
}

abbrev at : Server Bytes
at = server (first_line ++ second_line) (other_line ++ farewell_line)

abbrev say : Client Bytes → Bytes → Client Bytes × Io (Unit {0})
say c text = Client.send host c (record { tid = 20; value = text })

says :
    (say (client [] []) (7 ∷ 8 ∷ []) ≡ (said first_line 94, ok tt))
    × (say (said first_line 94) (9 ∷ []) ≡ (said (first_line ++ second_line) 89, ok tt))
    × (say (client [] []) (6 ∷ []) ≡ (said other_line 95, ok tt))
unfolding Client.send Client.send_tcp encode fill valid_tid mid_of index ser_fn HashMap.get
    HashMap.insert HashMap.contains_key downcast_ref Tcp.send Tcp.buff_size frame Header.new
    Header.to_be_bytes u16_to_be_bytes Stream.write_all
says = (refl, refl, refl)

encodes : (text : Bytes) → encode parts (record { tid = 20; value = text }) ≡ ok (3, tcp, text)
unfolding encode fill valid_tid mid_of index ser_fn HashMap.get HashMap.insert HashMap.contains_key
    downcast_ref
encodes text = refl

-- The second client once it has disconnected.
abbrev left : Client Bytes
left = record (said (other_line ++ farewell_line) 90) {
  status = Status.closed;
  tcp = record (tcp_con []) {
    tcp = record (stream []) { sent = other_line ++ farewell_line; room = 90; is_shut = true };
  };
}

leaving : Client.disconnect host (said other_line 95) farewell.msg ≡ (left, ok tt)
unfolding Client.disconnect Client.close Tcp.close Stream.flush Stream.shutdown Client.send
    Client.send_tcp encode fill valid_tid mid_of index ser_fn HashMap.get HashMap.insert
    HashMap.contains_key downcast_ref Tcp.send Tcp.buff_size frame Header.new Header.to_be_bytes
    u16_to_be_bytes Stream.write_all
leaving = refl

encoded : encode parts farewell.msg ≡ ok (2, tcp, 4 ∷ [])
unfolding encode fill valid_tid mid_of index ser_fn HashMap.get HashMap.insert HashMap.contains_key
    downcast_ref
encoded = refl

first_Sent : Sent copy entries at 1 (letters 1) (ends 1)
unfolding HashMap.get
first_Sent = record {
  host = host;
  client = client [] [];
  last = said (first_line ++ second_line) 89;
  after = said (first_line ++ second_line) 89;
  ends = refl;
  con = tcp_con (first_line ++ second_line);
  same = refl;
  posts = (
    said first_line 94,
    encodes _,
    says.0,
    (said (first_line ++ second_line) 89, encodes _, says.1, refl),
  );
  held = refl;
  readable = record { works = refl; not_over = refl; not_shut = refl };
  come = refl;
  fits = omega arith;
  stay = ((λ e. absurd (omega arith)), ((λ e. absurd (omega arith)), tt));
}

other_Sent : Sent copy entries at 2 (letters 2) (ends 2)
unfolding HashMap.get
other_Sent = record {
  host = host;
  client = client [] [];
  last = said other_line 95;
  after = left;
  ends = (encoded, leaving);
  con = tcp_con (other_line ++ farewell_line);
  same = refl;
  posts = (said other_line 95, encodes _, says.2, refl);
  held = refl;
  readable = (refl, omega arith);
  come = refl;
  fits = omega arith;
  stay = ((λ e. absurd (omega arith)), tt);
}

mail_delivery_example :
    (z : Server Bytes) × (recv_msgs host (λ c. c) at ≡ some (ok (z, 4)))
    × Filed (arrivals letters (1 ∷ 2 ∷ [])) at.msg_buff z.msg_buff
    × (z.disconnected ≡ at.disconnected ++ (2, Status.disconnected farewell.msg) ∷ [])
unfolding cids HashMap.keys
mail_delivery_example =
    mail_delivery copy entries host (λ c. c) at letters ends copy-RoundTrips parts-IsBuilt refl
      (((λ e. absurd (omega arith)), tt), (tt, tt)) (first_Sent, (other_Sent, tt)) refl

-- A message with the number 4, which was not given out, has come from the first client.
abbrev unknown : Server Bytes
unknown = server (0 ∷ 4 ∷ 0 ∷ 1 ∷ 9 ∷ []) []

recv_tcp-panics_example :
    ((recv_tcp unknown 1).1 ≡ panic)
    ↔ ((bytes : Bytes) × ((Tcp.recv (tcp_con (0 ∷ 4 ∷ 0 ∷ 1 ∷ 9 ∷ []))).1 ≡ ok (4, bytes)))
unfolding HashMap.get
recv_tcp-panics_example =
    recv_tcp-panics copy entries unknown 1 (tcp_con (0 ∷ 4 ∷ 0 ∷ 1 ∷ 9 ∷ [])) parts-IsBuilt refl
      (ground arith)

-- A datagram of two bytes has come from an address that no client has.
abbrev runt : Server Bytes
runt = record (server [] []) { udp = udp_con (ok (99, 1 ∷ 2 ∷ []) ∷ []) }

recv_udp-panics_example :
    ((recv_udp host runt).1 ≡ panic)
    ↔ (Runt (1 ∷ 2 ∷ []) ⊎ Early host (1 ∷ 2 ∷ []) ⊎ ((4 ≤ 2) × (number (1 ∷ 2 ∷ []) ≡ 4)))
unfolding Socket.recv_from
recv_udp-panics_example =
    recv_udp-panics copy entries runt host (udp_con []).udp 99 (1 ∷ 2 ∷ []) parts-IsBuilt refl
