-- ===== src/Server/Accept/Tests.antt =====
-- New connections of src/server.rs at concrete inputs.
use carrier_pigeon.Base.{ℕ, ◌+◌, ◌≡◌, refl, [], ◌∷◌, true, false, some, ok, err, arith, get_elem?}
use carrier_pigeon.Base.Results.{timed_out}
use carrier_pigeon.Base.Buffer.{replicate}
use carrier_pigeon.Base.HashMap
use carrier_pigeon.Net.{Any, tcp, DeserFn, downcast_ref}
use carrier_pigeon.Table.{deser_fn, ser_fn}
use carrier_pigeon.Table.Parts.{fill, valid_tid}
use carrier_pigeon.Table.Parts.Codec.{encode, index, mid_of}
use carrier_pigeon.Header.{u16_to_be_bytes, u16_from_be_bytes}
use carrier_pigeon.Header.Tcp as Header
use carrier_pigeon.Tcp
use carrier_pigeon.Tcp.{TcpCon, frame}
use carrier_pigeon.Tcp.Stream as Stream
use carrier_pigeon.Client as Client
use carrier_pigeon.Client.{Client}
use carrier_pigeon.Server.{Server, NewCon}
use carrier_pigeon.Server.Accept.{start_incoming, accept_pending, handle_con_helper, read_con_msg}
use carrier_pigeon.Server.Accept.Handle.{Hook, handle_pending}
use carrier_pigeon.Server.Accept.Pass.{Waits, asked}
use carrier_pigeon.Server.Accept.Steps.{with_con}
use carrier_pigeon.Server.Accept.One.{one_answered, one_dead}
use carrier_pigeon.Server.Accept.Handshake.{connects}
use carrier_pigeon.Samples.{
  Bytes, copy, copy-RoundTrips, entries, parts, parts-IsBuilt, host, server, client, stream,
  tcp_con,
}

abbrev new_con : Bytes → ℕ → ℕ → NewCon
new_con bytes cid time = record { con = tcp_con bytes; cid = cid; time = time }

-- Of three connections that wait, the second has sent its connection message.
abbrev waiting : Server Bytes
waiting = record (server [] []) {
  current_cid = 5;
  new_cons = new_con [] 3 6 ∷ new_con (0 ∷ 0 ∷ 0 ∷ 1 ∷ 5 ∷ []) 4 7 ∷ new_con [] 5 7 ∷ [];
}

-- Two connections wait, and neither has sent anything.
abbrev late : Server Bytes
late = record waiting { new_cons = new_con [] 3 6 ∷ new_con [] 5 7 ∷ [] }

late_started : start_incoming true 12 late ≡ ok late
unfolding start_incoming accept_pending
late_started = refl

reader : DeserFn Bytes
reader = deser_fn copy 10

reads : get_elem? parts.deser 0 ≡ some reader
unfolding fill reader
reads = refl

started : start_incoming true 8 waiting ≡ ok waiting
unfolding start_incoming accept_pending
started = refl

abbrev con_msg : Any Bytes
con_msg = record { tid = 10; value = 5 ∷ [] }

abbrev response : Any Bytes
response = record { tid = 11; value = 9 ∷ [] }

-- Each client is counted, and rejected or accepted.
abbrev turn_away : Hook Bytes ℕ
turn_away n cid c = (n + 1, false, response)

abbrev welcome : Hook Bytes ℕ
welcome n cid c = (n + 1, true, response)

first-Waits : Waits reader 10 5 8 (new_con [] 3 6)
unfolding handle_con_helper Tcp.recv Stream.peek
first-Waits = refl

last-Waits : Waits reader 10 5 8 (new_con [] 5 7)
unfolding handle_con_helper Tcp.recv Stream.peek
last-Waits = refl

it_asks : (handle_con_helper reader 10 5 8 (new_con (0 ∷ 0 ∷ 0 ∷ 1 ∷ 5 ∷ []) 4 7)).1 ≡ ok (5 ∷ [])
unfolding handle_con_helper read_con_msg reader deser_fn downcast_ref Tcp.recv Tcp.recv_header
    Tcp.recv_message Tcp.read_message Tcp.max_msg_size Stream.peek Stream.read_exact
    Header.from_be_bytes u16_from_be_bytes
it_asks = refl

-- Later, the first has run out of time.
it_failed : (handle_con_helper reader 10 5 12 (new_con [] 3 6)).1 ≡ err timed_out
unfolding handle_con_helper
it_failed = refl

last-Waits_on : Waits reader 10 5 12 (new_con [] 5 7)
unfolding handle_con_helper Tcp.recv Stream.peek
last-Waits_on = refl

-- The client that sends the connection message, and gets the response.
abbrev asking : Client Bytes
asking = client (0 ∷ 1 ∷ 0 ∷ 1 ∷ 9 ∷ []) []

abbrev asked_it : Client Bytes
asked_it = record asking {
  tcp = record asking.tcp {
    tcp = record asking.tcp.tcp { sent = 0 ∷ 0 ∷ 0 ∷ 1 ∷ 5 ∷ []; room = 95 };
  };
}

asks : encode parts con_msg ≡ ok (0, tcp, 5 ∷ [])
unfolding encode fill valid_tid mid_of index ser_fn HashMap.get HashMap.insert HashMap.contains_key
    downcast_ref
asks = refl

answers : encode parts response ≡ ok (1, tcp, 9 ∷ [])
unfolding encode fill valid_tid mid_of index ser_fn HashMap.get HashMap.insert HashMap.contains_key
    downcast_ref
answers = refl

sends : Client.send host asking con_msg ≡ (asked_it, ok tt)
unfolding Client.send Client.send_tcp encode fill valid_tid mid_of index ser_fn HashMap.get
    HashMap.insert HashMap.contains_key downcast_ref Tcp.send Tcp.buff_size frame Header.new
    Header.to_be_bytes u16_to_be_bytes Stream.write_all
sends = refl

-- The server's end once the response went out.
abbrev answered_con : TcpCon
answered_con = record {
  buff = 0 ∷ 0 ∷ 0 ∷ 1 ∷ 5 ∷ replicate 7 0;
  tcp = record (stream []) { sent = 0 ∷ 1 ∷ 0 ∷ 1 ∷ 9 ∷ []; room = 95 };
}

answers_it :
    Tcp.send (asked reader 10 5 8 (new_con (0 ∷ 0 ∷ 0 ∷ 1 ∷ 5 ∷ []) 4 7)).con 1 (9 ∷ [])
    ≡ (answered_con, ok tt)
unfolding handle_con_helper reader deser_fn Tcp.recv Tcp.recv_header Tcp.recv_message
    Tcp.read_message Tcp.max_msg_size Stream.peek Stream.read_exact Header.from_be_bytes
    u16_from_be_bytes Tcp.send Tcp.buff_size frame Header.new Header.to_be_bytes u16_to_be_bytes
    Stream.write_all
answers_it = refl

it_comes_from :
    Tcp.peer_addr (asked reader 10 5 8 (new_con (0 ∷ 0 ∷ 0 ∷ 1 ∷ 5 ∷ []) 4 7)).con ≡ ok 70
unfolding handle_con_helper reader deser_fn Tcp.recv Tcp.recv_header Tcp.recv_message
    Tcp.read_message Tcp.max_msg_size Stream.peek Stream.read_exact Header.from_be_bytes
    u16_from_be_bytes Tcp.peer_addr
it_comes_from = refl

one_answered_example :
    handle_pending true host 8 turn_away 10 0 waiting
    ≡ ok (
      record waiting { new_cons = (asked reader 10 5 8 (new_con [] 3 6)) ∷ new_con [] 5 7 ∷ [] },
      1,
      1,
      (Tcp.send (asked reader 10 5 8 (new_con (0 ∷ 0 ∷ 0 ∷ 1 ∷ 5 ∷ []) 4 7)).con 1 (9 ∷ [])).0 ∷ [],
    )
one_answered_example =
    one_answered true host 8 turn_away 10 0 waiting waiting reader (new_con [] 3 6 ∷ [])
      (new_con (0 ∷ 0 ∷ 0 ∷ 1 ∷ 5 ∷ []) 4 7) (new_con [] 5 7 ∷ []) started reads refl
      (first-Waits, tt) (last-Waits, tt) false (5 ∷ []) response 1 70 (9 ∷ []) it_asks refl
      it_comes_from answers

one_dead_example :
    handle_pending false host 12 welcome 10 0 late
    ≡ ok (record late { new_cons = (asked reader 10 5 12 (new_con [] 5 7)) ∷ [] }, 0, 0, [])
one_dead_example =
    one_dead false host 12 welcome 10 0 late late reader [] (new_con [] 3 6) (new_con [] 5 7 ∷ [])
      late_started reads refl tt (last-Waits_on, tt) timed_out it_failed (λ e. cc)

connects_example :
    (y : Client Bytes) × (handle_pending false host 8 welcome 10 0 waiting
      ≡ ok (
        with_con
            (record waiting {
              new_cons =
                  asked reader 10 5 8 (new_con [] 3 6) ∷ asked reader 10 5 8 (new_con [] 5 7) ∷ [];
            })
            4
            answered_con
            70,
        1,
        1,
        [],
      ))
    × (Client.handshake host asking con_msg ≡ ok (y, response))
    × (y.status ≡ asking.status)
connects_example =
    connects copy entries false host host 8 welcome 0 1 asking asked_it waiting waiting reader
      (new_con [] 3 6 ∷ []) (new_con (0 ∷ 0 ∷ 0 ∷ 1 ∷ 5 ∷ []) 4 7) (new_con [] 5 7 ∷ []) con_msg
      response (5 ∷ []) (9 ∷ []) answered_con 70 copy-RoundTrips parts-IsBuilt refl reads started
      refl (first-Waits, tt) (last-Waits, tt) asks answers sends refl refl refl refl (omega arith)
      (omega arith) refl refl answers_it refl refl (omega arith) (omega arith) true refl
