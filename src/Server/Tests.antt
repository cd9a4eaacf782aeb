-- ===== src/Server/Tests.antt =====
-- A server of src/server.rs with concrete connections.
use carrier_pigeon.Base.{
  ℕ, suc, ◌≡◌, refl, true, not, ◌&&◌, List, [], ◌∷◌, some, ok, panic, Io, arith, Distinct,
}
use carrier_pigeon.Base.HashMap
use carrier_pigeon.Net.{CId, tcp, downcast_ref}
use carrier_pigeon.Net.Status.{Status}
use carrier_pigeon.Net.CIdSpec.{except, matches}
use carrier_pigeon.Header.Tcp as Header
use carrier_pigeon.Tcp
use carrier_pigeon.Tcp.{frame}
use carrier_pigeon.Tcp.Stream.{write_all}
use carrier_pigeon.Table.{ser_fn}
use carrier_pigeon.Table.Parts.{valid_tid, fill}
use carrier_pigeon.Table.Parts.Codec.{encode, index, mid_of}
use carrier_pigeon.Server.{Server, NewCon, alive, cids}
use carrier_pigeon.Server.Mirror.{IsMirror}
use carrier_pigeon.Server.Disconnects.{handle_disconnects}
use carrier_pigeon.Server.Disconnects.Laws.{queued, handle_disconnects_total}
use carrier_pigeon.Server.Send.{send_spec, send_each, send_to, send_over, send_tcp, go_on}
use carrier_pigeon.Server.Send.Laws.{Wrote, listed, send_spec-Wrote}
use carrier_pigeon.Server.Receive.{Progress, recv_msgs}
use carrier_pigeon.Server.Receive.Laws.{server_recv_msgs_total}
use carrier_pigeon.Server.Accept.Handle.{Hook, handle_new_cons}
use carrier_pigeon.Server.Accept.{start_incoming}
use carrier_pigeon.Tcp.Stream.{TcpStream}
use carrier_pigeon.Server.Accept.Numbers.{Accepts, accepted, start_incoming-accepted}
use carrier_pigeon.Server.Accept.Laws.{handle_new_cons_timeout-panics}
use carrier_pigeon.Samples.{Bytes, host, tcp_con, stream, parts, message, server}

abbrev both : Server Bytes
both = server [] []

both-IsMirror : IsMirror both
unfolding HashMap.get HashMap.contains_key
both-IsMirror = record {
  there = λ c a e. ground (arith, e);
  back = λ a c e. ground (arith, e);
  connected = λ c a e. ground (arith, e);
  addressed = λ c e. ground (arith, e);
}

-- The hook counts its calls.
abbrev count : ℕ → CId → Status Bytes → ℕ
count n cid status = suc n

handle_disconnects_total_example :
    (r : Server Bytes × ℕ × ℕ) × (handle_disconnects count 0 both ≡ ok r)
    × IsMirror r.0
    × (r.0.disconnected ≡ [])
    × ((c : CId) → alive r.0 c ≡ (alive both c && not (queued both.disconnected c)))
    × (r.1 ≡ 1)
    × (r.2 ≡ 1)
unfolding alive HashMap.contains_key HashMap.get
handle_disconnects_total_example = handle_disconnects_total count 0 both both-IsMirror

abbrev same : List CId → List CId
same cids = cids

encoded : encode parts message ≡ ok (3, tcp, 7 ∷ 8 ∷ [])
unfolding encode index mid_of valid_tid ser_fn downcast_ref fill HashMap.get HashMap.insert
    HashMap.contains_key
encoded = refl

both-Distinct : Distinct (λ c. c) (cids same both)
unfolding cids HashMap.keys
both-Distinct = ground arith

send_spec-Wrote_example :
    Wrote
      (λ c. listed (cids same both) c && matches (except 2) c)
      3
      (7 ∷ 8 ∷ [])
      both.tcp
      (send_spec host same both (except 2) message).0.tcp
unfolding send_spec matches send_each go_on send_to send_over send_tcp cids HashMap.keys HashMap.get
    HashMap.insert encode index mid_of valid_tid ser_fn downcast_ref fill HashMap.contains_key
    Tcp.send Tcp.buff_size frame write_all Header.to_be_bytes
send_spec-Wrote_example =
    send_spec-Wrote host same both (except 2) message 3 (7 ∷ 8 ∷ []) encoded both-Distinct sent
  where
    sent : (send_spec host same both (except 2) message).1 ≡ ok tt
    sent = refl

server_recv_msgs_total_example :
    (r : Io (Progress Bytes)) × (recv_msgs host same (server (0 ∷ 3 ∷ 0 ∷ 1 ∷ 9 ∷ []) (0 ∷ 2 ∷ []))
      ≡ some r)
server_recv_msgs_total_example =
    server_recv_msgs_total host same (server (0 ∷ 3 ∷ 0 ∷ 1 ∷ 9 ∷ []) (0 ∷ 2 ∷ []))

abbrev welcome : Hook Bytes ℕ
welcome n cid c = (suc n, true, message)

abbrev stale : ℕ → NewCon
stale cid = record { con = tcp_con []; cid = cid; time = 0 }

abbrev waiting_two : Server Bytes
waiting_two = record both { new_cons = stale 3 ∷ stale 4 ∷ [] }

handle_new_cons_timeout-panics_example : handle_new_cons host 100 welcome 10 0 waiting_two ≡ panic
handle_new_cons_timeout-panics_example =
    handle_new_cons_timeout-panics host 100 welcome 10 0 waiting_two refl (ground arith)
      (ground arith)

abbrev listening : Server Bytes
listening = record both {
  listener = record both.listener {
    pending = ok (stream []) ∷ ok (stream (1 ∷ [])) ∷ ok (stream []) ∷ [];
  };
}

start_incoming-accepted_example :
    (taken : List TcpStream) × (left : List TcpStream) × Accepts listening
      (stream [] ∷ stream (1 ∷ []) ∷ stream [] ∷ [])
      taken
      left
    × (start_incoming true 7 listening ≡ ok (accepted 7 listening taken left))
start_incoming-accepted_example =
    start_incoming-accepted true 7 (stream [] ∷ stream (1 ∷ []) ∷ stream [] ∷ []) listening refl
      (ground arith)
