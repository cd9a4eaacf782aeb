-- ===== src/Samples.antt =====
-- Small inputs that the tests share: a codec whose values are their bytes, streams, sockets, and a
-- table of one message type.
use carrier_pigeon.Base.{ℕ, refl, List, [], ◌∷◌, true, false, none, some, ok, arith, Distinct}
use carrier_pigeon.Base.Buffer.{replicate}
use carrier_pigeon.Net.{Any, tcp}
use carrier_pigeon.Net.Config.{Config}
use carrier_pigeon.Net.Status.{Status}
use carrier_pigeon.Time.{Host}
use carrier_pigeon.Table.{Bincode, RoundTrips, Entry}
use carrier_pigeon.Table.Parts.{MsgTableParts, fill, no_parts}
use carrier_pigeon.Table.Parts.Index.{IsIndexOf, fill-IsIndexOf}
use carrier_pigeon.Table.Parts.Roundtrip.{Coded}
use carrier_pigeon.Table.Parts.Typed.{IsBuilt}
use carrier_pigeon.Table.Plain.Laws.{entry_of}
use carrier_pigeon.Tcp.Stream.{TcpStream}
use carrier_pigeon.Tcp.{TcpCon}
use carrier_pigeon.Udp.Socket.{Packet}
use carrier_pigeon.Udp.{UdpCon}
use carrier_pigeon.Client.{Client}
use carrier_pigeon.Server.{Server}

abbrev pub Bytes : Type 0
Bytes = List ℕ

abbrev pub copy : Bincode Bytes
copy = record { serialize = λ tid v. some v; deserialize = λ tid b. some b }

pub copy-RoundTrips : RoundTrips copy
copy-RoundTrips tid v bytes e = ground (arith, e)

abbrev pub host : Host
host = record { overflow_checks = true; millis = 1_000_000 }

-- A stream on which `bytes` have come.
abbrev pub stream : Bytes → TcpStream
stream bytes = record {
  inbox = bytes;
  eof = false;
  sent = [];
  room = 100;
  is_shut = false;
  fault = none;
  nonblocking = true;
  peer_addr = ok 70;
  local_addr = ok 80;
}

abbrev pub tcp_con : Bytes → TcpCon
tcp_con bytes = record { buff = replicate 12 0; tcp = stream bytes }

abbrev pub udp_con : List Packet → UdpCon
udp_con packets = record {
  buff = replicate 12 0;
  udp = record {
    inbox = packets;
    sent = [];
    fault = none;
    nonblocking = true;
    peer_addr = ok 70;
    local_addr = ok 80;
  };
}

-- The types 10, 11 and 12 are those of connecting, responding and disconnecting.
abbrev pub entries : List (Entry Bytes)
entries =
    entry_of copy 10 tcp ∷ entry_of copy 11 tcp ∷ entry_of copy 12 tcp ∷ entry_of copy 20 tcp ∷ []

abbrev pub parts : MsgTableParts Bytes
parts = fill 0 no_parts entries

pub entries-Distinct : Distinct (λ e. e.tid) entries
entries-Distinct = ground arith

pub parts-IsIndexOf : IsIndexOf parts entries
parts-IsIndexOf = fill-IsIndexOf entries entries-Distinct

pub entries-Coded : Coded copy entries
entries-Coded = ((refl, refl), ((refl, refl), ((refl, refl), ((refl, refl), tt))))

pub parts-IsBuilt : IsBuilt copy entries parts
parts-IsBuilt = record { made = refl; distinct = entries-Distinct; coded = entries-Coded }

abbrev pub message : Any Bytes
message = record { tid = 20; value = 7 ∷ 8 ∷ [] }

abbrev pub config : Config
config = record { timeout = 5; max_con_handle = 2; max_msg_size = 8 }

abbrev pub client : Bytes → List Packet → Client Bytes
client bytes packets = record {
  config = config;
  status = Status.connected;
  msg_buff = [] ∷ [] ∷ [] ∷ [] ∷ [];
  tcp = tcp_con bytes;
  udp = udp_con packets;
  parts = parts;
}

-- A server with the connections 1 and 2, at the addresses 70 and 71.
abbrev pub server : Bytes → Bytes → Server Bytes
server first second = record {
  current_cid = 2;
  config = config;
  msg_buff = [] ∷ [] ∷ [] ∷ [] ∷ [];
  new_cons = [];
  disconnected = (2, Status.closed) ∷ (3, Status.closed) ∷ [];
  listener = record { pending = []; local_addr = ok 80 };
  tcp = (1, tcp_con first) ∷ (2, tcp_con second) ∷ [];
  udp = udp_con [];
  cid_addr = (1, 70) ∷ (2, 71) ∷ [];
  addr_cid = (70, 1) ∷ (71, 2) ∷ [];
  parts = parts;
}
