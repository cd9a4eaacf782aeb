-- ===== src/Server.antt =====
-- src/server.rs: `Server`, its state and the tables of its connections. A method that takes
-- `&mut self`, or sends, gives back the server.
--
-- A hash map is walked in an order that the library does not fix: `order` is what a walk makes of
-- the keys.
pub mod Mirror
pub mod Typed
pub mod Send
pub mod Accept
pub mod Receive
pub mod Disconnects
mod Tests
use carrier_pigeon.Base.{
  ℕ, ◌+◌, ◌%◌, ◌^◌, List, [], Bool, true, Option, none, some, Io, ok, err, panic, length, ltb,
  if◌then◌else◌, ◌>>=◌, unwrap,
}
use carrier_pigeon.Base.Results.{invalid_data}
use carrier_pigeon.Base.Buffer.{replicate}
use carrier_pigeon.Base.HashMap
use carrier_pigeon.Base.HashMap.{HashMap}
use carrier_pigeon.Net.{CId, TypeId}
use carrier_pigeon.Net.Config.{Config}
use carrier_pigeon.Net.Status.{Status}
use carrier_pigeon.Net.Msg.{ErasedNetMsg}
use carrier_pigeon.Table.Parts as Parts
use carrier_pigeon.Table.Parts.{MsgTableParts}
use carrier_pigeon.Tcp.Stream.{TcpStream}
use carrier_pigeon.Tcp
use carrier_pigeon.Tcp.{TcpCon}
use carrier_pigeon.Udp
use carrier_pigeon.Udp.{UdpCon}
use carrier_pigeon.Udp.Socket.{UdpSocket}

-- `TcpListener`: what `accept` gives next, in order; `WouldBlock` after that.
pub record TcpListener : Type 0 where
  pub pending : List (Io TcpStream)
  pub local_addr : Io ℕ

-- A connection that has not sent its connection message, with the time of its arrival.
pub record NewCon : Type 0 where
  pub con : TcpCon
  pub cid : CId
  pub time : ℕ

pub record Server (V : Type 0) : Type 0 where
  pub current_cid : CId
  pub config : Config
  pub msg_buff : List (List (ErasedNetMsg V))
  pub new_cons : List NewCon
  pub disconnected : List (CId × Status V)
  pub listener : TcpListener
  pub tcp : HashMap TcpCon
  pub udp : UdpCon
  pub cid_addr : HashMap ℕ
  pub addr_cid : HashMap CId
  pub parts : MsgTableParts V

module _ {V : Type 0} where
  -- `listen` and `bind` are the system's: the listener, once it does not block, and a socket at an
  -- address.
  unfoldable pub new :
      Io TcpListener → (ℕ → Io UdpSocket) → MsgTableParts V → Config → Io (Server V)
  new listen bind parts config = do
    listener ← listen
    listen_addr ← unwrap listener.local_addr
    socket ← Udp.new bind listen_addr none config.max_msg_size
    ok (record {
      current_cid = 0;
      config = config;
      msg_buff = replicate (length parts.tid_map) [];
      new_cons = [];
      disconnected = [];
      listener = listener;
      tcp = [];
      udp = socket;
      cid_addr = [];
      addr_cid = [];
      parts = parts;
    })

  unfoldable pub cids : (List CId → List CId) → Server V → List CId
  cids order self = order (HashMap.keys self.cid_addr)

  unfoldable pub alive : Server V → CId → Bool
  unfolding HashMap.contains_key
  alive self cid = HashMap.contains_key self.cid_addr cid

  -- Where the system does not give the address it panics.
  unfoldable listen_addr : Server V → Io ℕ
  listen_addr self = unwrap self.listener.local_addr

  unfoldable valid_tid : Server V → TypeId → Bool
  valid_tid self tid = Parts.valid_tid self.parts tid

  unfoldable pub connection_count : Server V → ℕ
  connection_count self = length self.cid_addr

  unfoldable pub addr_of : Server V → CId → Option ℕ
  addr_of self cid = HashMap.get self.cid_addr cid

  unfoldable pub cid_of : Server V → ℕ → Option CId
  cid_of self addr = HashMap.get self.addr_cid addr

  -- `self.current_cid += 1` on a `u32`: past the largest it panics in a build with overflow checks
  -- and wraps in one without.
  unfoldable pub new_cid : Bool → Server V → Io (Server V × CId)
  new_cid overflow_checks self =
      let cid = self.current_cid + 1 in
      if ltb cid (2 ^ 32)
      then ok (record self { current_cid = cid }, cid)
      else if overflow_checks
      then panic
      else ok (record self { current_cid = cid % 2 ^ 32 }, cid % 2 ^ 32)

  -- A connection whose peer's address the system does not give panics.
  unfoldable pub add_tcp_con_cid : Server V → CId → TcpCon → Io (Server V)
  add_tcp_con_cid self cid con = do
    peer_addr ← unwrap (Tcp.peer_addr con)
    ok (record self {
      tcp = HashMap.insert self.tcp cid con;
      addr_cid = HashMap.insert self.addr_cid peer_addr cid;
      cid_addr = HashMap.insert self.cid_addr cid peer_addr;
    })

  -- A connection that is missing from `tcp` is an error, and one that is missing from `cid_addr`
  -- alone panics.
  unfoldable pub rm_tcp_con : Server V → CId → Io (Server V)
  rm_tcp_con self cid = elim (HashMap.get self.tcp cid) [
    | none ↦ err invalid_data
    | some con ↦ elim (HashMap.get self.cid_addr cid) [
      | none ↦ panic
      | some addr ↦ ok (record self {
        tcp = HashMap.remove self.tcp cid;
        cid_addr = HashMap.remove self.cid_addr cid;
        addr_cid = HashMap.remove self.addr_cid addr;
      })
    ]
  ]
