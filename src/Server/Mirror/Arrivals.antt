-- ===== src/Server/Mirror/Arrivals.antt =====
-- What happens to a server of src/server.rs between two calls: the system takes what its clients
-- send and gives what it sent, new clients come, and connections break.
use carrier_pigeon.Base.{◌≡◌, refl, ap, sym, ◌∙◌, List, [], ◌∷◌, ◌++◌, some, Io}
use carrier_pigeon.Base.HashMap
use carrier_pigeon.Net.{CId}
use carrier_pigeon.Tcp.{TcpCon}
use carrier_pigeon.Tcp.Stream.{TcpStream}
use carrier_pigeon.Udp.Socket.{UdpSocket}
use carrier_pigeon.Server.{Server, NewCon}
use carrier_pigeon.Server.Mirror.{tags}
use carrier_pigeon.Server.Mirror.Kept.{Kept, replaced}

-- A stream becomes any other from the same peer, the socket any other socket.
pub data Arrives {V : Type 0} : Server V → Server V → Type 0 where
  on_tcp :
      (self : Server V) (cid : CId) (con : TcpCon) (stream : TcpStream)
      → HashMap.get self.tcp cid ≡ some con
      → stream.peer_addr ≡ con.tcp.peer_addr
      → Arrives self
          (record self { tcp = HashMap.insert self.tcp cid (record con { tcp = stream }) })
  on_udp :
      (self : Server V) (socket : UdpSocket)
      → Arrives self (record self { udp = record self.udp { udp = socket } })
  on_listener :
      (self : Server V) (pending : List (Io TcpStream))
      → Arrives self (record self { listener = record self.listener { pending = pending } })
  on_waiting :
      (self : Server V) (before : List NewCon) (new : NewCon) (after : List NewCon)
      (stream : TcpStream)
      → self.new_cons ≡ before ++ new ∷ after
      → stream.peer_addr ≡ new.con.tcp.peer_addr
      → Arrives self (record self {
        new_cons = before ++ record new { con = record new.con { tcp = stream } } ∷ after;
      })

same_tags :
    (before : List NewCon) (new : NewCon) (after : List NewCon) (stream : TcpStream)
    → stream.peer_addr ≡ new.con.tcp.peer_addr
    → tags (before ++ record new { con = record new.con { tcp = stream } } ∷ after)
      ≡ tags (before ++ new ∷ after)
same_tags [] new after stream peer = ap (λ a. (new.cid, a) ∷ tags after) peer
same_tags (n ∷ before) new after stream peer =
    ap (λ ts. (n.cid, n.con.tcp.peer_addr) ∷ ts) (same_tags before new after stream peer)

module _ {V : Type 0} where
  -- The tables of connections stay as they are.
  pub Arrives-Kept : (self s : Server V) → Arrives self s → Kept self s
  Arrives-Kept self _ (on_tcp _ cid con stream held peer) = record {
    current = refl;
    waiting = refl;
    cid_addr = refl;
    addr_cid = refl;
    tcp = λ c. replaced self.tcp cid con (record con { tcp = stream }) c held;
  }
  Arrives-Kept self _ (on_udp _ socket) = record {
    current = refl;
    waiting = refl;
    cid_addr = refl;
    addr_cid = refl;
    tcp = λ c. refl;
  }
  Arrives-Kept self _ (on_listener _ pending) = record {
    current = refl;
    waiting = refl;
    cid_addr = refl;
    addr_cid = refl;
    tcp = λ c. refl;
  }
  Arrives-Kept self _ (on_waiting _ before new after stream there peer) = record {
    current = refl;
    waiting = same_tags before new after stream peer ∙ ap tags (sym there);
    cid_addr = refl;
    addr_cid = refl;
    tcp = λ c. refl;
  }
