-- ===== src/Server/Mirror/Reach.antt =====
-- The states that a server of src/server.rs goes through.
use carrier_pigeon.Base.{
  ◌+◌, ◌^◌, ◌<◌, length, sym, Bool, [], subst, err, panic, filter_by, ℕ, ◌≡◌, List, none, some, Io,
  ok, Outcome-cases, inl, inr, arith,
}
use carrier_pigeon.Base.HashMap
use carrier_pigeon.Net.{CId, TypeId, Any}
use carrier_pigeon.Net.Config.{Config}
use carrier_pigeon.Net.Status.{Status}
use carrier_pigeon.Net.CIdSpec.{CIdSpec, matches}
use carrier_pigeon.Time.{Host}
use carrier_pigeon.Table.Parts.{MsgTableParts}
use carrier_pigeon.Udp
use carrier_pigeon.Udp.Socket.{UdpSocket}
use carrier_pigeon.Server.{cids, Server, TcpListener, new}
use carrier_pigeon.Server.Send.{send_to, broadcast, send_spec, disconnect}
use carrier_pigeon.Server.Receive.{Progress, recv_msgs, clear_msgs}
use carrier_pigeon.Server.Disconnects.{handle_disconnect, handle_disconnects}
use carrier_pigeon.Server.Disconnects.Laws.{handle_disconnects_total, handle_disconnect-IsMirror}
use carrier_pigeon.Server.Mirror.{IsMirror, IsNumbered, HaveAddrs, Sound, tags}
use carrier_pigeon.Server.Accept.Handle.{Hook, handle_new_con, handle_new_cons}
use carrier_pigeon.Server.Mirror.Removed.{handle_disconnects-Numbers, handle_disconnect-Numbers}
use carrier_pigeon.Server.Mirror.Pending.{handle_new_cons-Sound, handle_new_con-Sound}
use carrier_pigeon.Server.Mirror.Kept.{
  Kept, Kept-IsMirror, Kept-IsNumbered, send_to-Kept, send_each-Kept, disconnect-Kept,
}
use carrier_pigeon.Server.Accept.{start_incoming}
use carrier_pigeon.Server.Mirror.Accepted.{start_incoming-Sound}
use carrier_pigeon.Server.Mirror.Arrivals.{Arrives, Arrives-Kept}
use carrier_pigeon.Server.Mirror.Received.{recv_msgs-Kept}

-- What a program does with a server, and what happens to it in between. The numbers of connections do not run out, and where new
-- connections are handled those that wait have addresses that differ and that no connection has.
pub data Step {V : Type 0} : Server V → Server V → Type 1 where
  arrives : (self s : Server V) → Arrives self s → Step self s
  sends :
      (h : Host) (self : Server V) (cid : CId) (msg : Any V) → Step self (send_to h self cid msg).0
  broadcasts :
      (h : Host) (order : List CId → List CId) (self : Server V) (msg : Any V)
      → Step self (broadcast h order self msg).0
  sends_spec :
      (h : Host) (order : List CId → List CId) (self : Server V) (spec : CIdSpec) (msg : Any V)
      → Step self (send_spec h order self spec msg).0
  disconnects :
      (h : Host) (self : Server V) (msg : Any V) (cid : CId)
      → Step self (disconnect h self msg cid).0
  receives :
      (h : Host) (order : List CId → List CId) (self : Server V) (z : Progress V)
      → recv_msgs h order self ≡ some (ok z)
      → Step self z.0
  clears : (self : Server V) → Step self (clear_msgs self)
  handles :
      {H : Type 0} (hook : H → CId → Status V → H) (st : H) (self : Server V) (r : Server V × H × ℕ)
      → handle_disconnects hook st self ≡ ok r
      → Step self r.0
  handles_one :
      {H : Type 0} (hook : H → CId → Status V → H) (st : H) (self : Server V)
      (r : Server V × H × Bool)
      → handle_disconnect hook st self ≡ ok r
      → Step self r.0
  starts_incoming :
      (oc : Bool) (now : ℕ) (self s : Server V)
      → self.current_cid + length self.listener.pending < 2 ^ 32
      → start_incoming oc now self ≡ ok s
      → Step self s
  handles_new_cons :
      {H : Type 0} (h : Host) (now : ℕ) (hook : Hook V H) (tid : TypeId) (st : H)
      (self s : Server V) (r : Server V × H × ℕ)
      → self.current_cid + length self.listener.pending < 2 ^ 32
      → start_incoming h.overflow_checks now self ≡ ok s
      → HaveAddrs s (tags s.new_cons)
      → handle_new_cons h now hook tid st self ≡ ok r
      → Step self r.0
  handles_new_con :
      {H : Type 0} (h : Host) (now : ℕ) (hook : Hook V H) (tid : TypeId) (st : H)
      (self s : Server V) (r : Server V × H × Bool)
      → self.current_cid + length self.listener.pending < 2 ^ 32
      → start_incoming h.overflow_checks now self ≡ ok s
      → HaveAddrs s (tags s.new_cons)
      → handle_new_con h now hook tid st self ≡ ok r
      → Step self r.0

-- The states of a server that was made with the parts `p`.
pub data Reachable {V : Type 0} (p : MsgTableParts V) : Server V → Type 1 where
  starts :
      (listen : Io TcpListener) (bind : ℕ → Io UdpSocket) (config : Config) (self : Server V)
      → new listen bind p config ≡ ok self
      → Reachable p self
  goes_on : (self s : Server V) → Reachable p self → Step self s → Reachable p s

module _ {V : Type 0} where
  empty-Sound :
      (self : Server V)
      → self.cid_addr ≡ []
      → self.addr_cid ≡ []
      → self.tcp ≡ []
      → self.new_cons ≡ []
      → Sound self
  unfolding HashMap.contains_key HashMap.get
  empty-Sound self a b c d = (
    record {
      there = λ cid addr e. absurd (ground (arith, e));
      back = λ addr cid e. absurd (ground (arith, e));
      connected = λ cid addr e. absurd (ground (arith, e));
      addressed = λ cid e. ground (arith, e);
    },
    subst (λ news. IsNumbered self (tags news)) (sym d)
        (record {
          bounded = tt;
          new_cids = tt;
          cids = tt;
          below = λ cid addr e. absurd (ground (arith, e));
        }),
  )

  new-Sound :
      (listen : Io TcpListener) (bind : ℕ → Io UdpSocket) (parts : MsgTableParts V)
      (config : Config) (self : Server V)
      → new listen bind parts config ≡ ok self
      → Sound self
  unfolding new
  new-Sound (ok listener) bind parts config self e = elim (Outcome-cases listener.local_addr) [
    | inl (addr, q) ↦ elim (Outcome-cases (Udp.new bind addr none config.max_msg_size)) [
      | inl (con, g) ↦ empty-Sound self (ground arith) (ground arith) (ground arith) (ground arith)
      | inr (inl (x, g)) ↦ absurd (ground arith)
      | inr (inr g) ↦ absurd (ground arith)
    ]
    | inr (inl (x, q)) ↦ absurd (ground arith)
    | inr (inr q) ↦ absurd (ground arith)
  ]
  new-Sound (err x) bind parts config self e = absurd (ground arith)
  new-Sound panic bind parts config self e = absurd (ground arith)

  Kept-Sound : (self s : Server V) → Kept self s → Sound self → Sound s
  Kept-Sound self s k (m, n) = (Kept-IsMirror self s k m, Kept-IsNumbered self s k n)

  Step-Sound : (self s : Server V) → Step self s → Sound self → Sound s
  unfolding broadcast send_spec clear_msgs
  Step-Sound self s (arrives _ _ came) k = Kept-Sound self s (Arrives-Kept self s came) k
  Step-Sound self _ (sends h _ cid msg) k = Kept-Sound self _ (send_to-Kept h self cid msg) k
  Step-Sound self _ (broadcasts h order _ msg) k =
      Kept-Sound self _ (send_each-Kept h self (cids order self) msg) k
  Step-Sound self _ (sends_spec h order _ spec msg) k =
      Kept-Sound self _
        (send_each-Kept h self (filter_by (λ cid. matches spec cid) (cids order self)) msg) k
  Step-Sound self _ (disconnects h _ msg cid) k =
      Kept-Sound self _ (disconnect-Kept h self msg cid) k
  Step-Sound self s (receives h order _ z e) k =
      Kept-Sound self z.0 (recv_msgs-Kept h order self z e) k
  Step-Sound self _ (clears _) (m, n) = (
    record { there = m.there; back = m.back; connected = m.connected; addressed = m.addressed },
    record { bounded = n.bounded; new_cids = n.new_cids; cids = n.cids; below = n.below },
  )
  Step-Sound self s (handles {H = H} hook st _ r e) (m, n) =
      let (r', e', mirror, _, _, _, _) = handle_disconnects_total hook st self m in
      let same : r' ≡ r = ground (arith, e, e') in
      (
        subst (λ (t : Server V × H × ℕ). IsMirror t.0) same mirror,
        handle_disconnects-Numbers hook st self r e n,
      )
  Step-Sound self s (handles_one hook st _ r e) (m, n) =
      (handle_disconnect-IsMirror hook st self r m e, handle_disconnect-Numbers hook st self r e n)
  Step-Sound self s (starts_incoming oc now _ _ room e) k =
      start_incoming-Sound oc now self s room e k
  Step-Sound self _ (handles_new_cons h now hook tid st _ s r room came addrs e) k =
      handle_new_cons-Sound h now hook tid st self s r came addrs e
        (start_incoming-Sound h.overflow_checks now self s room came k)
  Step-Sound self _ (handles_new_con h now hook tid st _ s r room came addrs e) k =
      handle_new_con-Sound h now hook tid st self s r came addrs e
        (start_incoming-Sound h.overflow_checks now self s room came k)

  -- In every state that a new server reaches by sending, receiving, clearing messages,
  -- disconnecting, handling disconnects and handling new connections, whatever the hooks answer and
  -- whatever comes on its streams, its socket and its listener between the calls, its
  -- tables of connections mirror each other, and the numbers of those that wait differ, belong to no
  -- connection, and are not past the last one given. The numbers do not run out, and where new
  -- connections are handled those that wait have addresses that differ and that no connection has.
  pub Reachable-Sound : (p : MsgTableParts V) (self : Server V) → Reachable p self → Sound self
  Reachable-Sound p self (starts listen bind config _ e) = new-Sound listen bind p config self e
  Reachable-Sound p s (goes_on self _ before step) =
      Step-Sound self s step (Reachable-Sound p self before)
