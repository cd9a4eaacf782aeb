-- ===== src/Server/Typed/Reach.antt =====
-- What a server of src/server.rs gives the program, in every state that it goes through.
use carrier_pigeon.Base.{
  ℕ, ◌≡◌, ◌⊎◌, refl, ap, sym, ◌∙◌, subst, List, [], map, none, some, Io, ok, panic, unwrap, length,
  get_elem?, inl, inr, arith,
}
use carrier_pigeon.Base.HashMap
use carrier_pigeon.Base.Buffer.{replicate}
use carrier_pigeon.Base.Results.{ok_before}
use carrier_pigeon.Net.{MId, TypeId}
use carrier_pigeon.Net.Config.{Config}
use carrier_pigeon.Net.Msg.{ErasedNetMsg}
use carrier_pigeon.Table.{Bincode, Entry}
use carrier_pigeon.Table.Parts.{MsgTableParts, valid_tid}
use carrier_pigeon.Table.Parts.Codec.{index, mid_of}
use carrier_pigeon.Table.Parts.Count.{length-tid_map}
use carrier_pigeon.Table.Parts.Typed.{
  IsTyped, IsBuilt, replicate-IsTyped, clear_all-IsTyped, buffer_cases, as_net_msg,
}
use carrier_pigeon.Udp
use carrier_pigeon.Udp.Socket.{UdpSocket}
use carrier_pigeon.Server.{Server, TcpListener, new, cids}
use carrier_pigeon.Server.Send.{broadcast}
use carrier_pigeon.Server.Receive.{recv, try_recv, clear_msgs}
use carrier_pigeon.Server.Mirror.Reach.{
  Step, arrives, sends, broadcasts, sends_spec, disconnects, receives, clears, handles, handles_one,
  starts_incoming, handles_new_cons, handles_new_con, Reachable, starts, goes_on,
}
use carrier_pigeon.Server.Typed.{Holds, Same-Holds}
use carrier_pigeon.Server.Typed.Sent.{send_to-Same, send_each-Same, send_spec-Same, disconnect-Same}
use carrier_pigeon.Server.Typed.Handled.{start_incoming-Same, Arrives-Same}
use carrier_pigeon.Server.Typed.Hooked.{
  handle_disconnects-Same, handle_disconnect-Same, handle_new_cons-Same, handle_new_con-Same,
}
use carrier_pigeon.Server.Typed.Looped.{recv_msgs-Holds}

module _ {V : Type 0} (bin : Bincode V) (es : List (Entry V)) (p : MsgTableParts V) where
  new-Holds :
      (b : IsBuilt bin es p) (listen : Io TcpListener) (bind : ℕ → Io UdpSocket) (config : Config)
      (self : Server V)
      → new listen bind p config ≡ ok self
      → Holds es p self
  unfolding new
  new-Holds b listen bind config self e =
      let (listener, _, e1) = ok_before listen _ self e in
      let (addr, _, e2) = ok_before (unwrap listener.local_addr) _ self e1 in
      let (socket, _, e3) = ok_before (Udp.new bind addr none config.max_msg_size) _ self e2 in
      let count : length p.tid_map ≡ length es =
        ap (λ q. length q.tid_map) b.made ∙ length-tid_map es b.distinct in
      record {
        same = ground (arith, e3);
        typed =
            subst (IsTyped es) (ap (λ n. replicate n []) (sym count) ∙ ground (arith, e3))
              (replicate-IsTyped es);
      }

  Step-Holds :
      (b : IsBuilt bin es p) (self s : Server V) → Step self s → Holds es p self → Holds es p s
  unfolding broadcast clear_msgs
  Step-Holds b self s (arrives _ _ came) k = Same-Holds es p self s (Arrives-Same self s came) k
  Step-Holds b self _ (sends h _ cid msg) k = Same-Holds es p self _ (send_to-Same h self cid msg) k
  Step-Holds b self _ (broadcasts h order _ msg) k =
      Same-Holds es p self _ (send_each-Same h self (cids order self) msg) k
  Step-Holds b self _ (sends_spec h order _ spec msg) k =
      Same-Holds es p self _ (send_spec-Same h order self spec msg) k
  Step-Holds b self _ (disconnects h _ msg cid) k =
      Same-Holds es p self _ (disconnect-Same h self msg cid) k
  Step-Holds b self _ (receives h order _ z e) k = recv_msgs-Holds bin es p b h order self z e k
  Step-Holds b self _ (clears _) k = record {
    same = k.same;
    typed = clear_all-IsTyped es self.msg_buff k.typed;
  }
  Step-Holds b self _ (handles hook st _ r e) k =
      Same-Holds es p self r.0 (handle_disconnects-Same hook st self r e) k
  Step-Holds b self _ (handles_one hook st _ r e) k =
      Same-Holds es p self r.0 (handle_disconnect-Same hook st self r e) k
  Step-Holds b self s (starts_incoming oc now _ _ room e) k =
      Same-Holds es p self s (start_incoming-Same oc now self s e) k
  Step-Holds b self _ (handles_new_cons h now hook tid st _ s r room came addrs e) k =
      Same-Holds es p self r.0 (handle_new_cons-Same h now hook tid st self r e) k
  Step-Holds b self _ (handles_new_con h now hook tid st _ s r room came addrs e) k =
      Same-Holds es p self r.0 (handle_new_con-Same h now hook tid st self r e) k

  Reachable-Holds : IsBuilt bin es p → (self : Server V) → Reachable p self → Holds es p self
  Reachable-Holds b self (starts listen bind config _ e) = new-Holds b listen bind config self e
  Reachable-Holds b s (goes_on self _ before step) =
      Step-Holds b self s step (Reachable-Holds b self before)

  -- In each state that a server with a table of distinct types reaches by sending, receiving,
  -- clearing messages, disconnecting, handling disconnects and handling new connections, whatever the
  -- hooks answer and whatever comes on its streams, its socket and its listener between the calls,
  -- `recv` and `try_recv` of each type give the messages in the buffer of its number, or panic and
  -- give `none` when the type is not registered: no message of another type is in the buffer. The
  -- numbers of connections do not run out, and where new connections are handled those that wait
  -- have addresses that differ and that no connection has.
  pub server_recv-Reachable :
      (b : IsBuilt bin es p) (self : Server V) (tid : TypeId)
      → Reachable p self
      → ((HashMap.get p.tid_map tid ≡ none)
          × (recv self tid ≡ panic)
          × (try_recv self tid ≡ ok none))
        ⊎ ((mid : MId) × (msgs : List (ErasedNetMsg V)) × (HashMap.get p.tid_map tid ≡ some mid)
            × (get_elem? self.msg_buff mid ≡ some msgs)
            × (recv self tid ≡ ok (map as_net_msg msgs))
            × (try_recv self tid ≡ ok (some (map as_net_msg msgs))))
  unfolding recv try_recv valid_tid mid_of index HashMap.contains_key
  server_recv-Reachable b self tid reach =
      let k = Reachable-Holds b self reach in
      let table = ap (λ q. HashMap.get q.tid_map tid) k.same in
      elim (buffer_cases bin es p self.msg_buff tid b k.typed) [
        | inl gone ↦ inl (
          gone,
          rw (recv, valid_tid, HashMap.contains_key, table, gone) refl,
          rw (try_recv, table, gone) refl,
        )
        | inr (mid, msgs, there, held, typed) ↦ inr (
          mid,
          msgs,
          there,
          held,
          rw (recv, valid_tid, HashMap.contains_key, mid_of, index, table, there, held) typed,
          rw (try_recv, index, table, there, held, typed) refl,
        )
      ]
