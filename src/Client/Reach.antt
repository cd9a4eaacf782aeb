-- ===== src/Client/Reach.antt =====
-- The states that a client of src/client.rs goes through, and what it gives the program in them.
use carrier_pigeon.Base.{
  ℕ, unwrap, [], ◌≡◌, refl, ◌⊎◌, inl, inr, List, map, none, some, Io, ok, err, panic, Bool-cases,
  ◌==◌, Outcome-cases, length, get_elem?, arith, ap, sym, ◌∙◌, subst,
}
use carrier_pigeon.Base.HashMap
use carrier_pigeon.Base.Buffer.{replicate}
use carrier_pigeon.Net.{MId, TypeId, Any, Transport}
use carrier_pigeon.Net.Transport.{tcp, udp}
use carrier_pigeon.Net.Config.{Config}
use carrier_pigeon.Net.Msg.{ErasedNetMsg}
use carrier_pigeon.Time.{Host}
use carrier_pigeon.Table.{Bincode, Entry, disconnect_type_mid, response_type_mid}
use carrier_pigeon.Table.Parts.{MsgTableParts, mid_count, valid_tid}
use carrier_pigeon.Table.Parts.Codec.{index, mid_of}
use carrier_pigeon.Table.Parts.Typed.{
  IsTyped, IsBuilt, IsBuilt-IsIndexOf, replicate-IsTyped, clear_all-IsTyped, buffer_cases,
  as_net_msg,
}
use carrier_pigeon.Base.Results.{ok_before}
use carrier_pigeon.Table.Parts.Roundtrip.{length-map}
use carrier_pigeon.Udp
use carrier_pigeon.Tcp
use carrier_pigeon.Tcp.Stream as Stream
use carrier_pigeon.Tcp.Stream.{TcpStream, set_read_timeout}
use carrier_pigeon.Udp.Socket.{UdpSocket}
use carrier_pigeon.Client.{
  Client, send, send_over, recv_tcp, handshake, new_blocking, close, disconnect,
}
use carrier_pigeon.Client.Receive.{Progress, recv_msgs, clear_msgs, recv, try_recv}
use carrier_pigeon.Client.Typed.{Holds, recv_tcp-Right, recv_msgs-Holds}

-- What a program does with a client, and what happens to it in between: the stream becomes any
-- other from the same peer, the socket any other socket.
pub data Step {V : Type 0} : Client V → Client V → Type 1 where
  sends : (h : Host) (self : Client V) (msg : Any V) → Step self (send h self msg).0
  disconnects : (h : Host) (self : Client V) (msg : Any V) → Step self (disconnect h self msg).0
  receives :
      (h : Host) (self : Client V) (z : Progress V) → recv_msgs h self ≡ some (ok z) → Step self z.0
  clears : (self : Client V) → Step self (clear_msgs self)
  arrives :
      (self : Client V) (stream : TcpStream) (socket : UdpSocket)
      → stream.peer_addr ≡ self.tcp.tcp.peer_addr
      → Step self (record self {
        tcp = record self.tcp { tcp = stream };
        udp = record self.udp { udp = socket };
      })

pub data Reachable {V : Type 0} (p : MsgTableParts V) : Client V → Type 1 where
  starts :
      (h : Host) (connect : Io TcpStream) (bind : ℕ → Io UdpSocket) (config : Config) (msg : Any V)
      (r : Client V × Any V)
      → new_blocking h connect bind p config msg ≡ ok r
      → Reachable p r.0
  goes_on : (self s : Client V) → Reachable p self → Step self s → Reachable p s

module _ {V : Type 0} (bin : Bincode V) (es : List (Entry V)) (p : MsgTableParts V) where
  send_over-Holds :
      (h : Host) (self : Client V) (way : Io (MId × Transport × List ℕ))
      → Holds bin es p self
      → Holds bin es p (send_over h self way).0
  unfolding send_over
  send_over-Holds h self (ok (mid, tcp, b)) k = record { same = k.same; typed = k.typed }
  send_over-Holds h self (ok (mid, udp, b)) k = record { same = k.same; typed = k.typed }
  send_over-Holds h self (err e) k = k
  send_over-Holds h self panic k = k

  send-Holds :
      (h : Host) (self : Client V) (msg : Any V)
      → Holds bin es p self
      → Holds bin es p (send h self msg).0
  unfolding send
  send-Holds h self msg = send_over-Holds h self _

  close-Holds : (r : Client V × Io (Unit {0})) → Holds bin es p r.0 → Holds bin es p (close r).0
  unfolding close
  close-Holds (self, ok _) k = elim (Outcome-cases (Tcp.close self.tcp).1) [
    | inl (u, q) ↦ rw (close, q) (record { same = k.same; typed = k.typed })
    | inr (inl (e, q)) ↦ rw (close, q) (record { same = k.same; typed = k.typed })
    | inr (inr q) ↦ rw (close, q) (record { same = k.same; typed = k.typed })
  ]
  close-Holds (self, err e) k = k
  close-Holds (self, panic) k = k

  disconnect-Holds :
      (h : Host) (self : Client V) (msg : Any V)
      → Holds bin es p self
      → Holds bin es p (disconnect h self msg).0
  unfolding disconnect
  disconnect-Holds h self msg k = elim (Outcome-cases (mid_of self.parts msg.tid)) [
    | inl (mid, q) ↦ elim (Bool-cases (mid == disconnect_type_mid)) [
      | inl right ↦
          rw (disconnect, q, right) (close-Holds (send h self msg) (send-Holds h self msg k))
      | inr wrong ↦ rw (disconnect, q, wrong) k
    ]
    | inr (inl (e, q)) ↦ rw (disconnect, q) k
    | inr (inr q) ↦ rw (disconnect, q) k
  ]

  handshake-Holds :
      (b : IsBuilt bin es p) (h : Host) (self : Client V) (msg : Any V) (r : Client V × Any V)
      → handshake h self msg ≡ ok r
      → Holds bin es p self
      → Holds bin es p r.0
  unfolding handshake Tcp.set_nonblocking Udp.set_nonblocking Stream.set_nonblocking
  handshake-Holds b h self msg r e k =
      let sent = send h self msg in
      let came = recv_tcp sent.0 in
      let (k', _) = recv_tcp-Right bin es p b sent.0 (send-Holds h self msg k) in
      elim (Outcome-cases sent.1) [
        | inl (u, q) ↦ elim (Outcome-cases came.1) [
          | inl (m, g) ↦ elim (Bool-cases (m.0 == response_type_mid)) [
            | inl right ↦
                let parts : r.0.parts ≡ came.0.parts = ground arith in
                let buff : r.0.msg_buff ≡ came.0.msg_buff = ground arith in
                record { same = parts ∙ k'.same; typed = subst (IsTyped es) (sym buff) k'.typed }
            | inr wrong ↦ absurd (ground arith)
          ]
          | inr (inl (x, g)) ↦ absurd (ground arith)
          | inr (inr g) ↦ absurd (ground arith)
        ]
        | inr (inl (x, q)) ↦ absurd (ground arith)
        | inr (inr q) ↦ absurd (ground arith)
      ]

  mid_count-length : IsBuilt bin es p → mid_count p ≡ length es
  unfolding mid_count
  mid_count-length b =
      ap length (IsBuilt-IsIndexOf bin es p b).transports ∙ length-map (λ e. e.transport) es

  new_blocking-Holds :
      (b : IsBuilt bin es p) (h : Host) (connect : Io TcpStream) (bind : ℕ → Io UdpSocket)
      (config : Config) (msg : Any V) (r : Client V × Any V)
      → new_blocking h connect bind p config msg ≡ ok r
      → Holds bin es p r.0
  unfolding new_blocking
  new_blocking-Holds b h connect bind config msg r e =
      let (stream, _, e0) = ok_before connect _ r e in
      let (_, _, e1) = ok_before (set_read_timeout stream config.timeout) _ r e0 in
      let (local, _, e2) =
        ok_before (unwrap (Tcp.local_addr (Tcp.from_stream stream config.max_msg_size))) _ r e1 in
      let (peer, _, e3) =
        ok_before (unwrap (Tcp.peer_addr (Tcp.from_stream stream config.max_msg_size))) _ r e2 in
      let (socket, _, e4) = ok_before (Udp.new bind local (some peer) config.max_msg_size) _ r e3 in
      handshake-Holds b h _ msg r e4 (record {
        same = refl;
        typed =
            subst (λ n. IsTyped es (replicate n [])) (sym (mid_count-length b))
              (replicate-IsTyped es);
      })

  clear_msgs-Holds : (self : Client V) → Holds bin es p self → Holds bin es p (clear_msgs self)
  unfolding clear_msgs
  clear_msgs-Holds self k = record {
    same = k.same;
    typed = clear_all-IsTyped es self.msg_buff k.typed;
  }

  Step-Holds :
      (b : IsBuilt bin es p) (self s : Client V)
      → Step self s
      → Holds bin es p self
      → Holds bin es p s
  Step-Holds b _ _ (sends h self msg) k = send-Holds h self msg k
  Step-Holds b _ _ (disconnects h self msg) k = disconnect-Holds h self msg k
  Step-Holds b _ _ (receives h self z e) k = recv_msgs-Holds bin es p b h self z e k
  Step-Holds b _ _ (clears self) k = clear_msgs-Holds self k
  Step-Holds b _ _ (arrives self stream socket peer) k = record { same = k.same; typed = k.typed }

  Reachable-Holds : IsBuilt bin es p → (self : Client V) → Reachable p self → Holds bin es p self
  Reachable-Holds b _ (starts h connect bind config msg r e) =
      new_blocking-Holds b h connect bind config msg r e
  Reachable-Holds b _ (goes_on self s before step) =
      Step-Holds b self s step (Reachable-Holds b self before)

  -- In each client that can come of `new_blocking` with a table of distinct types, whatever comes on
  -- its stream and its socket between the calls, `recv` and `try_recv` of each type give the messages
  -- in the buffer of its number, or panic and give `none` when the type is not registered: no
  -- message of another type is in the buffer.
  pub recv-Reachable :
      (b : IsBuilt bin es p) (self : Client V) (tid : TypeId)
      → Reachable p self
      → ((HashMap.get p.tid_map tid ≡ none)
          × (recv self tid ≡ panic)
          × (try_recv self tid ≡ ok none))
        ⊎ ((mid : MId) × (msgs : List (ErasedNetMsg V)) × (HashMap.get p.tid_map tid ≡ some mid)
            × (get_elem? self.msg_buff mid ≡ some msgs)
            × (recv self tid ≡ ok (map as_net_msg msgs))
            × (try_recv self tid ≡ ok (some (map as_net_msg msgs))))
  unfolding recv try_recv valid_tid mid_of index HashMap.contains_key
  recv-Reachable b self tid reach =
      let k = Reachable-Holds b self reach in
      let table = ap (λ q. HashMap.get q.tid_map tid) k.same in
      elim (buffer_cases bin es p self.msg_buff tid b k.typed) [
        | inl gone ↦ inl (
          gone,
          rw (recv, valid_tid, HashMap.contains_key, table, gone) refl,
          rw (try_recv, table, gone) refl,
        )
        | inr (mid, msgs, there, held, typed) ↦ inr (
          mid,
          msgs,
          there,
          held,
          rw (recv, valid_tid, HashMap.contains_key, mid_of, index, table, there, held) typed,
          rw (try_recv, index, table, there, held, typed) refl,
        )
      ]
