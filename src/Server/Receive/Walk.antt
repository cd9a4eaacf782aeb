-- ===== src/Server/Receive/Walk.antt =====
-- The loops of `recv_msgs` of src/server.rs over all connections, on which whole messages have come,
-- and over a socket on which nothing has.
use mathlib.Core.List.{append-nil, append_assoc}
use carrier_pigeon.Base.{
  ℕ, ◌+◌, ◌≡◌, refl, ap, sym, ◌∙◌, List, [], ◌∷◌, ◌++◌, map, some, ok, err, length, arith, All,
  Lacks, Distinct,
}
use carrier_pigeon.Base.Results.{would_block}
use carrier_pigeon.Base.Loop.{done, loop-done}
use carrier_pigeon.Net.{CId, MId}
use carrier_pigeon.Net.Msg.{ErasedNetMsg}
use carrier_pigeon.Net.Filed.{Filed, Filed-nil, Filed-append}
use carrier_pigeon.Time.{Host}
use carrier_pigeon.Udp.{UdpCon}
use carrier_pigeon.Udp
use carrier_pigeon.Udp.Socket as Socket
use carrier_pigeon.Server.{Server, cids}
use carrier_pigeon.Server.Receive.{tcp_loops, udp_loop, udp_round, recv_udp, and_then}
use carrier_pigeon.Server.Receive.Took.{arrival, Took, departure}
use carrier_pigeon.Server.Receive.Inbox.{Comes, tcp_loop-letters}
use carrier_pigeon.Net.Status.{Status}
use carrier_pigeon.Tcp.Letters.{Letter, Ending, counted}

-- What comes on the connections, in the order of the walk.
abbrev pub arrivals :
    {V : Type 0} → (CId → List (Letter V)) → List CId → List (MId × ErasedNetMsg V)
arrivals ls [] = []
arrivals ls (cid ∷ cids) = map (arrival cid) (ls cid) ++ arrivals ls cids

-- The ends of the connections, in the order of the walk.
abbrev pub departures : {V : Type 0} → (CId → Ending V) → List CId → List (CId × Status V)
departures ends [] = []
departures ends (cid ∷ cids) = departure cid (ends cid) ++ departures ends cids

module _ {V : Type 0} (ls : CId → List (Letter V)) (ends : CId → Ending V) where
  -- How many messages come, those that disconnect among them.
  abbrev pub messages : List CId → ℕ
  messages [] = 0
  messages (cid ∷ cids) = (length (ls cid) + counted (ends cid)) + messages cids

  abbrev pub Come : Server V → List CId → Type 0
  Come self cids = All (λ cid. Comes self cid (ls cid) (ends cid)) cids

  -- The other connections are as they were.
  Took-Come :
      (self z : Server V) (cid : CId) (ms : List (MId × ErasedNetMsg V))
      (ds : List (CId × Status V)) (cids : List CId)
      → Took cid ms ds self z
      → Lacks (λ c. c) cid cids
      → Come self cids
      → Come z cids
  Took-Come self z cid ms ds [] t l c = tt
  Took-Come self z cid ms ds (x ∷ cids) t (other, l) (c, cs) = (
    record {
      con = c.con;
      held = t.others x (λ e. other (sym e)) ∙ c.held;
      ends = rw t.same_parts c.ends;
      come = c.come;
      taken = rw (t.same_parts, t.filed.size) c.taken;
    },
    Took-Come self z cid ms ds cids t l cs,
  )

  pub tcp_loops-letters :
      (cids : List CId) (self : Server V) (i : ℕ)
      → Distinct (λ c. c) cids
      → Come self cids
      → (z : Server V) × (tcp_loops cids (self, i) ≡ some (ok (z, i + messages cids)))
        × Filed (arrivals ls cids) self.msg_buff z.msg_buff
        × (z.disconnected ≡ self.disconnected ++ departures ends cids)
        × (z.udp ≡ self.udp)
  unfolding tcp_loops and_then
  tcp_loops-letters [] self i d c = (
    self,
    ap (λ (k : ℕ). some (ok (self, k))) (omega arith),
    Filed-nil self.msg_buff,
    sym (append-nil self.disconnected),
    refl,
  )
  tcp_loops-letters (cid ∷ cids) self i (l, d) (c, cs) =
      let (s, went, took) = tcp_loop-letters self cid i (ls cid) (ends cid) c in
      let ms = map (arrival cid) (ls cid) in
      let ds = departure cid (ends cid) in
      let (z, onward, filed, queued, same) =
        tcp_loops-letters cids s (i + (length (ls cid) + counted (ends cid))) d
          (Took-Come self s cid ms ds cids took l cs) in
      (
        z,
        rw (went, tcp_loops) (onward ∙ ap (λ (k : ℕ). some (ok (z, k))) (omega arith)),
        Filed-append took.filed filed,
        queued
            ∙ ap (λ q. q ++ departures ends cids) took.queued
            ∙ append_assoc self.disconnected ds (departures ends cids),
        same ∙ took.same_udp,
      )

-- A socket with no datagram ends the UDP loop at once.
recv_from-empty :
    (h : Host) (con : UdpCon) → con.udp.inbox ≡ [] → Udp.recv_from h con ≡ (con, err would_block)
unfolding Udp.recv_from Socket.recv_from
recv_from-empty h con none_left = ground (arith, none_left)

module _ {V : Type 0} (h : Host) (self : Server V) (i : ℕ)
    (none_left : self.udp.udp.inbox ≡ []) where
  udp_round-empty : udp_round h (self, i) ≡ done (self, i)
  unfolding udp_round recv_udp
  udp_round-empty = ground (arith, recv_from-empty h self.udp none_left)

  pub udp_loop-empty : udp_loop h (self, i) ≡ some (ok (self, i))
  unfolding udp_loop
  udp_loop-empty =
      loop-done (length self.udp.udp.inbox) (udp_round h) (self, i) (self, i) udp_round-empty
