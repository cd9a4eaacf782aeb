-- ===== src/Server/Send/Mail.antt =====
-- What a server of src/server.rs sends to a client, at that client of src/client.rs.
use carrier_pigeon.Base.{
  ℕ, ◌+◌, ◌≡◌, ◌≢◌, ap, sym, ◌∙◌, List, [], ◌++◌, map, some, ok, err, length, arith, All,
}
use mathlib.Core.List.{append_assoc, append_cancel_left}
use carrier_pigeon.Base.Results.{would_block}
use carrier_pigeon.Base.HashMap
use carrier_pigeon.Base.Loop.{done, loop-done}
use carrier_pigeon.Net.{CId, tcp}
use carrier_pigeon.Net.Filed.{Filed}
use carrier_pigeon.Net.Status.{Status}
use carrier_pigeon.Time.{Host}
use carrier_pigeon.Table.{Bincode, RoundTrips, Entry, disconnect_type_mid}
use carrier_pigeon.Table.Parts.{MsgTableParts}
use carrier_pigeon.Table.Parts.Codec.{encode}
use carrier_pigeon.Table.Parts.Roundtrip.{decode-encode}
use carrier_pigeon.Table.Parts.Typed.{IsBuilt, IsBuilt-IsIndexOf}
use carrier_pigeon.Tcp.{TcpCon}
use carrier_pigeon.Tcp.Stream.{TcpStream}
use carrier_pigeon.Tcp.Roundtrip.{Fits}
use carrier_pigeon.Tcp.Letters.{
  Letter, Ending, stays, leaves, drops, letter_frames, last_frame, EndsBy, Readable, counted,
  all_Taken,
}
use carrier_pigeon.Udp
use carrier_pigeon.Udp.{UdpCon}
use carrier_pigeon.Udp.Socket as Socket
use carrier_pigeon.Client.{Client, recv_udp}
use carrier_pigeon.Client.Receive.{udp_loop, udp_round, udp_arm, recv_msgs}
use carrier_pigeon.Client.Receive.Round.{arrival, status_after}
use carrier_pigeon.Client.Receive.Inbox.{tcp_loop-letters}
use carrier_pigeon.Server.{Server}
use carrier_pigeon.Server.Send.Posts.{Posts, Ends, Posts-Wrote, Ends-Wrote, Posts-decode}

recv-empty :
    (h : Host) (con : UdpCon) → con.udp.inbox ≡ [] → Udp.recv h con ≡ (con, err would_block)
unfolding Udp.recv Socket.recv_from
recv-empty h con none_left = ground (arith, none_left)

module _ {V : Type 0} (h : Host) (self : Client V) (i : ℕ)
    (none_left : self.udp.udp.inbox ≡ []) where
  udp_round-empty : udp_round h (self, i) ≡ done (self, i)
  unfolding udp_round recv_udp udp_arm
  udp_round-empty = ground (arith, recv-empty h self.udp none_left)

  udp_loop-empty : udp_loop h (self, i) ≡ some (ok (self, i))
  unfolding udp_loop
  udp_loop-empty =
      loop-done (length self.udp.udp.inbox) (udp_round h) (self, i) (self, i) udp_round-empty

module _ {V : Type 0} (bin : Bincode V) (es : List (Entry V)) where
  ends-EndsBy :
      (h : Host) (cid : CId) (p : MsgTableParts V) (size : ℕ) (t : TcpStream) (s z : Server V)
      (e : Ending V)
      → RoundTrips bin
      → IsBuilt bin es p
      → s.parts ≡ p
      → Ends h cid s e z
      → Readable size t e
      → EndsBy p size t e
  ends-EndsBy h cid p size t s z stays codec built same ended r = r
  ends-EndsBy h cid p size t s z (leaves l) codec built same (last, e, gone)
        (works, (_, short, room)) =
      let i = IsBuilt-IsIndexOf bin es p built in
      (
        works,
        last,
        short,
        room,
        decode-encode bin p es l.msg l.mid tcp l.bytes codec i built.coded
            (ap (λ q. encode q l.msg) (sym same) ∙ e),
      )
  ends-EndsBy h cid p size t s z drops codec built same ended r = r

  -- All messages that a server has sent to a client over TCP, and that the client has not read, are
  -- in the client's buffers after one `recv_msgs`: each buffer has got those with its number, in the
  -- order in which they were sent. Where the server then disconnected the client, the client's status
  -- has the message of that; where the stream ended without one, the status is dropped; otherwise it
  -- is connected as before. The call gives the count of messages, the one that disconnects among
  -- them. The conditions: no datagram has come, each message fits the header and the client's buffer,
  -- both sides have the table built from the same entries, and the codec reads back what it writes.
  pub client_mail_delivery :
      (hs h : Host) (cid : CId) (s last after : Server V) (con con' : TcpCon) (self : Client V)
      (ls : List (Letter V)) (e : Ending V)
      → RoundTrips bin
      → IsBuilt bin es self.parts
      → s.parts ≡ self.parts
      → length self.msg_buff ≡ length es
      → self.status ≡ Status.connected
      → HashMap.get s.tcp cid ≡ some con
      → Posts hs cid s ls last
      → Ends hs cid last e after
      → HashMap.get after.tcp cid ≡ some con'
      → con'.tcp.sent ≡ con.tcp.sent ++ self.tcp.tcp.inbox
      → Readable (length self.tcp.buff) self.tcp.tcp e
      → All (λ l. Fits (length self.tcp.buff) (l.mid, l.bytes)) ls
      → All (λ l. l.mid ≢ disconnect_type_mid) ls
      → self.udp.udp.inbox ≡ []
      → (z : Client V) × (recv_msgs h self ≡ some (ok (z, length ls + counted e)))
        × Filed (map arrival ls) self.msg_buff z.msg_buff
        × (z.status ≡ status_after e)
  unfolding recv_msgs
  client_mail_delivery hs h cid s last after con con' self ls e codec built same size open_ held
        posts ended held' come readable fits kept quiet =
      let i = IsBuilt-IsIndexOf bin es self.parts built in
      let wrote = Posts-Wrote hs cid s last con ls held posts in
      let wrote' = Ends-Wrote hs cid last after wrote.con' e wrote.held ended in
      let at : wrote'.con' ≡ con' = cc in
      let inbox : self.tcp.tcp.inbox ≡ letter_frames ls ++ last_frame e =
        append_cancel_left con.tcp.sent self.tcp.tcp.inbox (letter_frames ls ++ last_frame e) (
          sym come
          ∙ ap (λ (c : TcpCon). c.tcp.sent) (sym at)
          ∙ wrote'.sent
          ∙ ap (λ bytes. bytes ++ last_frame e) wrote.sent
          ∙ append_assoc con.tcp.sent (letter_frames ls) (last_frame e)) in
      let (z, went, took) =
        tcp_loop-letters self 0 ls e open_
          (ends-EndsBy hs cid self.parts (length self.tcp.buff) self.tcp.tcp last after e codec
            built (wrote.same_parts ∙ same) ended readable)
          inbox
          (all_Taken bin es self.parts (length self.msg_buff) (length self.tcp.buff) ls built size
            fits kept
            (Posts-decode hs cid bin es self.parts s last con ls codec i built.coded same held
              posts)) in
      (
        z,
        rw (went, recv_msgs)
            (udp_loop-empty h z _ (ap (λ u. u.udp.inbox) took.same_udp ∙ quiet)
              ∙ ap (λ (k : ℕ). some (ok (z, k))) (omega arith)),
        took.filed,
        took.status,
      )
