-- ===== src/Server/Receive/Mail.antt =====
-- `recv_msgs` of src/server.rs over all connections, on which what clients of src/client.rs have
-- sent has come.
use mathlib.Core.List.{append_assoc, append_cancel_left}
use carrier_pigeon.Base.{
  ℕ, ◌≡◌, ◌≢◌, sym, ap, ◌∙◌, List, [], ◌∷◌, ◌++◌, some, ok, length, arith, All, Distinct,
}
use carrier_pigeon.Base.HashMap
use carrier_pigeon.Tcp.Letters.{all_Taken}
use carrier_pigeon.Net.{CId, tcp}
use carrier_pigeon.Net.Filed.{Filed}
use carrier_pigeon.Time.{Host}
use carrier_pigeon.Table.{Bincode, RoundTrips, Entry, disconnect_type_mid}
use carrier_pigeon.Table.Parts.{MsgTableParts}
use carrier_pigeon.Table.Parts.Codec.{encode}
use carrier_pigeon.Table.Parts.Roundtrip.{decode-encode}
use carrier_pigeon.Table.Parts.Typed.{IsBuilt, IsBuilt-IsIndexOf}
use carrier_pigeon.Tcp.{TcpCon}
use carrier_pigeon.Tcp.Stream.{TcpStream}
use carrier_pigeon.Tcp.Roundtrip.{Fits}
use carrier_pigeon.Client.{Client}
use carrier_pigeon.Client.Posts.{Posts, Posts-sent, Posts-parts, Posts-decode}
use carrier_pigeon.Client.Ends.{Ends, Ends-sent, disconnect-closes}
use carrier_pigeon.Server.{Server, cids}
use carrier_pigeon.Server.Receive.{and_then, recv_msgs}
use carrier_pigeon.Server.Receive.Inbox.{Comes}
use carrier_pigeon.Server.Receive.Walk.{
  arrivals, departures, messages, tcp_loops-letters, udp_loop-empty,
}
use carrier_pigeon.Tcp.Letters.{
  Letter, Ending, stays, leaves, drops, letter_frames, last_frame, EndsBy, Readable,
}

module _ {V : Type 0} (bin : Bincode V) (es : List (Entry V)) where
  -- What has come on the connection `cid`, and was not read before, is what a client has sent since:
  -- the letters `ls`, each of which the headers and the server's buffer hold, and none of which
  -- disconnects. Then the client ended by `e`.
  pub record Sent (self : Server V) (cid : CId) (ls : List (Letter V)) (e : Ending V) : Type 0 where
    pub host : Host
    pub client : Client V
    pub last : Client V
    pub after : Client V
    pub con : TcpCon
    pub same : client.parts ≡ self.parts
    pub posts : Posts host client ls last
    pub ends : Ends host last e after
    pub held : HashMap.get self.tcp cid ≡ some con
    pub readable : Readable (length con.buff) con.tcp e
    pub come : after.tcp.tcp.sent ≡ client.tcp.tcp.sent ++ con.tcp.inbox
    pub fits : All (λ l. Fits (length con.buff) (l.mid, l.bytes)) ls
    pub stay : All (λ l. l.mid ≢ disconnect_type_mid) ls

  ends-EndsBy :
      (h : Host) (p : MsgTableParts V) (size : ℕ) (s : TcpStream) (c z : Client V) (e : Ending V)
      → RoundTrips bin
      → IsBuilt bin es p
      → c.parts ≡ p
      → Ends h c e z
      → Readable size s e
      → EndsBy p size s e
  ends-EndsBy h p size s c z stays codec built same ended r = r
  ends-EndsBy h p size s c z (leaves l) codec built same (e, gone) (works, (_, short, room)) =
      let (_, last) = disconnect-closes h c z l.msg l.mid l.bytes e gone in
      let i = IsBuilt-IsIndexOf bin es p built in
      (
        works,
        last,
        short,
        room,
        decode-encode bin p es l.msg l.mid tcp l.bytes codec i built.coded
            (ap (λ q. encode q l.msg) (sym same) ∙ e),
      )
  ends-EndsBy h p size s c z drops codec built same ended r = r

  Sent-Comes :
      (self : Server V) (cid : CId) (ls : List (Letter V)) (e : Ending V)
      → RoundTrips bin
      → IsBuilt bin es self.parts
      → length self.msg_buff ≡ length es
      → Sent self cid ls e
      → Comes self cid ls e
  Sent-Comes self cid ls e codec built size s =
      let i = IsBuilt-IsIndexOf bin es self.parts built in
      record {
        con = s.con;
        held = s.held;
        ends =
            ends-EndsBy s.host self.parts (length s.con.buff) s.con.tcp s.last s.after e codec built
              (Posts-parts s.host s.client s.last ls s.posts ∙ s.same) s.ends s.readable;
        come =
            append_cancel_left s.client.tcp.tcp.sent s.con.tcp.inbox
              (letter_frames ls ++ last_frame e)
              (sym s.come
                ∙ Ends-sent s.host s.last s.after e s.ends
                ∙ ap (λ bytes. bytes ++ last_frame e) (Posts-sent s.host s.client s.last ls s.posts)
                ∙ append_assoc s.client.tcp.tcp.sent (letter_frames ls) (last_frame e));
        taken =
            all_Taken bin es self.parts (length self.msg_buff) (length s.con.buff) ls built size
              s.fits s.stay
              (Posts-decode s.host bin es self.parts s.client s.last ls codec i built.coded s.same
                s.posts);
      }

  all_Come :
      (self : Server V) (ls : CId → List (Letter V)) (ends : CId → Ending V) (cids : List CId)
      → RoundTrips bin
      → IsBuilt bin es self.parts
      → length self.msg_buff ≡ length es
      → All (λ cid. Sent self cid (ls cid) (ends cid)) cids
      → All (λ cid. Comes self cid (ls cid) (ends cid)) cids
  all_Come self ls ends [] codec built size s = tt
  all_Come self ls ends (cid ∷ cids) codec built size (s, ss) = (
    Sent-Comes self cid (ls cid) (ends cid) codec built size s,
    all_Come self ls ends cids codec built size ss,
  )

  -- What clients with the server's table have sent over TCP, and was not read before, is in the
  -- server's buffers after one `recv_msgs`, where each message fits the 16 bits of the length field,
  -- has a number of 16 bits, and fits the server's buffer; where each stream works, and is over only
  -- for a client whose end says so; and where all that a client has sent has come, and only its last
  -- message may be one that disconnects. Each buffer has
  -- got the messages with its number, under the `CId` of their connection, connection after
  -- connection in the order of the walk and those of a connection in the order in which they were
  -- sent. The clients that then disconnected, with a message that fits too, are queued with it, and
  -- those whose stream ended without one as dropped, in the same order; no other is. The call gives
  -- the count of messages, those that disconnect among them. The walk lists no connection twice and
  -- no datagram has come; the codec reads back what it writes.
  pub mail_delivery :
      (h : Host) (order : List CId → List CId) (self : Server V) (ls : CId → List (Letter V))
      (ends : CId → Ending V)
      → RoundTrips bin
      → IsBuilt bin es self.parts
      → length self.msg_buff ≡ length es
      → Distinct (λ c. c) (cids order self)
      → All (λ cid. Sent self cid (ls cid) (ends cid)) (cids order self)
      → self.udp.udp.inbox ≡ []
      → (z : Server V) × (recv_msgs h order self
          ≡ some (ok (z, messages ls ends (cids order self))))
        × Filed (arrivals ls (cids order self)) self.msg_buff z.msg_buff
        × (z.disconnected ≡ self.disconnected ++ departures ends (cids order self))
  unfolding recv_msgs and_then
  mail_delivery h order self ls ends codec built size distinct sent quiet =
      let (z, went, filed, queued, same) =
        tcp_loops-letters ls ends (cids order self) self 0 distinct
          (all_Come self ls ends (cids order self) codec built size sent) in
      (
        z,
        rw (went, recv_msgs)
            (udp_loop-empty h z _ (ap (λ u. u.udp.inbox) same ∙ quiet)
              ∙ ap (λ (k : ℕ). some (ok (z, k))) (omega arith)),
        filed,
        queued,
      )
