-- ===== src/Server/Receive/Took.antt =====
-- What a server of src/server.rs has taken from a connection: messages that it files, and the end of
-- the connection, which it queues.
use mathlib.Core.List.{append_assoc}
use carrier_pigeon.Base.{◌≡◌, ◌≢◌, refl, ap, ◌∙◌, List, [], ◌∷◌, ◌++◌, none, ne→==}
use carrier_pigeon.Base.Results.{connection_aborted}
use carrier_pigeon.Base.HashMap
use carrier_pigeon.Base.HashMap.{get-insert}
use carrier_pigeon.Net.{CId, MId}
use carrier_pigeon.Net.Status.{Status}
use carrier_pigeon.Net.Msg.{ErasedNetMsg}
use carrier_pigeon.Net.Filed.{Filed, Filed-append}
use carrier_pigeon.Tcp.{TcpCon}
use carrier_pigeon.Server.{Server}
use carrier_pigeon.Tcp.Letters.{Letter, Ending, stays, leaves, drops}

module _ {V : Type 0} where
  -- A letter as the server files it.
  abbrev pub arrival : CId → Letter V → MId × ErasedNetMsg V
  arrival cid l = (l.mid, record { cid = cid; time = none; msg = l.msg })

  -- How the server queues the end of a connection.
  abbrev pub departure : CId → Ending V → List (CId × Status V)
  departure cid stays = []
  departure cid (leaves l) = (cid, Status.disconnected l.msg) ∷ []
  departure cid drops = (cid, Status.dropped connection_aborted) ∷ []

  -- The server has filed `ms` that came on `cid`, and queued the ends `ds`.
  pub record Took (cid : CId) (ms : List (MId × ErasedNetMsg V)) (ds : List (CId × Status V))
      (self z : Server V) : Type 0 where
    pub filed : Filed ms self.msg_buff z.msg_buff
    pub queued : z.disconnected ≡ self.disconnected ++ ds
    pub same_parts : z.parts ≡ self.parts
    pub same_udp : z.udp ≡ self.udp
    pub others : (c : CId) → cid ≢ c → HashMap.get z.tcp c ≡ HashMap.get self.tcp c

  pub Took-append :
      (cid : CId) (ms ns : List (MId × ErasedNetMsg V)) (ds es : List (CId × Status V))
      (a b c : Server V)
      → Took cid ms ds a b
      → Took cid ns es b c
      → Took cid (ms ++ ns) (ds ++ es) a c
  Took-append cid ms ns ds es a b c p q = record {
    filed = Filed-append p.filed q.filed;
    queued = q.queued ∙ ap (λ l. l ++ es) p.queued ∙ append_assoc a.disconnected ds es;
    same_parts = q.same_parts ∙ p.same_parts;
    same_udp = q.same_udp ∙ p.same_udp;
    others = λ k other. q.others k other ∙ p.others k other;
  }

  pub insert-others :
      (self : Server V) (cid : CId) (con : TcpCon) (c : CId)
      → cid ≢ c
      → HashMap.get (HashMap.insert self.tcp cid con) c ≡ HashMap.get self.tcp c
  insert-others self cid con c other = get-insert self.tcp cid con c ∙ rw (ne→== cid c other) refl
