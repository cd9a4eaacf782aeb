-- ===== src/Tcp/Letters.antt =====
-- What one side of a connection of src/tcp.rs has sent to the other: messages that were encoded with
-- the table, and the end of the connection.
use carrier_pigeon.Base.{
  ℕ, true, false, none, ◌+◌, ◌^◌, ◌<◌, ◌≤◌, ◌≡◌, ◌≢◌, List, [], ◌∷◌, ◌++◌, ok, err, length, arith,
  length-append, All,
}
use carrier_pigeon.Base.Results.{would_block, connection_aborted}
use carrier_pigeon.Net.{MId, Any}
use carrier_pigeon.Table.{Bincode, Entry, disconnect_type_mid}
use carrier_pigeon.Table.Parts.Roundtrip.{get_elem?_bound}
use carrier_pigeon.Table.Parts.Typed.{IsBuilt, decode-tid}
use carrier_pigeon.Table.Parts.{MsgTableParts}
use carrier_pigeon.Table.Parts.Codec.{decode}
use carrier_pigeon.Tcp
use carrier_pigeon.Tcp.{TcpCon, frame}
use carrier_pigeon.Tcp.Stream.{TcpStream, peek, shutdown, flush}
use carrier_pigeon.Tcp.Send.{length-frame}
use carrier_pigeon.Tcp.Roundtrip.{Fits}

-- A stream that works, and that neither side has closed.
pub record IsOpen (s : TcpStream) : Type 0 where
  pub works : s.fault ≡ none
  pub not_over : s.eof ≡ false
  pub not_shut : s.is_shut ≡ false

-- The end of a stream that the other side has closed.
pub recv-over :
    (con : TcpCon)
    → con.tcp.fault ≡ none
    → con.tcp.eof ≡ true
    → con.tcp.inbox ≡ []
    → Tcp.recv con ≡ (con, err connection_aborted)
unfolding Tcp.recv peek
recv-over con works over none_left = ground (arith, none_left)

pub recv-empty :
    (con : TcpCon) → IsOpen con.tcp → con.tcp.inbox ≡ [] → Tcp.recv con ≡ (con, err would_block)
unfolding Tcp.recv peek
recv-empty con o none_left = ground (arith, o)

pub tcp_close-sent : (con : TcpCon) → (Tcp.close con).0.tcp.sent ≡ con.tcp.sent
unfolding Tcp.close shutdown flush
tcp_close-sent con = ground arith

-- A message with the number and the bytes that it is encoded as.
pub record Letter (V : Type 0) : Type 0 where
  pub mid : MId
  pub bytes : List ℕ
  pub msg : Any V

-- How the sender ends: it stays, it disconnects with a message, or its stream ends without one.
pub data Ending (V : Type 0) : Type 0 where
  stays : Ending V
  leaves : Letter V → Ending V
  drops : Ending V

module _ {V : Type 0} where
  abbrev pub letter_frames : List (Letter V) → List ℕ
  letter_frames [] = []
  letter_frames (l ∷ ls) = frame l.mid l.bytes ++ letter_frames ls

  -- What the sender leaves behind its letters: nothing, a message that disconnects, or the end of its
  -- stream.
  abbrev pub last_frame : Ending V → List ℕ
  last_frame stays = []
  last_frame (leaves l) = frame l.mid l.bytes
  last_frame drops = []

  -- A letter that a receiver with `n` buffers, and a connection whose buffer has `size` bytes, takes.
  pub record Taken (p : MsgTableParts V) (n size : ℕ) (l : Letter V) : Type 0 where
    pub small : l.mid < 2 ^ 16
    pub short : length l.bytes < 2 ^ 16
    pub room : length l.bytes + 4 ≤ size
    pub kept : l.mid ≢ disconnect_type_mid
    pub numbered : l.mid < n
    pub decodes : decode p l.mid l.bytes ≡ ok l.msg

  -- The stream ends so, and a receiver whose buffer has `size` bytes can tell.
  abbrev pub EndsBy : MsgTableParts V → ℕ → TcpStream → Ending V → Type 0
  EndsBy p size s stays = IsOpen s
  EndsBy p size s (leaves l) =
      (s.fault ≡ none)
      × (l.mid ≡ disconnect_type_mid)
      × (length l.bytes < 2 ^ 16)
      × (length l.bytes + 4 ≤ size)
      × (decode p l.mid l.bytes ≡ ok l.msg)
  EndsBy p size s drops = (s.fault ≡ none) × (s.eof ≡ true)

  -- A message that disconnects is counted.
  abbrev pub counted : Ending V → ℕ
  counted stays = 0
  counted (leaves l) = 1
  counted drops = 0

  pub EndsBy-works :
      (p : MsgTableParts V) (size : ℕ) (s : TcpStream) (e : Ending V)
      → EndsBy p size s e
      → s.fault ≡ none
  EndsBy-works p size s stays o = o.works
  EndsBy-works p size s (leaves l) o = o.0
  EndsBy-works p size s drops o = o.0

  -- Letters that were taken off do not change how the stream ends.
  pub EndsBy-rest :
      (p : MsgTableParts V) (size : ℕ) (s : TcpStream) (rest : List ℕ) (e : Ending V)
      → EndsBy p size s e
      → EndsBy p size (record s { inbox = rest }) e
  EndsBy-rest p size s rest stays o = record {
    works = o.works;
    not_over = o.not_over;
    not_shut = o.not_shut;
  }
  EndsBy-rest p size s rest (leaves l) o = o
  EndsBy-rest p size s rest drops o = o

  -- The end `e` can be read from a stream, with a buffer of `size` bytes.
  abbrev pub Readable : ℕ → TcpStream → Ending V → Type 0
  Readable size s stays = IsOpen s
  Readable size s (leaves l) = (s.fault ≡ none) × Fits size (l.mid, l.bytes)
  Readable size s drops = (s.fault ≡ none) × (s.eof ≡ true)

  pub frames_bound : (ls : List (Letter V)) → length ls ≤ length (letter_frames ls)
  frames_bound [] = omega arith
  frames_bound (l ∷ ls) = omega (
    arith,
    frames_bound ls,
    length-append (frame l.mid l.bytes) (letter_frames ls),
    length-frame l.mid l.bytes,
  )

module _ {V : Type 0} (bin : Bincode V) (es : List (Entry V)) where
  -- A letter that is decoded has a number that was given out.
  decoded-lt :
      (p : MsgTableParts V) (l : Letter V)
      → IsBuilt bin es p
      → decode p l.mid l.bytes ≡ ok l.msg
      → l.mid < length es
  decoded-lt p l built d =
      let (e, at, _) = decode-tid bin es p l.mid l.bytes l.msg built d in
      get_elem?_bound es l.mid e at

  pub all_Taken :
      (p : MsgTableParts V) (n size : ℕ) (ls : List (Letter V))
      → IsBuilt bin es p
      → n ≡ length es
      → All (λ l. Fits size (l.mid, l.bytes)) ls
      → All (λ l. l.mid ≢ disconnect_type_mid) ls
      → All (λ l. decode p l.mid l.bytes ≡ ok l.msg) ls
      → All (Taken p n size) ls
  all_Taken p n size [] built count f s d = tt
  all_Taken p n size (l ∷ ls) built count (f, fs) (s, ss) (d, ds) = (
    record {
      small = f.0;
      short = f.1;
      room = f.2;
      kept = s;
      numbered = omega (arith, count, decoded-lt p l built d);
      decodes = d;
    },
    all_Taken p n size ls built count fs ss ds,
  )
