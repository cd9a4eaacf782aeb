-- ===== src/Tcp/Stream.antt =====
-- The `TcpStream` of the standard library, as far as src/tcp.rs uses it.
--
-- The model is what one side sees between two calls: the bytes that have come, whether the peer has
-- closed its side, and how much the system still takes. In non-blocking mode a read that finds too
-- little gives `WouldBlock`; in blocking mode `inbox` is what comes before the timeout, whose error
-- has the same kind.
use carrier_pigeon.Base.{
  ℕ, ◌-◌, List, [], ◌∷◌, ◌++◌, Bool, true, Option, none, some, Io, ok, err, ErrorKind, leb, ◌==◌,
  if◌then◌else◌, length, take, drop, ◌||◌,
}
use carrier_pigeon.Base.Results.{would_block, unexpected_eof, broken_pipe, invalid_input}

pub record TcpStream : Type 0 where
  pub inbox : List ℕ
  pub eof : Bool
  pub sent : List ℕ
  pub room : ℕ
  pub is_shut : Bool
  pub fault : Option ErrorKind
  pub nonblocking : Bool
  pub peer_addr : Io ℕ
  pub local_addr : Io ℕ

-- `peek` into a buffer of `n` bytes: what has come, at most `n` bytes; none at the end.
unfoldable pub peek : TcpStream → ℕ → Io (List ℕ)
peek s n = elim s.fault [
  | some e ↦ err e
  | none ↦ elim s.inbox [
    | [] ↦ if s.eof || s.is_shut then ok [] else err would_block
    | b ∷ bytes ↦ ok (take n s.inbox)
  ]
]

-- `read_exact` takes what has come until it has `n` bytes; where it fails, what it took is gone.
unfoldable pub read_exact : TcpStream → ℕ → TcpStream × Io (List ℕ)
read_exact s n = elim s.fault [
  | some e ↦ (s, err e)
  | none ↦
      if leb n (length s.inbox)
      then (record s { inbox = drop n s.inbox }, ok (take n s.inbox))
      else (
        record s { inbox = [] },
        if s.eof || s.is_shut then err unexpected_eof else err would_block,
      )
]

-- `write_all`: where the system takes too few bytes, those that it took are sent. In blocking mode
-- `room` is what the system takes before the write ends; a write that blocks for good is not modelled.
unfoldable pub write_all : TcpStream → List ℕ → TcpStream × Io (Unit {0})
write_all s bytes = elim s.fault [
  | some e ↦ (s, err e)
  | none ↦
      if s.is_shut
      then (s, err broken_pipe)
      else if leb (length bytes) s.room
      then (record s { sent = s.sent ++ bytes; room = s.room - length bytes }, ok tt)
      else (record s { sent = s.sent ++ take s.room bytes; room = 0 }, err would_block)
]

-- `shutdown(Shutdown::Both)`.
unfoldable pub shutdown : TcpStream → TcpStream × Io (Unit {0})
shutdown s = elim s.fault [ some e ↦ (s, err e) | none ↦ (record s { is_shut = true }, ok tt) ]

-- `flush` of a `TcpStream` does nothing.
unfoldable pub flush : TcpStream → Io (Unit {0})
flush s = ok tt

-- `set_read_timeout(Some(timeout))`, which refuses a timeout of zero.
unfoldable pub set_read_timeout : TcpStream → ℕ → Io (Unit {0})
set_read_timeout s timeout = if timeout == 0 then err invalid_input else ok tt

unfoldable pub set_nonblocking : TcpStream → Bool → TcpStream × Io (Unit {0})
set_nonblocking s nonblocking = (record s { nonblocking = nonblocking }, ok tt)
