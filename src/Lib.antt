-- ===== src/Lib.antt =====
-- carrier-pigeon, a networking library for games: messages of registered types over TCP and UDP
-- between a server and its clients. This library models the crate and states what its
-- parts are for.
--
-- The parts, from the bottom up:
--   Time      src/time.rs: the 16-bit time stamp of a datagram and its reconstruction.
--   Header    src/header.rs: `TcpHeader` (Header/Tcp) and `UdpHeader` (Header/Udp) as four bytes.
--   Net       src/net.rs: `Status`, `CIdSpec`, `Config`, and the messages (Net/Msg). Net/Filed is
--             the specification of buffers: for each number, the messages that came with it in order.
--   Table     src/message_table.rs: `MsgTable` (Table/Plain) and `SortedMsgTable` (Table/Sorted), and
--             the `MsgTableParts` that both build (Table/Parts). Table/Parts/Codec has the lines of
--             src/client.rs and src/server.rs that use the parts.
--   Tcp       src/tcp.rs: `TcpCon`, over the stream of the standard library (Tcp/Stream).
--             Tcp/Letters is the abstract stream: the messages one side wrote, and how it ended.
--   Udp       src/udp.rs: `UdpCon`, over the socket of the standard library (Udp/Socket).
--   Client    src/client.rs: `Client`; receiving is in Client/Receive. Client/Pending has
--             `Client::new`, `PendingClient` and `OptionPendingClient`, over an interface of the
--             channel of crossbeam. Client/Reach has the states that a client goes through, and
--             Client/Typed what its buffers hold in them. Client/Posts and Client/Ends are what a
--             client writes by sending and by leaving, Client/Receive/Round and Client/Receive/Inbox
--             what it reads from a stream of messages.
--   Server    src/server.rs: `Server`; Server/Accept has new connections, Server/Send sending,
--             Server/Receive receiving, Server/Disconnects the queue of disconnections. Server/Mirror
--             has the states that a server goes through (Server/Mirror/Reach), and what holds of its
--             tables in them; Server/Typed what its buffers hold. Server/Accept/Handshake joins
--             the two sides of a new connection, Server/Receive/Mail what clients send to what the
--             server reads, Server/Send/Mail what the server sends to what a client reads.
--             Server/Receive/Panics is about what makes a server panic while it receives; Tcp/Panics,
--             Udp/Panics and Table/Parts/Panics carry it.
--   Chat      examples/: the chatroom. Chat has the messages of examples/shared.rs and the table,
--             Chat/ServerLoop the loop of examples/server.rs, with whom it lets in
--             (Chat/ServerLoop/Greeting) and who asks to leave (Chat/ServerLoop/Leaving), and
--             Chat/ClientLoop that of examples/client.rs. `Values` is what the language gives for the types of the messages.
--   Base      what the parts share: results of calls, lists, hash maps, buffers, loops.
--   Samples   inputs for the tests and examples, which stand in the modules called Tests.
--
-- How the code is modelled. A definition has the name of the function or type in the source, in this
-- language's spelling. A method that takes `&mut self`, or writes to a socket, gives back the new
-- state beside its result. A result is `ok`, an `err` with the kind of the error, whose text is not
-- kept, or `panic`. Bytes, type ids and addresses are numbers; a message of any type is a type id and
-- a value. A `HashMap` is an association list, and the order of a walk over one is an argument. The
-- clock, the instant of a call, and whether the build checks overflow are arguments. What the system
-- makes (streams, sockets, listeners) is given to the functions that ask for it, as a result that may
-- be an error. bincode is a record of two functions; the theorems that need it assume only that it
-- reads back what it wrote.
--
-- Streams and sockets. The model of a `TcpStream` is what one side sees in one call: the bytes that
-- have come, and how many the system still takes. Theorems about a call that needs a working stream
-- say so by `fault ≡ none`. Between two calls a stream becomes any other from the same peer, and a
-- socket any other socket (Server/Mirror/Arrivals, and `arrives` of Client/Reach).
--
-- Loops. The loops over what has come run on fuel. The fuel is above the number of bytes or datagrams
-- that have come, which is enough since each round that goes on takes at least one. All other loops
-- are recursion on a list.
--
-- Not modelled: `Debug`; logging, and what the examples print; the locks of `TcpCon`, which one
-- thread uses; the overflow of the `u32` counts of messages; the lazy side of the iterators that
-- `recv` gives; the sleep of the examples' loops and their reading of the command line.
pub mod Base
pub mod Time
pub mod Header
pub mod Net
pub mod Table
pub mod Tcp
pub mod Udp
pub mod Chat
pub mod Client
pub mod Server
pub mod Samples
