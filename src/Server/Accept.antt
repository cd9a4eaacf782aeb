-- ===== src/Server/Accept.antt =====
-- src/server.rs: new connections, from the listener to the program's hook. The hook's own state is
-- passed along; `now` is the instant of the call.
pub mod Handle
pub mod Laws
pub mod Numbers
pub mod Pass
pub mod One
pub mod Steps
pub mod Handshake
mod Tests
use carrier_pigeon.Base.{
  ℕ, ◌+◌, ◌-◌, List, [], ◌∷◌, ◌++◌, Bool, true, false, Option, none, some, Io, ok, err, panic,
  ErrorKind, length, ltb, ◌==◌, if◌then◌else◌, ◌>>=◌, map_err, unwrap, get_elem?,
}
use carrier_pigeon.Base.Results.{would_block, invalid_data, timed_out}
use carrier_pigeon.Net.{CId, TypeId, Any, DeserFn, downcast_ref}
use carrier_pigeon.Time.{Host}
use carrier_pigeon.Table.{connection_type_mid, response_type_mid}
use carrier_pigeon.Table.Parts.Codec.{index}
use carrier_pigeon.Tcp
use carrier_pigeon.Tcp.{TcpCon}
use carrier_pigeon.Tcp.Stream.{TcpStream}
use carrier_pigeon.Server.{Server, NewCon, new_cid, add_tcp_con_cid}
use carrier_pigeon.Server.Send.{send_to}

module _ {V : Type 0} where
  -- One accepted stream: it gets the next `CId` and waits for its connection message.
  unfoldable pub start_one : Bool → ℕ → Server V → TcpStream → Io (Server V)
  start_one overflow_checks now self stream =
      let tcp_con = Tcp.set_nonblocking (Tcp.from_stream stream self.config.max_msg_size) true in
      do
        _ ← unwrap tcp_con.1
        numbered ← new_cid overflow_checks self
        ok (record numbered.0 {
          new_cons =
              self.new_cons ++ (record { con = tcp_con.0; cid = numbered.1; time = now }) ∷ [];
        })

  -- The loop over what `accept` gives; it ends at an error or where enough connections wait. What
  -- has not been accepted stays with the listener.
  unfoldable pub accept_pending : Bool → ℕ → Server V → List (Io TcpStream) → Io (Server V)
  unfolding start_one
  accept_pending oc now self [] =
      ok (record self { listener = record self.listener { pending = [] } })
  accept_pending oc now self (ok stream ∷ rest) =
      let left = record self.listener { pending = ok stream ∷ rest } in
      let going = start_one oc now self stream >>= λ self'. accept_pending oc now self' rest in
      if ltb (length self.new_cons) self.config.max_con_handle
      then going
      else ok (record self { listener = left })
  accept_pending oc now self (err e ∷ rest) =
      let kept = record self { listener = record self.listener { pending = err e ∷ rest } } in
      let taken = record self { listener = record self.listener { pending = rest } } in
      ok (if ltb (length self.new_cons) self.config.max_con_handle then taken else kept)
  accept_pending oc now self (panic ∷ rest) = panic

  unfoldable pub start_incoming : Bool → ℕ → Server V → Io (Server V)
  unfolding accept_pending
  start_incoming overflow_checks now self =
      accept_pending overflow_checks now self self.listener.pending

  -- `handle_con_helper` once a message has come.
  unfoldable pub read_con_msg : DeserFn V → TypeId → ℕ × List ℕ → Io V
  read_con_msg deser_fn tid (mid, msg) =
      if mid == connection_type_mid
      then (do
        con_msg ← map_err (λ _. invalid_data) (deser_fn msg)
        elim (downcast_ref tid con_msg) [ none ↦ panic | some c ↦ ok c ])
      else err invalid_data

  unfoldable pub handle_con_helper : DeserFn V → TypeId → ℕ → ℕ → NewCon → NewCon × Io V
  unfolding read_con_msg
  handle_con_helper deser_fn tid timeout now new =
      if ltb timeout (now - new.time)
      then (new, err timed_out)
      else let (con, result) = Tcp.recv new.con in
        (record new { con = con }, result >>= read_con_msg deser_fn tid)

  unfoldable pub accept_incoming : Host → Server V → CId → TcpCon → Any V → Io (Server V)
  accept_incoming h self cid con resp = do
    self' ← add_tcp_con_cid self cid con
    let sent = send_to h self' cid resp
    elim sent.1 [ ok _ ↦ ok sent.0 | err e ↦ ok sent.0 | panic ↦ panic ]

  -- The connection is given back with what was sent on it; the source drops it.
  unfoldable pub reject_incoming : Server V → TcpCon → Any V → Io TcpCon
  reject_incoming self con resp = index self.parts.ser response_type_mid >>= λ ser.
      elim (ser resp) [
        | ok payload ↦ unwrap (Tcp.peer_addr con) >>= λ addr.
            let sent = Tcp.send con response_type_mid payload in
            elim sent.1 [ ok _ ↦ ok sent.0 | err e ↦ ok sent.0 | panic ↦ panic ]
        | err e ↦ ok con
        | panic ↦ panic
      ]
