-- ===== src/Server/Disconnects.antt =====
-- src/server.rs: handing the queue of disconnections to the program's hook. The hook's own state is
-- passed along.
pub mod Laws
use carrier_pigeon.Base.{
  ℕ, ◌+◌, List, [], ◌∷◌, Bool, true, false, Io, ok, err, panic, if◌then◌else◌, ◌>>=◌, unwrap,
}
use carrier_pigeon.Net.{CId}
use carrier_pigeon.Net.Status.{Status}
use carrier_pigeon.Server.{Server, alive, rm_tcp_con}

module _ {V H : Type 0} where
  -- The body of both loops for a connection that is alive.
  unfoldable pub handle_live :
      (H → CId → Status V → H) → H → Server V → CId → Status V → Io (Server V × H)
  handle_live hook st self cid status =
      unwrap (rm_tcp_con self cid) >>= λ self'. ok (self', hook st cid status)

  -- The queue is walked from its front; what is left of it is put back. The flag says whether a
  -- disconnection was handled.
  unfoldable pub pop_one :
      (H → CId → Status V → H) → H → Server V → List (CId × Status V) → Io (Server V × H × Bool)
  unfolding handle_live
  pop_one hook st self [] = ok (record self { disconnected = [] }, st, false)
  pop_one hook st self ((cid, status) ∷ rest) =
      let later = pop_one hook st self rest in
      let now = handle_live hook st self cid status >>= λ r.
      ok (record r.0 { disconnected = rest }, r.1, true) in
      if alive self cid then now else later

  unfoldable pub handle_disconnect :
      (H → CId → Status V → H) → H → Server V → Io (Server V × H × Bool)
  unfolding pop_one
  handle_disconnect hook st self = pop_one hook st self self.disconnected

  unfoldable pub pop_all :
      (H → CId → Status V → H) → H → Server V → List (CId × Status V) → ℕ → Io (Server V × H × ℕ)
  unfolding handle_live
  pop_all hook st self [] i = ok (record self { disconnected = [] }, st, i)
  pop_all hook st self ((cid, status) ∷ rest) i =
      let skipped = pop_all hook st self rest i in
      let handled =
        handle_live hook st self cid status >>= λ r. pop_all hook r.1 r.0 rest (i + 1) in
      if alive self cid then handled else skipped

  unfoldable pub handle_disconnects :
      (H → CId → Status V → H) → H → Server V → Io (Server V × H × ℕ)
  unfolding pop_all
  handle_disconnects hook st self = pop_all hook st self self.disconnected 0
