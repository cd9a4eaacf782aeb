-- ===== src/Server/Accept/Numbers.antt =====
-- The numbers of new connections in src/server.rs.
use mathlib.Core.List.{append_assoc, append-nil}
use carrier_pigeon.Base.{
  ℕ, ◌+◌, ◌^◌, ◌≤◌, ◌<◌, ◌≡◌, refl, sym, ap, ◌∙◌, ◌⊎◌, inl, inr, List, [], ◌∷◌, ◌++◌, map, Bool,
  true, ok, length, length-append, ltb, lt→ltb, ltb→lt, Bool-cases, arith,
}
use carrier_pigeon.Net.{CId}
use carrier_pigeon.Tcp
use carrier_pigeon.Tcp.Stream as Stream
use carrier_pigeon.Tcp.Stream.{TcpStream}
use carrier_pigeon.Server.{Server, NewCon, new_cid}
use carrier_pigeon.Server.Accept.{start_one, accept_pending, start_incoming}

-- The connections that wait for their message once `streams` are accepted, numbered from `cid`.
unfoldable pub numbered : ℕ → ℕ → CId → List TcpStream → List NewCon
numbered size now cid [] = []
numbered size now cid (stream ∷ streams) =
    (record {
      con = (Tcp.set_nonblocking (Tcp.from_stream stream size) true).0;
      cid = cid;
      time = now;
    })
    ∷ numbered size now (cid + 1) streams

module _ {V : Type 0} where
  -- A server with another count, other connections that wait, and `left` at its listener.
  abbrev with_waiting : Server V → ℕ → List NewCon → List TcpStream → Server V
  with_waiting self current news left = record self {
    current_cid = current;
    new_cons = news;
    listener = record self.listener { pending = map ok left };
  }

  -- The server once the streams of `taken` were accepted and those of `left` were not.
  abbrev pub accepted : ℕ → Server V → List TcpStream → List TcpStream → Server V
  accepted now self taken left =
      with_waiting self (self.current_cid + length taken)
        (self.new_cons ++ numbered self.config.max_msg_size now (self.current_cid + 1) taken) left

  -- How many of the streams that waited are accepted: none where enough connections wait, and else
  -- as many as may wait, or all.
  pub record Accepts (self : Server V) (streams taken left : List TcpStream) : Type 0 where
    pub split : streams ≡ taken ++ left
    pub bounded : (taken ≡ []) ⊎ (length self.new_cons + length taken ≤ self.config.max_con_handle)
    pub enough : (left ≡ []) ⊎ (self.config.max_con_handle ≤ length self.new_cons + length taken)

  abbrev pub fresh : ℕ → Server V → TcpStream → NewCon
  fresh now self stream = record {
    con = (Tcp.set_nonblocking (Tcp.from_stream stream self.config.max_msg_size) true).0;
    cid = self.current_cid + 1;
    time = now;
  }

  abbrev pub with_one : ℕ → Server V → TcpStream → Server V
  with_one now self stream = record self {
    current_cid = self.current_cid + 1;
    new_cons = self.new_cons ++ fresh now self stream ∷ [];
  }

  pub start_one_fresh :
      (oc : Bool) (now : ℕ) (self : Server V) (stream : TcpStream)
      → self.current_cid + 1 < 2 ^ 32
      → start_one oc now self stream ≡ ok (with_one now self stream)
  unfolding start_one new_cid Tcp.set_nonblocking Stream.set_nonblocking
  start_one_fresh oc now self stream room =
      rw (lt→ltb (self.current_cid + 1) (2 ^ 32) room, start_one, new_cid)

  same_waiting :
      (self : Server V) (left : List TcpStream) {c d : ℕ} {news others : List NewCon}
      → c ≡ d
      → news ≡ others
      → with_waiting self c news left ≡ with_waiting self d others left
  same_waiting self left {d = d} {news = news} p q =
      ap (λ c. with_waiting self c news left) p ∙ ap (λ l. with_waiting self d l left) q

  -- After one stream, and `taken`.
  accepted-one :
      (now : ℕ) (self : Server V) (stream : TcpStream) (taken left : List TcpStream)
      → accepted now (with_one now self stream) taken left ≡ accepted now self (stream ∷ taken) left
  unfolding numbered
  accepted-one now self stream taken left = same_waiting self left (omega arith) (
      append_assoc self.new_cons (fresh now self stream ∷ [])
        (numbered self.config.max_msg_size now (self.current_cid + 1 + 1) taken))

  accepted-none :
      (now : ℕ) (self : Server V) (left : List TcpStream)
      → record self { listener = record self.listener { pending = map ok left } }
        ≡ accepted now self [] left
  unfolding numbered
  accepted-none now self left =
      same_waiting self left (omega arith) (sym (append-nil self.new_cons))

  Accepts-one :
      (now : ℕ) (self : Server V) (stream : TcpStream) (streams taken left : List TcpStream)
      → length self.new_cons < self.config.max_con_handle
      → Accepts (with_one now self stream) streams taken left
      → Accepts self (stream ∷ streams) (stream ∷ taken) left
  Accepts-one now self stream streams taken left room n =
      let size = length-append self.new_cons (fresh now self stream ∷ []) in
      record {
        split = ap (λ l. stream ∷ l) n.split;
        bounded = inr (ground (arith, size, n.bounded));
        enough = ground (arith, size, n.enough);
      }

  accept_pending-accepted :
      (oc : Bool) (now : ℕ) (streams : List TcpStream) (self : Server V)
      → self.current_cid + length streams < 2 ^ 32
      → (taken : List TcpStream) × (left : List TcpStream) × Accepts self streams taken left
        × (accept_pending oc now self (map ok streams) ≡ ok (accepted now self taken left))
  unfolding accept_pending numbered
  accept_pending-accepted oc now [] self room = (
    [],
    [],
    record { split = refl; bounded = inl refl; enough = inl refl },
    ap ok (accepted-none now self []),
  )
  accept_pending-accepted oc now (stream ∷ streams) self room =
      elim (Bool-cases (ltb (length self.new_cons) self.config.max_con_handle)) [
        | inl more ↦
            let (taken, left, n, e) =
              accept_pending-accepted oc now streams (with_one now self stream) (omega arith) in
            (
              stream ∷ taken,
              left,
              Accepts-one now self stream streams taken left (ltb→lt _ _ more) n,
              rw (more, accept_pending, start_one_fresh oc now self stream (omega arith))
                  (e ∙ ap ok (accepted-one now self stream taken left)),
            )
        | inr full ↦ (
          [],
          stream ∷ streams,
          record { split = refl; bounded = inl refl; enough = inr (ground (arith, full)) },
          rw (full, accept_pending) (ap ok (accepted-none now self (stream ∷ streams))),
        )
      ]

  -- Where the listener has streams to accept, and the numbers do not run out, `start_incoming`
  -- accepts the first of them, in order: each becomes a connection that waits, with the next number
  -- and the time of the call, behind those that waited. The streams that it does not accept stay
  -- with the listener, and the rest of the server is as before. It accepts none past
  -- `max_con_handle`, and stops only where no stream is left or as many connections wait.
  pub start_incoming-accepted :
      (oc : Bool) (now : ℕ) (streams : List TcpStream) (self : Server V)
      → self.listener.pending ≡ map ok streams
      → self.current_cid + length streams < 2 ^ 32
      → (taken : List TcpStream) × (left : List TcpStream) × Accepts self streams taken left
        × (start_incoming oc now self ≡ ok (accepted now self taken left))
  unfolding start_incoming
  start_incoming-accepted oc now streams self come room =
      let (taken, left, n, e) = accept_pending-accepted oc now streams self room in
      (taken, left, n, ap (accept_pending oc now self) come ∙ e)
