-- ===== src/Server/Accept/One.antt =====
-- `handle_new_con` and `handle_new_cons` of src/server.rs where one connection has finished and the
-- others still wait for their connection message.
use carrier_pigeon.Base.{
  ℕ, ◌+◌, ◌≡◌, refl, ap, ◌∙◌, List, [], ◌∷◌, ◌++◌, map, Bool, true, false, Io, ok, err, length,
  arith, All, if◌then◌else◌, some, get_elem?, ◌>>=◌, ◌≢◌, ErrorKind,
}
use carrier_pigeon.Base.Results.{would_block, >>=-ok, >>=-assoc}
use carrier_pigeon.Net.{TypeId, Any, DeserFn, tcp}
use carrier_pigeon.Time.{Host}
use carrier_pigeon.Table.{connection_type_mid, response_type_mid}
use carrier_pigeon.Table.Parts.Codec.{index, encode}
use carrier_pigeon.Tcp
use carrier_pigeon.Tcp.{TcpCon}
use carrier_pigeon.Server.{Server, NewCon}
use carrier_pigeon.Server.Accept.Steps.{with_con, accept_incoming-sends, reject_incoming-sends}
use carrier_pigeon.Server.Accept.{
  start_incoming, handle_con_helper, accept_incoming, reject_incoming,
}
use carrier_pigeon.Server.Accept.Handle.{
  Found, Hook, accept_each, reject_each, drop_each, scan, handle_pending,
}
use carrier_pigeon.Server.Accept.Pass.{
  asked, Waits, asked-cid, later, only, scan-answered, scan-dead, take_out-mapped,
}

-- A list with something in it has a front.
front {ℓ} :
    {A : Type ℓ} (xs : List A) (a : A) (ys : List A)
    → (b : A) × (bs : List A) × (xs ++ a ∷ ys ≡ b ∷ bs)
front [] a ys = (a, ys, refl)
front (x ∷ xs) a ys = (x, xs ++ a ∷ ys, refl)

module _ {V H : Type 0} (one : Bool) (h : Host) (now : ℕ) (hook : Hook V H) (tid : TypeId) (st : H)
    (self s : Server V) (f : DeserFn V) (before : List NewCon) (new : NewCon) (after : List NewCon)
    (started : start_incoming h.overflow_checks now self ≡ ok s)
    (reads : get_elem? s.parts.deser connection_type_mid ≡ some f)
    (wait : s.new_cons ≡ before ++ new ∷ after) (b : All (Waits f tid s.config.timeout now) before)
    (w : All (Waits f tid s.config.timeout now) after) where
  abbrev settled : NewCon → NewCon
  settled = asked f tid s.config.timeout now

  abbrev found_at : Found V H → Io (Server V × H × ℕ × List TcpCon)
  found_at found = accept_each h (record s { new_cons = found.new_cons }) found.accepted >>= λ s1.
      reject_each s1 found.rejected >>= λ s2. drop_each s2.0 found.dead >>= λ s3.
      ok (s3, found.hook_state, length found.accepted + length found.rejected, s2.1)

  handle_pending-found :
      (found : Found V H)
      → scan one hook f tid s.config.timeout now 0 (before ++ new ∷ after) st ≡ ok found
      → handle_pending one h now hook tid st self ≡ found_at found
  unfolding handle_pending index
  handle_pending-found found e =
      let (x, xs, fronts) = front before new after in
      let e' : scan one hook f tid s.config.timeout now 0 (x ∷ xs) st ≡ ok found =
        rw (← fronts) e in
      rw (started, handle_pending, wait, fronts, index, reads, e') refl

  -- The server without the one connection, the others in their order.
  abbrev without_it : List NewCon → Server V
  without_it left = record s { new_cons = map settled before ++ left }

  accept-it :
      (resp : Any V) (left : List NewCon)
      → accept_each h
          (record s { new_cons = map settled before ++ settled new ∷ left })
          ((length before, resp) ∷ [])
        ≡ accept_incoming h (without_it left) new.cid (settled new).con resp
  unfolding accept_each
  accept-it resp left =
      rw
        (
          take_out-mapped settled before (settled new) left,
          asked-cid f tid s.config.timeout now new,
        )
        (>>=-ok (accept_incoming h (without_it left) new.cid (settled new).con resp))

  reject-it :
      (resp : Any V) (left : List NewCon)
      → reject_each
          (record s { new_cons = map settled before ++ settled new ∷ left })
          ((length before, resp) ∷ [])
        ≡ (reject_incoming s (settled new).con resp >>= λ con. ok (without_it left, con ∷ []))
  unfolding reject_each reject_incoming
  reject-it resp left = rw (take_out-mapped settled before (settled new) left) refl

  drop-it :
      (left : List NewCon)
      → drop_each
          (record s { new_cons = map settled before ++ settled new ∷ left })
          (length before ∷ [])
        ≡ ok (without_it left)
  unfolding drop_each
  drop-it left = rw (take_out-mapped settled before (settled new) left) refl

  abbrev rest : List NewCon
  rest = later f tid s.config.timeout now one after

  pass :
      (acc : Bool) (c : V) (resp : Any V) (st' : H)
      → (handle_con_helper f tid s.config.timeout now new).1 ≡ ok c
      → hook st new.cid c ≡ (st', acc, resp)
      → scan one hook f tid s.config.timeout now 0 (before ++ new ∷ after) st
        ≡ ok (
            only f tid s.config.timeout now hook acc
              (length before)
              resp
              (map settled before ++ settled new ∷ rest)
              st')
  pass acc c resp st' e says =
      scan-answered f tid s.config.timeout now hook one acc 0 (length before) before new after st
        st' c resp (omega arith) b e says w

  -- What a connection message leads to: the hook is called with it.
  one_seen :
      (acc : Bool) (c : V) (resp : Any V) (st' : H)
      → (handle_con_helper f tid s.config.timeout now new).1 ≡ ok c
      → hook st new.cid c ≡ (st', acc, resp)
      → handle_pending one h now hook tid st self ≡ (
          (if acc
            then (accept_incoming h (without_it rest) new.cid (settled new).con resp >>= λ z.
                ok (z, st', 1, []))
            else (reject_incoming s (settled new).con resp >>= λ con.
                ok (without_it rest, st', 1, con ∷ []))))
  unfolding reject_each drop_each accept_each
  one_seen true c resp st' e says =
      handle_pending-found _ (pass true c resp st' e says) ∙ rw (accept-it resp rest) refl
  one_seen false c resp st' e says =
      handle_pending-found _ (pass false c resp st' e says)
      ∙ rw (reject-it resp rest) (
          >>=-assoc (reject_incoming s (settled new).con resp)
            (λ con. ok (without_it rest, con ∷ [])) (λ t. ok (t.0, st', 1, t.1)))

  -- The connection with the response on its stream, as far as the stream takes it.
  abbrev pub with_response : List ℕ → TcpCon
  with_response rb = (Tcp.send (settled new).con response_type_mid rb).0

  -- Where one of the connections that wait, those just accepted among them, has sent its connection
  -- message, and each of the others has sent nothing that makes a message and has neither run out of
  -- time nor failed, the hook is called once, with that message, and the count is one. The one
  -- connection leaves those that wait, which keep their order. If the hook accepts, the connection
  -- is put into the three tables of the server under its number, with the address of its peer, and
  -- with the hook's response written on its stream as far as the stream takes it; if the hook
  -- rejects, the connection is dropped with the response written so, and the tables are as before.
  -- The address of the peer is known, and the response is of the type for responses and goes over
  -- TCP.
  pub one_answered :
      (acc : Bool) (c : V) (resp : Any V) (st' : H) (addr : ℕ) (rb : List ℕ)
      → (handle_con_helper f tid s.config.timeout now new).1 ≡ ok c
      → hook st new.cid c ≡ (st', acc, resp)
      → Tcp.peer_addr (settled new).con ≡ ok addr
      → encode s.parts resp ≡ ok (response_type_mid, tcp, rb)
      → handle_pending one h now hook tid st self
        ≡ ok (
          (if acc
              then with_con (without_it rest) new.cid (with_response rb) addr
              else without_it rest),
          st',
          1,
          (if acc then [] else with_response rb ∷ []),
        )
  one_answered true c resp st' addr rb e says peer codes =
      one_seen true c resp st' e says
      ∙ ap (λ r. r >>= λ z. ok (z, st', 1, []))
          (accept_incoming-sends h (without_it rest) new.cid (settled new).con resp addr
            response_type_mid rb peer codes)
  one_answered false c resp st' addr rb e says peer codes =
      one_seen false c resp st' e says
      ∙ ap (λ r. r >>= λ con. ok (without_it rest, st', 1, con ∷ []))
          (reject_incoming-sends s (settled new).con resp addr rb peer codes)

  -- Where one of the connections that wait has failed and the others have sent nothing, it alone
  -- leaves those that wait; the hook is not called and the count is zero.
  pub one_dead :
      (e : ErrorKind)
      → (handle_con_helper f tid s.config.timeout now new).1 ≡ err e
      → e ≢ would_block
      → handle_pending one h now hook tid st self ≡ ok (without_it (map settled after), st, 0, [])
  unfolding reject_each accept_each
  one_dead e failed other =
      let dead =
        scan-dead f tid s.config.timeout now hook one 0 (length before) before new after st e
          (omega arith) b failed other w in
      handle_pending-found _ dead ∙ rw (drop-it (map settled after)) refl
