-- ===== src/Server/Accept/Handle.antt =====
-- src/server.rs: `handle_new_con` and `handle_new_cons`. The program's hook gets the connection
-- message and says whether to accept, and what to respond.
use carrier_pigeon.Base.{
  ℕ, zero, suc, ◌+◌, List, [], ◌∷◌, Bool, true, false, Io, ok, err, panic, length, if◌then◌else◌,
  ◌>>=◌,
}
use carrier_pigeon.Base.Results.{would_block}
use carrier_pigeon.Net.{CId, TypeId, Any, DeserFn}
use carrier_pigeon.Time.{Host}
use carrier_pigeon.Table.{connection_type_mid}
use carrier_pigeon.Table.Parts.Codec.{index}
use carrier_pigeon.Tcp.{TcpCon}
use carrier_pigeon.Server.{Server, NewCon}
use carrier_pigeon.Server.Accept.{
  start_incoming, handle_con_helper, accept_incoming, reject_incoming,
}

-- `Vec::remove`, which panics out of range.
unfoldable pub take_out {ℓ} : {A : Type ℓ} → List A → ℕ → Io (A × List A)
take_out [] i = panic
take_out (a ∷ xs) zero = ok (a, xs)
take_out (a ∷ xs) (suc i) = take_out xs i >>= λ r. ok (r.0, a ∷ r.1)

-- What a pass over the new connections finds: the connections after it, the positions of those that
-- are accepted or rejected, with the responses, and of the dead, and the hook's state.
pub record Found (V H : Type 0) : Type 0 where
  pub new_cons : List NewCon
  pub accepted : List (ℕ × Any V)
  pub rejected : List (ℕ × Any V)
  pub dead : List ℕ
  pub hook_state : H

module _ {V : Type 0} where
  unfoldable pub accept_each : Host → Server V → List (ℕ × Any V) → Io (Server V)
  unfolding take_out
  accept_each h self [] = ok self
  accept_each h self ((idx, resp) ∷ accepted) = take_out self.new_cons idx >>= λ r.
      accept_incoming h (record self { new_cons = r.1 }) r.0.cid r.0.con resp >>= λ self'.
      accept_each h self' accepted

  -- The connections that are dropped are given back, as the responses left them.
  unfoldable pub reject_each : Server V → List (ℕ × Any V) → Io (Server V × List TcpCon)
  unfolding take_out
  reject_each self [] = ok (self, [])
  reject_each self ((idx, resp) ∷ rejected) = take_out self.new_cons idx >>= λ r.
      reject_incoming self r.0.con resp >>= λ con.
      reject_each (record self { new_cons = r.1 }) rejected >>= λ t. ok (t.0, con ∷ t.1)

  unfoldable pub drop_each : Server V → List ℕ → Io (Server V)
  unfolding take_out
  drop_each self [] = ok self
  drop_each self (idx ∷ dead) =
      take_out self.new_cons idx >>= λ r. drop_each (record self { new_cons = r.1 }) dead

-- The program's hook.
abbrev pub Hook : Type 0 → Type 0 → Type 0
Hook V H = H → CId → V → H × Bool × Any V

module _ {V H : Type 0} where
  -- The connection at the front of what is left goes back in its place.
  unfoldable pub stay : NewCon → Io (Found V H) → Io (Found V H)
  stay new rest = rest >>= λ f. ok (record f { new_cons = new ∷ f.new_cons })

  unfoldable pub answer : NewCon → ℕ → Bool → Any V → Io (Found V H) → Io (Found V H)
  unfolding stay
  answer new idx true resp rest =
      stay new (rest >>= λ f. ok (record f { accepted = (idx, resp) ∷ f.accepted }))
  answer new idx false resp rest =
      stay new (rest >>= λ f. ok (record f { rejected = (idx, resp) ∷ f.rejected }))

  unfoldable pub bury : NewCon → ℕ → Io (Found V H) → Io (Found V H)
  unfolding stay
  bury new idx rest = stay new (rest >>= λ f. ok (record f { dead = idx ∷ f.dead }))

  abbrev nothing : List NewCon → H → Io (Found V H)
  nothing news st =
      ok (record { new_cons = news; accepted = []; rejected = []; dead = []; hook_state = st })

  -- The loop over `new_cons`, from position `idx`. With `one`, as in `handle_new_con`, it stops at
  -- the first connection that the hook has seen.
  unfoldable pub scan :
      Bool → Hook V H → DeserFn V → TypeId → ℕ → ℕ → ℕ → List NewCon → H → Io (Found V H)
  unfolding answer bury
  scan one hook deser_fn tid timeout now idx [] st = nothing [] st
  scan one hook deser_fn tid timeout now idx (new ∷ news) st =
      let onward = scan one hook deser_fn tid timeout now (idx + 1) news in
      let (new', result) = handle_con_helper deser_fn tid timeout now new in
      elim result [
        | ok c ↦
            let (st', acc, resp) = hook st new.cid c in
            answer new' idx acc resp (if one then nothing news st' else onward st')
        | err would_block ↦ stay new' (onward st)
        | err e ↦ bury new' idx (onward st)
        | panic ↦ panic
      ]

  -- The body that both share: the count is of the connections that the hook has seen, and the
  -- connections that were rejected come last.
  unfoldable pub handle_pending :
      Bool → Host → ℕ → Hook V H → TypeId → H → Server V → Io (Server V × H × ℕ × List TcpCon)
  unfolding scan
  handle_pending one h now hook tid st self = start_incoming h.overflow_checks now self >>= λ self'.
      elim self'.new_cons [
        | [] ↦ ok (self', st, 0, [])
        | new ∷ news ↦ index self'.parts.deser connection_type_mid >>= λ deser_fn.
            scan one hook deser_fn tid self'.config.timeout now 0 (new ∷ news) st >>= λ f.
            accept_each h (record self' { new_cons = f.new_cons }) f.accepted >>= λ s1.
            reject_each s1 f.rejected >>= λ s2. drop_each s2.0 f.dead >>= λ s3.
            ok (s3, f.hook_state, length f.accepted + length f.rejected, s2.1)
      ]

  unfoldable pub handle_new_con :
      Host → ℕ → Hook V H → TypeId → H → Server V → Io (Server V × H × Bool)
  unfolding handle_pending
  handle_new_con h now hook tid st self = handle_pending true h now hook tid st self >>= λ r.
      ok (r.0, r.1, (elim r.2 [ zero ↦ false | suc n ↦ true ]))

  unfoldable pub handle_new_cons :
      Host → ℕ → Hook V H → TypeId → H → Server V → Io (Server V × H × ℕ)
  unfolding handle_pending
  handle_new_cons h now hook tid st self =
      handle_pending false h now hook tid st self >>= λ r. ok (r.0, r.1, r.2)
