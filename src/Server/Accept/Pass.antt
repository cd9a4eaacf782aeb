-- ===== src/Server/Accept/Pass.antt =====
-- The pass of src/server.rs over its new connections, where one has finished and the others still
-- wait for their connection message.
use carrier_pigeon.Base.{
  ℕ, ◌+◌, ◌≡◌, refl, ap, ◌∙◌, List, [], ◌∷◌, ◌++◌, map, Bool, true, false, Io, ok, err, length,
  arith, All, if◌then◌else◌, ◌≢◌, ErrorKind,
}
use carrier_pigeon.Base.Results.{would_block}
use carrier_pigeon.Net.{TypeId, Any, DeserFn}
use carrier_pigeon.Table.Parts.Roundtrip.{length-map}
use carrier_pigeon.Server.{NewCon}
use carrier_pigeon.Server.Accept.{handle_con_helper}
use carrier_pigeon.Server.Accept.Handle.{take_out, Found, Hook, stay, answer, bury, scan}

take_out-middle {ℓ} :
    {A : Type ℓ} (xs : List A) (a : A) (ys : List A)
    → take_out (xs ++ a ∷ ys) (length xs) ≡ ok (a, xs ++ ys)
unfolding take_out
take_out-middle [] a ys = refl
take_out-middle (x ∷ xs) a ys = rw (take_out-middle xs a ys)

-- Where `before` is walked by a function first.
pub take_out-mapped :
    (g : NewCon → NewCon) (before : List NewCon) (a : NewCon) (ys : List NewCon)
    → take_out (map g before ++ a ∷ ys) (length before) ≡ ok (a, map g before ++ ys)
take_out-mapped g before a ys = rw (← length-map g before) (take_out-middle (map g before) a ys)

module _ {V : Type 0} (f : DeserFn V) (tid : TypeId) (timeout now : ℕ) where
  -- A connection after it was asked for its message.
  abbrev pub asked : NewCon → NewCon
  asked new = (handle_con_helper f tid timeout now new).0

  -- A connection that has neither sent its message nor run out of time.
  abbrev pub Waits : NewCon → Type 0
  Waits new = (handle_con_helper f tid timeout now new).1 ≡ err would_block

  pub asked-cid : (new : NewCon) → (asked new).cid ≡ new.cid
  unfolding handle_con_helper
  asked-cid new = ground arith

  -- What the pass leaves behind the connection that it answers.
  abbrev pub later : Bool → List NewCon → List NewCon
  later one news = if one then news else map asked news

  module _ {H : Type 0} (hook : Hook V H) where
    abbrev pub scanned : Bool → ℕ → List NewCon → H → Io (Found V H)
    scanned one k news st = scan one hook f tid timeout now k news st

    scan-waiting :
        (one : Bool) (k : ℕ) (new : NewCon) (news : List NewCon) (st : H)
        → Waits new
        → scanned one k (new ∷ news) st ≡ stay (asked new) (scanned one (k + 1) news st)
    unfolding scan
    scan-waiting one k new news st w = rw (w, scan)

    scan-all_waiting :
        (one : Bool) (k : ℕ) (news : List NewCon) (st : H)
        → All Waits news
        → scanned one k news st
          ≡ ok (record {
            new_cons = map asked news;
            accepted = [];
            rejected = [];
            dead = [];
            hook_state = st;
          })
    unfolding scan stay
    scan-all_waiting one k [] st w = refl
    scan-all_waiting one k (new ∷ news) st (w, ws) =
        scan-waiting one k new news st w
        ∙ ap (stay (asked new)) (scan-all_waiting one (k + 1) news st ws)

    -- The pass where it answers one connection, the one at position `i`.
    abbrev pub only : Bool → ℕ → Any V → List NewCon → H → Found V H
    only acc i resp news st = record {
      new_cons = news;
      accepted = if acc then (i, resp) ∷ [] else [];
      rejected = if acc then [] else (i, resp) ∷ [];
      dead = [];
      hook_state = st;
    }

    scan-answer :
        (one acc : Bool) (k : ℕ) (new : NewCon) (after : List NewCon) (st st' : H) (c : V)
        (resp : Any V)
        → (handle_con_helper f tid timeout now new).1 ≡ ok c
        → hook st new.cid c ≡ (st', acc, resp)
        → All Waits after
        → scanned one k (new ∷ after) st ≡ ok (only acc k resp (asked new ∷ later one after) st')
    unfolding scan answer stay
    scan-answer true true k new after st st' c resp e says w = rw (e, says, scan)
    scan-answer true false k new after st st' c resp e says w = rw (e, says, scan)
    scan-answer false true k new after st st' c resp e says w =
        rw (e, says, scan, scan-all_waiting false (k + 1) after st' w)
    scan-answer false false k new after st st' c resp e says w =
        rw (e, says, scan, scan-all_waiting false (k + 1) after st' w)

    pub scan-answered :
        (one acc : Bool) (k i : ℕ) (before : List NewCon) (new : NewCon) (after : List NewCon)
        (st st' : H) (c : V) (resp : Any V)
        → k + length before ≡ i
        → All Waits before
        → (handle_con_helper f tid timeout now new).1 ≡ ok c
        → hook st new.cid c ≡ (st', acc, resp)
        → All Waits after
        → scanned one k (before ++ new ∷ after) st
          ≡ ok (only acc i resp (map asked before ++ asked new ∷ later one after) st')
    unfolding stay
    scan-answered one acc k i [] new after st st' c resp at b e says w =
        let here : k ≡ i = omega arith in
        rw (← here) (scan-answer one acc k new after st st' c resp e says w)
    scan-answered one acc k i (x ∷ before) new after st st' c resp at (b, bs) e says w =
        scan-waiting one k x (before ++ new ∷ after) st b
        ∙ ap (stay (asked x)) (
            scan-answered one acc (k + 1) i before new after st st' c resp (omega arith) bs e says
              w)

    scan-failed :
        (e : ErrorKind) (one : Bool) (k : ℕ) (new : NewCon) (news : List NewCon) (st : H)
        → (handle_con_helper f tid timeout now new).1 ≡ err e
        → e ≢ would_block
        → scanned one k (new ∷ news) st ≡ bury (asked new) k (scanned one (k + 1) news st)
    unfolding scan
    scan-failed would_block one k new news st failed other = absurd (other refl)
    scan-failed _ one k new news st failed other = rw (failed, scan)

    pub scan-dead :
        (one : Bool) (k i : ℕ) (before : List NewCon) (new : NewCon) (after : List NewCon) (st : H)
        (e : ErrorKind)
        → k + length before ≡ i
        → All Waits before
        → (handle_con_helper f tid timeout now new).1 ≡ err e
        → e ≢ would_block
        → All Waits after
        → scanned one k (before ++ new ∷ after) st
          ≡ ok (record {
            new_cons = map asked before ++ asked new ∷ map asked after;
            accepted = [];
            rejected = [];
            dead = i ∷ [];
            hook_state = st;
          })
    unfolding stay bury
    scan-dead one k i [] new after st e at b failed other w =
        let here : k ≡ i = omega arith in
        rw (← here) (
          scan-failed e one k new after st failed other
          ∙ ap (bury (asked new) k) (scan-all_waiting one (k + 1) after st w))
    scan-dead one k i (x ∷ before) new after st e at (b, bs) failed other w =
        scan-waiting one k x (before ++ new ∷ after) st b
        ∙ ap (stay (asked x))
            (scan-dead one (k + 1) i before new after st e (omega arith) bs failed other w)
