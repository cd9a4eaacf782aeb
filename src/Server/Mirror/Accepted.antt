-- ===== src/Server/Mirror/Accepted.antt =====
-- `start_incoming` of src/server.rs leaves the tables of connections as they are, and gives those
-- that it accepts numbers that no other has.
use carrier_pigeon.Base.{
  ℕ, ◌+◌, ◌^◌, ◌≤◌, ◌<◌, ◌≡◌, refl, Option-cases, ap, subst, List, [], ◌∷◌, ◌++◌, none, Bool, Io,
  ok, err, panic, ◌⊎◌, some, inl, inr, length, ltb, Bool-cases, arith, All, Lacks,
}
use carrier_pigeon.Base.HashMap
use carrier_pigeon.Base.Keys.{Distinct-append}
use carrier_pigeon.Tcp.Stream.{TcpStream}
use carrier_pigeon.Server.{Server, TcpListener, NewCon}
use carrier_pigeon.Server.Accept.{accept_pending, start_incoming}
use carrier_pigeon.Server.Accept.Numbers.{with_one, fresh, start_one_fresh}
use carrier_pigeon.Server.Mirror.{Sound, Tag, tags}

All-append :
    (P : Tag → Type 0) (xs ys : List NewCon)
    → All P (tags xs)
    → All P (tags ys)
    → All P (tags (xs ++ ys))
All-append P [] ys a b = b
All-append P (x ∷ xs) ys (p, a) b = (p, All-append P xs ys a b)

below-Lacks : (n : ℕ) (ts : List Tag) → All (λ t. t.0 ≤ n) ts → Lacks (λ t. t.0) (n + 1) ts
below-Lacks n [] b = tt
below-Lacks n (t ∷ ts) (le, b) = ((λ e. absurd (omega (arith, e, le))), below-Lacks n ts b)

past : (n : ℕ) (ts : List Tag) → All (λ t. t.0 ≤ n) ts → All (λ t. t.0 ≤ n + 1) ts
past n [] b = tt
past n (t ∷ ts) (le, b) = (omega arith, past n ts b)

tags-append : (xs ys : List NewCon) → tags (xs ++ ys) ≡ tags xs ++ tags ys
tags-append [] ys = refl
tags-append (x ∷ xs) ys = ap (λ ts. (x.cid, x.con.tcp.peer_addr) ∷ ts) (tags-append xs ys)

module _ {V : Type 0} where
  with_one-Sound :
      (now : ℕ) (self : Server V) (stream : TcpStream)
      → Sound self
      → Sound (with_one now self stream)
  with_one-Sound now self stream (m, n) =
      let new = fresh now self stream in
      let ts = tags self.new_cons in
      (
        record { there = m.there; back = m.back; connected = m.connected; addressed = m.addressed },
        record {
          bounded =
              All-append (λ t. t.0 ≤ self.current_cid + 1) self.new_cons (new ∷ [])
                (past self.current_cid ts n.bounded) (omega arith, tt);
          new_cids =
              All-append (λ t. HashMap.get self.cid_addr t.0 ≡ none) self.new_cons (new ∷ [])
                n.new_cids
                (unused (Option-cases (HashMap.get self.cid_addr (self.current_cid + 1))), tt);
          cids = rw (tags-append self.new_cons (new ∷ [])) (
              Distinct-append (λ t. t.0) ts (tags (new ∷ [])) n.cids (tt, tt)
                (below-Lacks self.current_cid ts n.bounded, tt));
          below = λ c a e. omega (arith, n.below c a e);
        },
      )
    where
      unused :
          (HashMap.get self.cid_addr (self.current_cid + 1) ≡ none)
            ⊎ ((a : ℕ) × (HashMap.get self.cid_addr (self.current_cid + 1) ≡ some a))
          → HashMap.get self.cid_addr (self.current_cid + 1) ≡ none
      unused (inl gone) = gone
      unused (inr (a, held)) = absurd (omega (arith, n.below (self.current_cid + 1) a held))

  relisten-Sound :
      (self s : Server V) (left : TcpListener)
      → record self { listener = left } ≡ s
      → Sound self
      → Sound s
  relisten-Sound self s left same (m, n) = subst Sound same (
    record { there = m.there; back = m.back; connected = m.connected; addressed = m.addressed },
    record { bounded = n.bounded; new_cids = n.new_cids; cids = n.cids; below = n.below },
  )

  accept_pending-Sound :
      (oc : Bool) (now : ℕ) (pending : List (Io TcpStream)) (self s : Server V)
      → self.current_cid + length pending < 2 ^ 32
      → accept_pending oc now self pending ≡ ok s
      → Sound self
      → Sound s
  unfolding accept_pending
  accept_pending-Sound oc now [] self s room e k =
      relisten-Sound self s (record self.listener { pending = [] }) (ground (arith, e)) k
  accept_pending-Sound oc now (ok stream ∷ rest) self s room e k =
      elim (Bool-cases (ltb (length self.new_cons) self.config.max_con_handle)) [
        | inl more ↦
            accept_pending-Sound oc now rest (with_one now self stream) s (omega arith)
              (rw (accept_pending, more, start_one_fresh oc now self stream (omega arith)) at e)
              (with_one-Sound now self stream k)
        | inr full ↦
            relisten-Sound self s (record self.listener { pending = ok stream ∷ rest })
              (ground (arith, e)) k
      ]
  accept_pending-Sound oc now (err x ∷ rest) self s room e k =
      elim (Bool-cases (ltb (length self.new_cons) self.config.max_con_handle)) [
        | inl more ↦
            relisten-Sound self s (record self.listener { pending = rest }) (ground (arith, e)) k
        | inr full ↦
            relisten-Sound self s (record self.listener { pending = err x ∷ rest })
              (ground (arith, e)) k
      ]
  accept_pending-Sound oc now (panic ∷ rest) self s room e k = absurd (ground arith)

  pub start_incoming-Sound :
      (oc : Bool) (now : ℕ) (self s : Server V)
      → self.current_cid + length self.listener.pending < 2 ^ 32
      → start_incoming oc now self ≡ ok s
      → Sound self
      → Sound s
  unfolding start_incoming
  start_incoming-Sound oc now self s room e k =
      accept_pending-Sound oc now self.listener.pending self s room e k
