-- ===== src/Server/Mirror/Waiting.antt =====
-- Connections of src/server.rs that wait for the program's hook: `handle_new_con` and
-- `handle_new_cons` keep the tables.
use carrier_pigeon.Base.{
  ℕ, zero, suc, ◌+◌, ◌≡◌, ◌≢◌, refl, ap, sym, subst, List, [], ◌∷◌, map, Bool, true, false, ltb,
  ◌-◌, ◌++◌, Io, ok, err, panic, All, Lacks, Distinct, ltb, Bool-cases, Outcome-cases, ErrorKind,
  inl, inr, arith, if◌then◌else◌,
}
use carrier_pigeon.Base.Results.{ok_before, would_block}
use carrier_pigeon.Net.{TypeId, Any, DeserFn}
use carrier_pigeon.Server.Mirror.{Tag, tags}
use carrier_pigeon.Tcp.Address.{recv-peer_addr}
use carrier_pigeon.Server.{NewCon}
use carrier_pigeon.Server.Accept.{handle_con_helper}
use carrier_pigeon.Server.Accept.Handle.{take_out, Found, Hook, stay, answer, bury, scan}

module _ {A B : Type 0} (g : A → B) where
  pub take_out-All :
      (P : B → Type 0) (xs : List A) (i : ℕ) (r : A × List A)
      → take_out xs i ≡ ok r
      → All P (map g xs)
      → P (g r.0) × All P (map g r.1)
  unfolding take_out
  take_out-All P [] i r e all = absurd (ground arith)
  take_out-All P (x ∷ xs) zero r e (p, all) =
      let same : (x, xs) ≡ r = ground (arith, e) in
      subst (λ (s : A × List A). P (g s.0) × All P (map g s.1)) same (p, all)
  take_out-All P (x ∷ xs) (suc i) r e (p, all) =
      let (s, taken, out) = ok_before (take_out xs i) _ r e in
      let (q, rest) = take_out-All P xs i s taken all in
      let same : (s.0, x ∷ s.1) ≡ r = ground (arith, out) in
      subst (λ (s : A × List A). P (g s.0) × All P (map g s.1)) same (q, (p, rest))

  pub take_out-Distinct :
      {K : Type 0} (f : B → K) (xs : List A) (i : ℕ) (r : A × List A)
      → take_out xs i ≡ ok r
      → Distinct f (map g xs)
      → Lacks f (f (g r.0)) (map g r.1) × Distinct f (map g r.1)
  unfolding take_out
  take_out-Distinct f [] i r e d = absurd (ground arith)
  take_out-Distinct f (x ∷ xs) zero r e d =
      let same : (x, xs) ≡ r = ground (arith, e) in
      subst (λ (s : A × List A). Lacks f (f (g s.0)) (map g s.1) × Distinct f (map g s.1)) same d
  take_out-Distinct f (x ∷ xs) (suc i) r e (l, d) =
      let (s, taken, out) = ok_before (take_out xs i) _ r e in
      let (lacks, rest) = take_out-Distinct f xs i s taken d in
      let (other, l') = take_out-All (λ y. f y ≢ f (g x)) xs i s taken l in
      let same : (s.0, x ∷ s.1) ≡ r = ground (arith, out) in
      subst (λ (s : A × List A). Lacks f (f (g s.0)) (map g s.1) × Distinct f (map g s.1)) same
        (((λ e. other (sym e)), lacks), (l', rest))

module _ {V : Type 0} where
  handle_con_helper-tag :
      (f : DeserFn V) (tid : TypeId) (timeout now : ℕ) (new : NewCon)
      → tags ((handle_con_helper f tid timeout now new).0 ∷ []) ≡ tags (new ∷ [])
  unfolding handle_con_helper
  handle_con_helper-tag f tid timeout now new = elim (Bool-cases (ltb timeout (now - new.time))) [
    | inl late ↦ rw (handle_con_helper, late) refl
    | inr soon ↦
        rw (handle_con_helper, soon) (ap (λ addr. (new.cid, addr) ∷ []) (recv-peer_addr new.con))
  ]

module _ {V H : Type 0} where
  -- What a pass leaves waiting is what it got, if it does not panic.
  abbrev pub Leaves : List Tag → Io (Found V H) → Type 0
  Leaves ts (ok f) = tags f.new_cons ≡ ts
  Leaves ts (err e) = Unit
  Leaves ts panic = Unit

  stay-Leaves :
      (new : NewCon) (ts : List Tag) (rest : Io (Found V H))
      → Leaves ts rest
      → Leaves ((new.cid, new.con.tcp.peer_addr) ∷ ts) (stay new rest)
  unfolding stay
  stay-Leaves new ts (ok f) l = ap (λ ts. (new.cid, new.con.tcp.peer_addr) ∷ ts) l
  stay-Leaves new ts (err e) l = tt
  stay-Leaves new ts panic l = tt

  answer-Leaves :
      (new : NewCon) (idx : ℕ) (acc : Bool) (resp : Any V) (ts : List Tag) (rest : Io (Found V H))
      → Leaves ts rest
      → Leaves ((new.cid, new.con.tcp.peer_addr) ∷ ts) (answer new idx acc resp rest)
  unfolding answer stay
  answer-Leaves new idx true resp ts (ok f) l = ap (λ ts. (new.cid, new.con.tcp.peer_addr) ∷ ts) l
  answer-Leaves new idx true resp ts (err e) l = tt
  answer-Leaves new idx true resp ts panic l = tt
  answer-Leaves new idx false resp ts (ok f) l = ap (λ ts. (new.cid, new.con.tcp.peer_addr) ∷ ts) l
  answer-Leaves new idx false resp ts (err e) l = tt
  answer-Leaves new idx false resp ts panic l = tt

  bury-Leaves :
      (new : NewCon) (idx : ℕ) (ts : List Tag) (rest : Io (Found V H))
      → Leaves ts rest
      → Leaves ((new.cid, new.con.tcp.peer_addr) ∷ ts) (bury new idx rest)
  unfolding bury stay
  bury-Leaves new idx ts (ok f) l = ap (λ ts. (new.cid, new.con.tcp.peer_addr) ∷ ts) l
  bury-Leaves new idx ts (err e) l = tt
  bury-Leaves new idx ts panic l = tt

  err-Leaves :
      (new : NewCon) (idx : ℕ) (e : ErrorKind) (ts : List Tag) (rest : Io (Found V H))
      → Leaves ts rest
      → Leaves
          ((new.cid, new.con.tcp.peer_addr) ∷ ts)
          (elim e [ would_block ↦ stay new rest | x ↦ bury new idx rest ])
  err-Leaves new idx would_block ts rest l = stay-Leaves new ts rest l
  err-Leaves new idx e ts rest l = bury-Leaves new idx ts rest l

  either-Leaves :
      (one : Bool) (ts : List Tag) (a b : Io (Found V H))
      → Leaves ts a
      → Leaves ts b
      → Leaves ts (if one then a else b)
  either-Leaves true ts a b l m = l
  either-Leaves false ts a b l m = m

  pub scan-Leaves :
      (one : Bool) (hook : Hook V H) (f : DeserFn V) (tid : TypeId) (timeout now idx : ℕ)
      (news : List NewCon) (st : H)
      → Leaves (tags news) (scan one hook f tid timeout now idx news st)
  unfolding scan
  scan-Leaves one hook f tid timeout now idx [] st = refl
  scan-Leaves one hook f tid timeout now idx (new ∷ news) st =
      let later = scan-Leaves one hook f tid timeout now (idx + 1) news in
      let came = handle_con_helper f tid timeout now new in
      let whole = scan one hook f tid timeout now idx (new ∷ news) st in
      subst (λ t. Leaves (t ++ tags news) whole) (handle_con_helper-tag f tid timeout now new)
        (elim (Outcome-cases came.1) [
          | inl (c, q) ↦
              rw (scan, q)
                (answer-Leaves came.0 idx _ _ _ _
                  (either-Leaves one (tags news) _ _ refl (later _)))
          | inr (inl (e, q)) ↦ rw (scan, q) (err-Leaves came.0 idx e _ _ (later st))
          | inr (inr q) ↦ rw (scan, q) tt
        ])
