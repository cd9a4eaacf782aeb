-- ===== src/Chat/ServerLoop/Greeting.antt =====
-- Whom the chatroom's server of examples/server.rs lets in.
use carrier_pigeon.Base.{
  ℕ, ◌+◌, ◌≡◌, ◌≢◌, ◌⊎◌, refl, sym, ap, ◌∙◌, List, [], ◌∷◌, true, false, Io, ErrorKind, ok, err,
  panic, arith, Bool-cases, Outcome-cases, inl, inr, subst,
}
use carrier_pigeon.Base.Results.{would_block}
use carrier_pigeon.Base.Text.{bytes_of}
use carrier_pigeon.Net.{TypeId, DeserFn}
use carrier_pigeon.Table.Sorted.Order.{str_eq→eq, str_eq_refl}
use carrier_pigeon.Table.Sorted.{str_eq}
use carrier_pigeon.Server.{NewCon}
use carrier_pigeon.Server.Accept.{handle_con_helper}
use carrier_pigeon.Server.Accept.Handle.{Found, stay, answer, bury, scan}
use carrier_pigeon.Chat.{
  Text, Connection, Response, accepted, rejected, Values, Strings, any_response,
}
use carrier_pigeon.Chat.ServerLoop.{greet, greeter, is_blacklisted}

abbrev pub refusal : Response
refusal = rejected (bytes_of "This user is blacklisted")

-- A user whose name in lower case is on the list.
abbrev pub Blacklisted : Strings → Text → Type 0
Blacklisted s user =
    (s.to_lowercase user ≡ bytes_of "john") ⊎ (s.to_lowercase user ≡ bytes_of "jane")

differs : (xs ys : Text) → str_eq xs ys ≡ false → xs ≢ ys
differs xs ys unlike e =
    let both : false ≡ true = sym unlike ∙ ap (str_eq xs) (sym e) ∙ str_eq_refl xs in
    absurd (ground arith)

-- A user is refused with the reason that it is blacklisted if its name in lower case is `john` or
-- `jane`, and accepted if it is neither.
pub greet_cases :
    (s : Strings) (c : Connection)
    → (Blacklisted s c.user × (greet s c ≡ (false, refusal)))
      ⊎ ((¬ Blacklisted s c.user) × (greet s c ≡ (true, accepted)))
unfolding greet is_blacklisted
greet_cases s c =
    let name = s.to_lowercase c.user in
    elim (Bool-cases (str_eq name (bytes_of "john"))) [
      | inl john ↦ inl (inl (str_eq→eq name _ john), rw (greet, is_blacklisted, john) refl)
      | inr not_john ↦ elim (Bool-cases (str_eq name (bytes_of "jane"))) [
        | inl jane ↦
            inl (inr (str_eq→eq name _ jane), rw (greet, is_blacklisted, not_john, jane) refl)
        | inr not_jane ↦ inr (
          (λ b. elim b [ inl e ↦ differs name _ not_john e | inr e ↦ differs name _ not_jane e ]),
          rw (greet, is_blacklisted, not_john, not_jane) refl,
        )
      ]
    ]

module _ {V : Type 0} (v : Values V) (s : Strings) (deser_fn : DeserFn V) (tid : TypeId)
    (timeout now : ℕ) where
  -- What a connection that waits has to say.
  abbrev says : NewCon → Io V
  says new = (handle_con_helper deser_fn tid timeout now new).1

  -- The connection once it was asked.
  abbrev asked : NewCon → NewCon
  asked new = (handle_con_helper deser_fn tid timeout now new).0

  -- What the chatroom makes of the connections that wait, from position `idx`: `Greeted idx news f`
  -- says that `f` lists who is let in, who is refused and who is dead.
  pub data Greeted : ℕ → List NewCon → Found V (Unit {0}) → Type 0 where
    nobody :
        (idx : ℕ)
        → Greeted idx []
            (record { new_cons = []; accepted = []; rejected = []; dead = []; hook_state = tt })
    lets_in :
        (idx : ℕ) (new : NewCon) (news : List NewCon) (f : Found V (Unit {0})) (c : V)
        → says new ≡ ok c
        → ¬ Blacklisted s (v.to_connection c).user
        → Greeted (idx + 1) news f
        → Greeted idx (new ∷ news) (record f {
          new_cons = asked new ∷ f.new_cons;
          accepted = (idx, any_response v accepted) ∷ f.accepted;
        })
    refuses :
        (idx : ℕ) (new : NewCon) (news : List NewCon) (f : Found V (Unit {0})) (c : V)
        → says new ≡ ok c
        → Blacklisted s (v.to_connection c).user
        → Greeted (idx + 1) news f
        → Greeted idx (new ∷ news) (record f {
          new_cons = asked new ∷ f.new_cons;
          rejected = (idx, any_response v refusal) ∷ f.rejected;
        })
    waits :
        (idx : ℕ) (new : NewCon) (news : List NewCon) (f : Found V (Unit {0}))
        → says new ≡ err would_block
        → Greeted (idx + 1) news f
        → Greeted idx (new ∷ news) (record f { new_cons = asked new ∷ f.new_cons })
    fails :
        (idx : ℕ) (new : NewCon) (news : List NewCon) (f : Found V (Unit {0})) (e : ErrorKind)
        → says new ≡ err e
        → e ≢ would_block
        → Greeted (idx + 1) news f
        → Greeted idx
            (new ∷ news)
            (record f { new_cons = asked new ∷ f.new_cons; dead = idx ∷ f.dead })

  abbrev scanned : ℕ → List NewCon → Io (Found V (Unit {0}))
  scanned idx news = scan false (greeter v s) deser_fn tid timeout now idx news tt

  abbrev Hears : ℕ → List NewCon → Io (Found V (Unit {0})) → Type 0
  Hears idx news r = (f : Found V (Unit {0})) → r ≡ ok f → Greeted idx news f

  lets_in-Hears :
      (idx : ℕ) (new : NewCon) (news : List NewCon) (c : V) (r : Io (Found V (Unit {0})))
      → says new ≡ ok c
      → ¬ Blacklisted s (v.to_connection c).user
      → Hears (idx + 1) news r
      → Hears idx (new ∷ news) (answer (asked new) idx true (any_response v accepted) r)
  unfolding answer stay
  lets_in-Hears idx new news c (ok g) came free rest f e =
      subst (Greeted idx (new ∷ news)) (ground (arith, e))
        (lets_in idx new news g c came free (rest g refl))
  lets_in-Hears idx new news c (err x) came free rest f e = absurd (ground arith)
  lets_in-Hears idx new news c panic came free rest f e = absurd (ground arith)

  refuses-Hears :
      (idx : ℕ) (new : NewCon) (news : List NewCon) (c : V) (r : Io (Found V (Unit {0})))
      → says new ≡ ok c
      → Blacklisted s (v.to_connection c).user
      → Hears (idx + 1) news r
      → Hears idx (new ∷ news) (answer (asked new) idx false (any_response v refusal) r)
  unfolding answer stay
  refuses-Hears idx new news c (ok g) came listed rest f e =
      subst (Greeted idx (new ∷ news)) (ground (arith, e))
        (refuses idx new news g c came listed (rest g refl))
  refuses-Hears idx new news c (err x) came listed rest f e = absurd (ground arith)
  refuses-Hears idx new news c panic came listed rest f e = absurd (ground arith)

  waits-Hears :
      (idx : ℕ) (new : NewCon) (news : List NewCon) (r : Io (Found V (Unit {0})))
      → says new ≡ err would_block
      → Hears (idx + 1) news r
      → Hears idx (new ∷ news) (stay (asked new) r)
  unfolding stay
  waits-Hears idx new news (ok g) came rest f e =
      subst (Greeted idx (new ∷ news)) (ground (arith, e)) (waits idx new news g came (rest g refl))
  waits-Hears idx new news (err x) came rest f e = absurd (ground arith)
  waits-Hears idx new news panic came rest f e = absurd (ground arith)

  fails-Hears :
      (idx : ℕ) (new : NewCon) (news : List NewCon) (x : ErrorKind) (r : Io (Found V (Unit {0})))
      → says new ≡ err x
      → x ≢ would_block
      → Hears (idx + 1) news r
      → Hears idx (new ∷ news) (bury (asked new) idx r)
  unfolding bury stay
  fails-Hears idx new news x (ok g) came other rest f e =
      subst (Greeted idx (new ∷ news)) (ground (arith, e))
        (fails idx new news g x came other (rest g refl))
  fails-Hears idx new news x (err y) came other rest f e = absurd (ground arith)
  fails-Hears idx new news x panic came other rest f e = absurd (ground arith)

  -- An error of a connection.
  failed-Hears :
      (idx : ℕ) (new : NewCon) (news : List NewCon) (x : ErrorKind) (r : Io (Found V (Unit {0})))
      → says new ≡ err x
      → Hears (idx + 1) news r
      → Hears idx
          (new ∷ news)
          (elim x [ would_block ↦ stay (asked new) r | y ↦ bury (asked new) idx r ])
  failed-Hears idx new news would_block r came rest = waits-Hears idx new news r came rest
  failed-Hears idx new news x r came rest = fails-Hears idx new news x r came (λ e. cc) rest

  -- A pass of `handle_new_cons` with the chatroom's hook over any new connections, where it does not
  -- panic, finds who is who: a connection whose message has come is accepted with the response
  -- `Accepted` if the user's name in lower case is neither `john` nor `jane`, and rejected with the
  -- reason that the user is blacklisted if it is one of the two; a connection that would block is in
  -- none of the lists, and one with another error is among the dead. Each list has the positions of
  -- its connections in order, and all connections stay where they were.
  pub scan-Greeted :
      (idx : ℕ) (news : List NewCon) (f : Found V (Unit {0}))
      → scan false (greeter v s) deser_fn tid timeout now idx news tt ≡ ok f
      → Greeted idx news f
  unfolding scan
  scan-Greeted idx [] f e = subst (Greeted idx []) (ground (arith, e)) (nobody idx)
  scan-Greeted idx (new ∷ news) f e = elim (Outcome-cases (says new)) [
    | inl (c, q) ↦ elim (greet_cases s (v.to_connection c)) [
      | inl (listed, g) ↦
          refuses-Hears idx new news c (scanned (idx + 1) news) q listed
            (scan-Greeted (idx + 1) news) f (rw (q, g, scan) at e)
      | inr (free, g) ↦
          lets_in-Hears idx new news c (scanned (idx + 1) news) q free (scan-Greeted (idx + 1) news)
            f (rw (q, g, scan) at e)
    ]
    | inr (inl (x, q)) ↦
        failed-Hears idx new news x (scanned (idx + 1) news) q (scan-Greeted (idx + 1) news) f
          (rw (q, scan) at e)
    | inr (inr q) ↦ absurd (ground (arith, rw (q, scan) at e))
  ]
