-- ===== src/Server/Send/Laws.antt =====
-- To whom a server of src/server.rs sends.
use mathlib.Core.Option as Option
use carrier_pigeon.Base.{
  ℕ, List, [], ◌∷◌, ◌≡◌, refl, ap, ◌∙◌, Bool, true, false, ◌&&◌, ok, err, panic, Io, ◌==◌,
  if◌then◌else◌, arith, any, filter_by, Distinct, Lacks, Bool-cases, Option-cases, inl, inr, ==→eq,
}
use carrier_pigeon.Base.HashMap
use carrier_pigeon.Base.HashMap.{HashMap, get-insert}
use carrier_pigeon.Net.{CId, MId, Any, tcp}
use carrier_pigeon.Net.CIdSpec.{CIdSpec, matches}
use carrier_pigeon.Time.{Host}
use carrier_pigeon.Table.Parts.Codec.{encode}
use carrier_pigeon.Tcp
use carrier_pigeon.Tcp.{TcpCon}
use carrier_pigeon.Server.{Server, cids}
use carrier_pigeon.Server.Send.{send_tcp, send_to, send_each, go_on, broadcast, send_spec}

-- The connections after a message of bytes `b` was written to those that `to` picks.
abbrev pub Wrote : (CId → Bool) → MId → List ℕ → HashMap TcpCon → HashMap TcpCon → Type 0
Wrote to mid b before after =
    (c : CId)
    → HashMap.get after c ≡ (
        if to c
        then Option.map (λ con. (Tcp.send con mid b).0) (HashMap.get before c)
        else HashMap.get before c)

-- Whether a list of connections has `c`.
abbrev pub listed : List CId → CId → Bool
listed cids c = any (λ d. d == c) cids

same_key : (m : HashMap TcpCon) (c d : CId) → (c == d) ≡ true → HashMap.get m c ≡ HashMap.get m d
same_key m c d e = ap (HashMap.get m) (==→eq c d e)

unlisted :
    (cids : List CId) (c d : CId) → Lacks (λ c. c) c cids → (c == d) ≡ true → listed cids d ≡ false
unlisted [] c d l e = refl
unlisted (x ∷ cids) c d (l, ls) e = ground (arith, unlisted cids c d ls e)

filter_by-Lacks :
    (p : CId → Bool) (k : CId) (cids : List CId)
    → Lacks (λ c. c) k cids
    → Lacks (λ c. c) k (filter_by p cids)
filter_by-Lacks p k [] l = tt
filter_by-Lacks p k (c ∷ cids) (l, ls) = elim (Bool-cases (p c)) [
  | inl picked ↦ rw picked (l, filter_by-Lacks p k cids ls)
  | inr left ↦ rw left (filter_by-Lacks p k cids ls)
]

filter_by-Distinct :
    (p : CId → Bool) (cids : List CId)
    → Distinct (λ c. c) cids
    → Distinct (λ c. c) (filter_by p cids)
filter_by-Distinct p [] d = tt
filter_by-Distinct p (c ∷ cids) (l, d) = elim (Bool-cases (p c)) [
  | inl picked ↦ rw picked (filter_by-Lacks p c cids l, filter_by-Distinct p cids d)
  | inr left ↦ rw left (filter_by-Distinct p cids d)
]

same_test : (p : CId → Bool) (c d : CId) → (c == d) ≡ true → p c ≡ p d
same_test p c d e = ap p (==→eq c d e)

listed-filter_by :
    (p : CId → Bool) (cids : List CId) (c : CId)
    → listed (filter_by p cids) c ≡ (listed cids c && p c)
listed-filter_by p [] c = refl
listed-filter_by p (d ∷ cids) c = ground (arith, same_test p d c, listed-filter_by p cids c)

module _ {V : Type 0} where
  send_tcp-Wrote :
      (self : Server V) (cid : CId) (mid : MId) (b : List ℕ)
      → Wrote (λ c. cid == c) mid b self.tcp (send_tcp self cid mid b).0.tcp
        × ((send_tcp self cid mid b).0.parts ≡ self.parts)
  unfolding send_tcp
  send_tcp-Wrote self cid mid b = elim (Option-cases (HashMap.get self.tcp cid)) [
    | inl gone ↦ (
      λ c. rw (gone, send_tcp) (ground (arith, same_key self.tcp cid c, gone)),
      rw (gone, send_tcp),
    )
    | inr (con, held) ↦ (
      λ c.
          rw (held, send_tcp)
            (ground (
              arith,
              held,
              same_key self.tcp cid c,
              get-insert self.tcp cid (Tcp.send con mid b).0 c,
            )),
      rw (held, send_tcp),
    )
  ]

  go_on_ok :
      (r : Server V × Io (Unit {0})) (rest : Server V → Server V × Io (Unit {0}))
      → (go_on r rest).1 ≡ ok tt
      → (r.1 ≡ ok tt) × (go_on r rest ≡ rest r.0)
  unfolding go_on
  go_on_ok (self, ok _) rest good = (refl, refl)
  go_on_ok (self, err e) rest good = cc
  go_on_ok (self, panic) rest good = cc

  send_to-Wrote :
      (h : Host) (self : Server V) (cid : CId) (msg : Any V) (mid : MId) (b : List ℕ)
      → encode self.parts msg ≡ ok (mid, tcp, b)
      → Wrote (λ c. cid == c) mid b self.tcp (send_to h self cid msg).0.tcp
        × ((send_to h self cid msg).0.parts ≡ self.parts)
  unfolding send_to
  send_to-Wrote h self cid msg mid b e = rw (e, send_to) (send_tcp-Wrote self cid mid b)

  -- A loop that ends well wrote the message once to each connection of the list.
  send_each-Wrote :
      (h : Host) (self : Server V) (cids : List CId) (msg : Any V) (mid : MId) (b : List ℕ)
      → encode self.parts msg ≡ ok (mid, tcp, b)
      → Distinct (λ c. c) cids
      → (send_each h self cids msg).1 ≡ ok tt
      → Wrote (listed cids) mid b self.tcp (send_each h self cids msg).0.tcp
  unfolding send_each
  send_each-Wrote h self [] msg mid b e d good = λ c. refl
  send_each-Wrote h self (cid ∷ cids) msg mid b e d good =
      let sent = send_to h self cid msg in
      let (wrote, same) = send_to-Wrote h self cid msg mid b e in
      let (_, onward) = go_on_ok sent (λ self'. send_each h self' cids msg) good in
      let rest =
        send_each-Wrote h sent.0 cids msg mid b (rw same e) d.1 (rw (send_each, onward) at good) in
      λ c. rw (send_each, onward) (ground (arith, wrote c, rest c, unlisted cids cid c d.0))

  -- A `broadcast` of a TCP message that ends well, where the walk lists no connection twice, wrote
  -- it once to each listed connection, and to no other.
  broadcast-Wrote :
      (h : Host) (order : List CId → List CId) (self : Server V) (msg : Any V) (mid : MId)
      (b : List ℕ)
      → encode self.parts msg ≡ ok (mid, tcp, b)
      → Distinct (λ c. c) (cids order self)
      → (broadcast h order self msg).1 ≡ ok tt
      → Wrote (listed (cids order self)) mid b self.tcp (broadcast h order self msg).0.tcp
  unfolding broadcast
  broadcast-Wrote h order self msg mid b = send_each-Wrote h self (cids order self) msg mid b

  -- A `send_spec` of a TCP message that ends well, where the walk lists no connection twice, wrote
  -- it once to each listed connection that matches, and to no other.
  pub send_spec-Wrote :
      (h : Host) (order : List CId → List CId) (self : Server V) (spec : CIdSpec) (msg : Any V)
      (mid : MId) (b : List ℕ)
      → encode self.parts msg ≡ ok (mid, tcp, b)
      → Distinct (λ c. c) (cids order self)
      → (send_spec h order self spec msg).1 ≡ ok tt
      → Wrote
          (λ c. listed (cids order self) c && matches spec c)
          mid
          b
          self.tcp
          (send_spec h order self spec msg).0.tcp
  unfolding send_spec
  send_spec-Wrote h order self spec msg mid b e d good c =
      send_each-Wrote h self (filter_by (matches spec) (cids order self)) msg mid b e
        (filter_by-Distinct (matches spec) (cids order self) d) good c
      ∙ rw (listed-filter_by (matches spec) (cids order self) c)
