-- ===== src/Client/Ends.antt =====
-- How a client of src/client.rs ends, and what it writes then.
use mathlib.Core.List.{append-nil}
use carrier_pigeon.Base.{
  ℕ, ◌≡◌, refl, ap, sym, ◌∙◌, List, ◌++◌, Io, ok, err, panic, arith, Bool-cases, ◌==◌, ==→eq, inl,
  inr,
}
use carrier_pigeon.Net.{MId, Any, tcp}
use carrier_pigeon.Time.{Host}
use carrier_pigeon.Table.{disconnect_type_mid}
use carrier_pigeon.Table.Parts.Codec.{encode, mid_of}
use carrier_pigeon.Table.Parts.Roundtrip.{encode_parts}
use carrier_pigeon.Tcp.Roundtrip.{send-sent}
use carrier_pigeon.Client.{Client, send, close, disconnect}
use carrier_pigeon.Client.Posts.{client_sends}
use carrier_pigeon.Tcp.Letters.{Ending, stays, leaves, drops, last_frame, tcp_close-sent}

module _ {V : Type 0} (h : Host) where
  -- The client ends so, and that leads from `c` to `z`.
  abbrev pub Ends : Client V → Ending V → Client V → Type 0
  Ends c stays z = c ≡ z
  Ends c (leaves l) z =
      (encode c.parts l.msg ≡ ok (l.mid, tcp, l.bytes)) × (disconnect h c l.msg ≡ (z, ok tt))
  Ends c drops z = c ≡ z

  close-sent :
      (r : Client V × Io (Unit {0})) (z : Client V)
      → close r ≡ (z, ok tt)
      → (r.1 ≡ ok tt) × (z.tcp.tcp.sent ≡ r.0.tcp.tcp.sent)
  unfolding close
  close-sent (d, ok _) z e = (refl, ground (arith, tcp_close-sent d.tcp))
  close-sent (d, err x) z e = absurd (ground arith)
  close-sent (d, panic) z e = absurd (ground arith)

  pub disconnect-closes :
      (c z : Client V) (msg : Any V) (mid : MId) (b : List ℕ)
      → encode c.parts msg ≡ ok (mid, tcp, b)
      → disconnect h c msg ≡ (z, ok tt)
      → (close (send h c msg) ≡ (z, ok tt)) × (mid ≡ disconnect_type_mid)
  unfolding disconnect mid_of
  disconnect-closes c z msg mid b e gone =
      let (there, _, _, _) = encode_parts c.parts msg mid tcp b e in
      elim (Bool-cases (mid == disconnect_type_mid)) [
        | inl same ↦ (ground arith, ==→eq mid disconnect_type_mid same)
        | inr other ↦ absurd (ground arith)
      ]

  pub Ends-sent :
      (c z : Client V) (e : Ending V) → Ends c e z → z.tcp.tcp.sent ≡ c.tcp.tcp.sent ++ last_frame e
  Ends-sent c z stays e =
      ap (λ (x : Client V). x.tcp.tcp.sent) (sym e) ∙ sym (append-nil c.tcp.tcp.sent)
  Ends-sent c z (leaves l) (e, gone) =
      let (closed, _) = disconnect-closes c z l.msg l.mid l.bytes e gone in
      let (sent, kept) = close-sent (send h c l.msg) z closed in
      let (out, _) =
        client_sends h c (send h c l.msg).0 l.msg l.mid l.bytes e
          (ap (λ r. ((send h c l.msg).0, r)) sent) in
      kept ∙ send-sent c.tcp (send h c l.msg).0.tcp l.mid l.bytes out
  Ends-sent c z drops e =
      ap (λ (x : Client V). x.tcp.tcp.sent) (sym e) ∙ sym (append-nil c.tcp.tcp.sent)
