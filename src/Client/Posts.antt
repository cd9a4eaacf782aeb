-- ===== src/Client/Posts.antt =====
-- What a client of src/client.rs writes for the messages that it sends over TCP.
use mathlib.Core.List.{append_assoc, append-nil}
use carrier_pigeon.Base.{ℕ, ◌≡◌, ap, sym, ◌∙◌, List, [], ◌∷◌, ◌++◌, ok, arith, All}
use carrier_pigeon.Net.{MId, Any, tcp}
use carrier_pigeon.Time.{Host}
use carrier_pigeon.Table.{Bincode, RoundTrips, Entry}
use carrier_pigeon.Table.Parts.{MsgTableParts}
use carrier_pigeon.Table.Parts.Index.{IsIndexOf}
use carrier_pigeon.Table.Parts.Codec.{encode, decode}
use carrier_pigeon.Table.Parts.Roundtrip.{Coded, decode-encode}
use carrier_pigeon.Tcp
use carrier_pigeon.Tcp.{TcpCon, frame}
use carrier_pigeon.Tcp.Roundtrip.{send-sent}
use carrier_pigeon.Client.{Client, send, send_tcp}
use carrier_pigeon.Tcp.Letters.{Letter, letter_frames}

module _ {V : Type 0} where
  -- A TCP `send` that succeeds is that of the connection.
  pub client_sends :
      (h : Host) (self z : Client V) (msg : Any V) (mid : MId) (b : List ℕ)
      → encode self.parts msg ≡ ok (mid, tcp, b)
      → send h self msg ≡ (z, ok tt)
      → (Tcp.send self.tcp mid b ≡ (z.tcp, ok tt)) × (z ≡ record self { tcp = z.tcp })
  unfolding send send_tcp
  client_sends h self z msg mid b e sent = (ground (arith, e), ground (arith, e))

  module _ (h : Host) where
    -- The calls of `send` for the letters, one after the other, all succeed and lead from `c` to `z`.
    abbrev pub Posts : Client V → List (Letter V) → Client V → Type 0
    Posts c [] z = c ≡ z
    Posts c (l ∷ ls) z =
        (d : Client V) × (encode c.parts l.msg ≡ ok (l.mid, tcp, l.bytes))
        × (send h c l.msg ≡ (d, ok tt))
        × Posts d ls z

    pub Posts-sent :
        (c z : Client V) (ls : List (Letter V))
        → Posts c ls z
        → z.tcp.tcp.sent ≡ c.tcp.tcp.sent ++ letter_frames ls
    Posts-sent c z [] e = rw (← e) (sym (append-nil c.tcp.tcp.sent))
    Posts-sent c z (l ∷ ls) (d, e, sent, rest) =
        let (out, _) = client_sends h c d l.msg l.mid l.bytes e sent in
        Posts-sent d z ls rest
        ∙ ap (λ s. s ++ letter_frames ls) (send-sent c.tcp d.tcp l.mid l.bytes out)
        ∙ append_assoc c.tcp.tcp.sent (frame l.mid l.bytes) (letter_frames ls)

    -- Each letter is decoded as its message, if the codec reads back what it writes.
    pub Posts-decode :
        (bin : Bincode V) (es : List (Entry V)) (p : MsgTableParts V) (c z : Client V)
        (ls : List (Letter V))
        → RoundTrips bin
        → IsIndexOf p es
        → Coded bin es
        → c.parts ≡ p
        → Posts c ls z
        → All (λ l. decode p l.mid l.bytes ≡ ok l.msg) ls
    Posts-decode bin es p c z [] codec i coded same e = tt
    Posts-decode bin es p c z (l ∷ ls) codec i coded same (d, e, sent, rest) =
        let (_, kept) = client_sends h c d l.msg l.mid l.bytes e sent in
        (
          decode-encode bin p es l.msg l.mid tcp l.bytes codec i coded
              (ap (λ q. encode q l.msg) (sym same) ∙ e),
          Posts-decode bin es p d z ls codec i coded (ap (λ (x : Client V). x.parts) kept ∙ same)
              rest,
        )

    pub Posts-parts : (c z : Client V) (ls : List (Letter V)) → Posts c ls z → z.parts ≡ c.parts
    Posts-parts c z [] e = ap (λ (x : Client V). x.parts) (sym e)
    Posts-parts c z (l ∷ ls) (d, e, sent, rest) =
        let (_, kept) = client_sends h c d l.msg l.mid l.bytes e sent in
        Posts-parts d z ls rest ∙ ap (λ (x : Client V). x.parts) kept
