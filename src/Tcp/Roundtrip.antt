-- ===== src/Tcp/Roundtrip.antt =====
-- Messages sent on one side of a stream of src/tcp.rs and received on the other.
use mathlib.Core.List.{append_assoc, append-nil}
use carrier_pigeon.Base.{
  ℕ, ◌+◌, ◌^◌, ◌≤◌, ◌<◌, ◌≡◌, refl, sym, ◌∙◌, ap, List, [], ◌∷◌, ◌++◌, none, ok, length, All, arith,
}
use carrier_pigeon.Net.{MId}
use carrier_pigeon.Tcp.Stream.{write_all}
use carrier_pigeon.Tcp.{TcpCon, frame, send, recv}
use carrier_pigeon.Tcp.Recv.{recv-frame}

abbrev pub Message : Type 0
Message = MId × List ℕ

-- The calls of `send` for `ms`, one after the other, all succeed and lead from `a` to `z`.
abbrev pub Sends : TcpCon → List Message → TcpCon → Type 0
Sends a [] z = a ≡ z
Sends a ((mid, payload) ∷ ms) z = (b : TcpCon) × (send a mid payload ≡ (b, ok tt)) × Sends b ms z

-- As many calls of `recv` give `ms` and lead from `a` to `z`.
abbrev pub Receives : TcpCon → List Message → TcpCon → Type 0
Receives a [] z = a ≡ z
Receives a (m ∷ ms) z = (b : TcpCon) × (recv a ≡ (b, ok m)) × Receives b ms z

-- Both fields of the header hold the message, and a buffer of `size` bytes does.
abbrev pub Fits : ℕ → Message → Type 0
Fits size (mid, payload) = (mid < 2 ^ 16) × (length payload < 2 ^ 16) × (length payload + 4 ≤ size)

abbrev frames : List Message → List ℕ
frames [] = []
frames ((mid, payload) ∷ ms) = frame mid payload ++ frames ms

pub send-sent :
    (a b : TcpCon) (mid : MId) (payload : List ℕ)
    → send a mid payload ≡ (b, ok tt)
    → b.tcp.sent ≡ a.tcp.sent ++ frame mid payload
unfolding send write_all
send-sent a b mid payload h = ground arith

Sends-sent :
    (a z : TcpCon) (ms : List Message) → Sends a ms z → z.tcp.sent ≡ a.tcp.sent ++ frames ms
Sends-sent a z [] e = rw (← e) (sym (append-nil a.tcp.sent))
Sends-sent a z ((mid, payload) ∷ ms) (b, e, rest) =
    Sends-sent b z ms rest
    ∙ ap (λ sent. sent ++ frames ms) (send-sent a b mid payload e)
    ∙ append_assoc a.tcp.sent (frame mid payload) (frames ms)

frames-Receives :
    (b : TcpCon) (ms : List Message) (rest : List ℕ)
    → b.tcp.fault ≡ none
    → b.tcp.inbox ≡ frames ms ++ rest
    → All (Fits (length b.buff)) ms
    → (z : TcpCon) × Receives b ms z × (z.tcp ≡ record b.tcp { inbox = rest })
frames-Receives b [] rest works come fits =
    (b, refl, ap (λ bytes. record b.tcp { inbox = bytes }) come)
frames-Receives b ((mid, payload) ∷ ms) rest works come (f, fits) =
    let first =
      recv-frame b mid payload (frames ms ++ rest) works
        (come ∙ append_assoc (frame mid payload) (frames ms) rest) f.0 f.1 f.2 in
    let next : TcpCon = record {
      buff = first.0;
      tcp = record b.tcp { inbox = frames ms ++ rest };
    } in
    let others = frames-Receives next ms rest works refl (rw first.2 fits) in
    (others.0, (next, first.1, others.1), others.2)

-- What one side sends with success from a fresh stream the other side receives, where its stream
-- works, its buffer is large enough and both header fields hold each message: the same messages in
-- the same order, and nothing is left over.
pub stream_round_trip :
    (a z b : TcpCon) (ms : List Message)
    → Sends a ms z
    → a.tcp.sent ≡ []
    → b.tcp.inbox ≡ z.tcp.sent
    → b.tcp.fault ≡ none
    → All (Fits (length b.buff)) ms
    → (y : TcpCon) × Receives b ms y × (y.tcp ≡ record b.tcp { inbox = [] })
stream_round_trip a z b ms sends fresh wire works fits =
    frames-Receives b ms [] works
      (wire ∙ Sends-sent a z ms sends ∙ rw fresh (sym (append-nil (frames ms)))) fits
