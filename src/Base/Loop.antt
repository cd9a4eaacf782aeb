-- ===== src/Base/Loop.antt =====
-- `loop { … }`: the body goes on, breaks or panics.
use Prim.Native.Nat.{ℕ, zero, suc, ◌+◌, ◌<◌}
use mathlib.Core.Path.{◌≡◌, refl}
use mathlib.Core.Logic.{◌⊎◌, inl, inr}
use mathlib.Core.Option.{Option, none, some}
use native.Mathlib.Omega.{arith}
use carrier_pigeon.Base.Results.{Io, ok, panic}

pub data Flow {ℓ} (S : Type ℓ) : Type ℓ where
  next : S → Flow S
  done : S → Flow S
  fail : Flow S

-- `none` means that the fuel ran out.
unfoldable pub loop {ℓ} : {S : Type ℓ} → ℕ → (S → Flow S) → S → Option (Io S)
loop zero body s = none
loop (suc fuel) body s = elim (body s) [
  | next s' ↦ loop fuel body s'
  | done s' ↦ some (ok s')
  | fail ↦ some panic
]

pub Flow-cases {ℓ} :
    {S : Type ℓ} (f : Flow S) → ((s : S) × (f ≡ next s)) ⊎ ((s : S) × (f ≡ done s)) ⊎ (f ≡ fail)
Flow-cases (next s) = inl (s, refl)
Flow-cases (done s) = inr (inl (s, refl))
Flow-cases fail = inr (inr refl)

-- With a measure that falls at each round, fuel above it is enough.
pub loop_total {ℓ} :
    {S : Type ℓ} (measure : S → ℕ) (body : S → Flow S)
    → ((s s' : S) → body s ≡ next s' → measure s' < measure s)
    → (fuel : ℕ) (s : S) → measure s < fuel
    → (r : Io S) × (loop fuel body s ≡ some r)
unfolding loop
loop_total measure body falls zero s enough = absurd (omega arith)
loop_total measure body falls (suc fuel) s enough = elim (Flow-cases (body s)) [
  | inl (s', e) ↦ rw (e, loop) (loop_total measure body falls fuel s' (omega (arith, falls s s' e)))
  | inr (inl (s', e)) ↦ (ok s', rw (e, loop))
  | inr (inr e) ↦ (panic, rw (e, loop))
]

-- What every round keeps holds at the end.
pub loop_inv {ℓ κ} :
    {S : Type ℓ} (P : S → Type κ) (body : S → Flow S)
    → ((s s' : S) → P s → body s ≡ next s' → P s')
    → ((s s' : S) → P s → body s ≡ done s' → P s')
    → (fuel : ℕ) (s z : S) → loop fuel body s ≡ some (ok z)
    → P s
    → P z
unfolding loop
loop_inv P body keep last zero s z e p = absurd (ground arith)
loop_inv P body keep last (suc fuel) s z e p = elim (Flow-cases (body s)) [
  | inl (s', q) ↦ loop_inv P body keep last fuel s' z (rw (q, loop) at e) (keep s s' p q)
  | inr (inl (s', q)) ↦ last s z p (ground arith)
  | inr (inr q) ↦ absurd (ground arith)
]

-- A body that breaks at once.
pub loop-done {ℓ} :
    {S : Type ℓ} (n : ℕ) (body : S → Flow S) (s z : S)
    → body s ≡ done z
    → loop (n + 1) body s ≡ some (ok z)
unfolding loop
loop-done n body s z e = let fuel : n + 1 ≡ suc n = omega arith in rw (fuel, loop, e) refl
