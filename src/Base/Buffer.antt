-- ===== src/Base/Buffer.antt =====
-- Byte buffers: `vec![0; n]`, indexed writes in a loop, and a prefix that is written over.
use mathlib.Core.Path.{◌≡◌, refl, ◌∙◌, ap}
use mathlib.Core.List.{List, [], ◌∷◌, ◌++◌, append-nil, append_assoc}
use Prim.Native.Nat.{ℕ, zero, suc, ◌+◌, ◌≤◌}
use native.Mathlib.Omega.{arith}
use carrier_pigeon.Base.Lists.{length, length-append, drop}

module _ {ℓ} {A : Type ℓ} where
  abbrev pub replicate : ℕ → A → List A
  replicate zero a = []
  replicate (suc n) a = a ∷ replicate n a

  -- A write out of bounds, which would panic, changes nothing here; `write_at-append` covers every
  -- use in the program and is in bounds.
  abbrev pub set : List A → ℕ → A → List A
  set [] i v = []
  set (x ∷ xs) zero v = v ∷ xs
  set (x ∷ xs) (suc i) v = x ∷ set xs i v

  -- `for (i, b) in bytes.enumerate() { buff[i + offset] = b }`.
  abbrev pub write_at : List A → ℕ → List A → List A
  write_at buff offset [] = buff
  write_at buff offset (b ∷ bytes) = write_at (set buff offset b) (offset + 1) bytes

  -- What a read of `bytes` leaves in a buffer.
  abbrev pub overwrite : List A → List A → List A
  overwrite bytes buff = bytes ++ drop (length bytes) buff

module _ {ℓ} {A : Type ℓ} where
  pub length-replicate : (n : ℕ) (a : A) → length (replicate n a) ≡ n
  length-replicate zero a = refl
  length-replicate (suc n) a = ap suc (length-replicate n a)

  pub length-drop : (n : ℕ) (xs : List A) → n ≤ length xs → length (drop n xs) + n ≡ length xs
  length-drop zero xs h = omega arith
  length-drop (suc n) [] h = absurd (omega arith)
  length-drop (suc n) (x ∷ xs) h = omega (arith, length-drop n xs (omega arith))

  pub length-overwrite :
      (bytes buff : List A)
      → length bytes ≤ length buff
      → length (overwrite bytes buff) ≡ length buff
  length-overwrite bytes buff h =
      omega
        (arith, length-append bytes (drop (length bytes) buff), length-drop (length bytes) buff h)

  set-append :
      (xs : List A) (y : A) (ys : List A) (v : A) → set (xs ++ y ∷ ys) (length xs) v ≡ xs ++ v ∷ ys
  set-append [] y ys v = refl
  set-append (x ∷ xs) y ys v = ap (◌∷◌ x) (set-append xs y ys v)

  -- A loop of writes behind a prefix replaces as many elements.
  pub write_at-append :
      (xs ys bytes : List A)
      → length bytes ≤ length ys
      → write_at (xs ++ ys) (length xs) bytes ≡ xs ++ (bytes ++ drop (length bytes) ys)
  write_at-append xs ys [] h = refl
  write_at-append xs [] (b ∷ bytes) h = absurd (omega arith)
  write_at-append xs (y ∷ ys) (b ∷ bytes) h = rw (set-append xs y ys b) (
      rw (append_assoc xs (b ∷ []) ys, append_assoc xs (b ∷ []), length-append xs (b ∷ [])) at
        (write_at-append (xs ++ b ∷ []) ys bytes (omega arith)))

  drop-all : (n : ℕ) (xs : List A) → length xs ≤ n → drop n xs ≡ []
  drop-all zero [] h = refl
  drop-all zero (x ∷ xs) h = absurd (omega arith)
  drop-all (suc n) [] h = refl
  drop-all (suc n) (x ∷ xs) h = drop-all n xs (omega arith)

  abbrev zeroed : A → List A → List A → List A
  zeroed z header payload = replicate (length payload + length header) z

  body-length :
      (z : A) (header payload : List A)
      → length (drop (length header) (zeroed z header payload)) ≡ length payload
  body-length z header payload = omega (
    arith,
    length-replicate (length payload + length header) z,
    length-drop (length header) (zeroed z header payload)
        (omega (arith, length-replicate (length payload + length header) z)),
  )

  -- A header and a payload that are written into a zeroed buffer of their size are one after the
  -- other.
  pub write_at-frame :
      (z : A) (header payload : List A)
      → write_at
          (write_at (replicate (length payload + length header) z) 0 header)
          (length header)
          payload
        ≡ header ++ payload
  write_at-frame z header payload =
      let zeros = zeroed z header payload in
      let body = drop (length header) zeros in
      ap (λ buff. write_at buff (length header) payload)
        (write_at-append [] zeros header
          (omega (arith, length-replicate (length payload + length header) z)))
      ∙ write_at-append header body payload (omega (arith, body-length z header payload))
      ∙ ap (λ tail. header ++ (payload ++ tail))
          (drop-all (length payload) body (omega (arith, body-length z header payload)))
      ∙ ap (◌++◌ header) (append-nil payload)
