-- ===== src/Prelude/Bytes.antt =====
-- Bytes, the little-endian layout of `encoding/binary`, and `copy` into a slice.
use Prim.Native.Nat.{ℕ, zero, suc, ◌+◌, ◌*◌, ◌/◌, ◌%◌, ◌^◌, ◌<◌}
use mathlib.Core.Path.{◌≡◌, refl, ap}
use mathlib.Core.List.{List, [], ◌∷◌, ◌++◌}
use native.Mathlib.Omega.{arith}
use native.Mathlib.Nat.{pow-suc}
use stratumserver.Prelude.Lists.{length}

abbrev pub IsByte : ℕ → Type 0
IsByte b = b < 256

abbrev pub All {ℓ κ} : {A : Type ℓ} → (A → Type κ) → List A → Type κ
All P [] = Unit
All P (x ∷ xs) = P x × All P xs

pub All-append {ℓ κ} :
    {A : Type ℓ} (P : A → Type κ) (xs ys : List A) → All P xs → All P ys → All P (xs ++ ys)
All-append P [] ys hx hy = hy
All-append P (x ∷ xs) ys hx hy = (hx.0, All-append P xs ys hx.1 hy)

-- The `k` low bytes of `n`, lowest first: what `PutUint16`, `PutUint32`, `PutUint64` store.
unfoldable pub le_bytes : ℕ → ℕ → List ℕ
le_bytes zero n = []
le_bytes (suc k) n = (n % 256) ∷ le_bytes k (n / 256)

-- The number that little-endian bytes stand for: what `Uint16`, `Uint32`, `Uint64` load.
unfoldable pub of_le_bytes : List ℕ → ℕ
of_le_bytes [] = 0
of_le_bytes (b ∷ bs) = b + 256 * of_le_bytes bs

pub length-le_bytes : (k n : ℕ) → length (le_bytes k n) ≡ k
unfolding le_bytes
length-le_bytes zero n = refl
length-le_bytes (suc k) n = ap suc (length-le_bytes k (n / 256))

pub le_bytes-IsByte : (k n : ℕ) → All IsByte (le_bytes k n)
unfolding le_bytes
le_bytes-IsByte zero n = tt
le_bytes-IsByte (suc k) n = (omega arith, le_bytes-IsByte k (n / 256))

pub of_le_bytes-le_bytes : (k n : ℕ) → n < 256 ^ k → of_le_bytes (le_bytes k n) ≡ n
unfolding le_bytes of_le_bytes
of_le_bytes-le_bytes zero n h = omega arith
of_le_bytes-le_bytes (suc k) n h =
    omega (arith, of_le_bytes-le_bytes k (n / 256) (omega (arith, pow-suc 256 k)))

pub of_le_bytes-append :
    (xs ys : List ℕ) → of_le_bytes (xs ++ ys) ≡ of_le_bytes xs + 256 ^ length xs * of_le_bytes ys
unfolding of_le_bytes
of_le_bytes-append [] ys = omega arith
of_le_bytes-append (x ∷ xs) ys =
    omega (
      arith,
      of_le_bytes-append xs ys,
      ap (λ (t : ℕ). t * of_le_bytes ys) (pow-suc 256 (length xs)),
    )

module _ {ℓ} {A : Type ℓ} where
  -- Go's `copy(dst, src)`.
  unfoldable pub overwrite : List A → List A → List A
  overwrite [] src = []
  overwrite (d ∷ ds) [] = d ∷ ds
  overwrite (d ∷ ds) (s ∷ ss) = s ∷ overwrite ds ss

  -- Go's `copy(dst[n:], src)`.
  unfoldable pub write_at : ℕ → List A → List A → List A
  unfolding overwrite
  write_at zero dst src = overwrite dst src
  write_at (suc n) [] src = []
  write_at (suc n) (d ∷ ds) src = d ∷ write_at n ds src

  pub overwrite_full : (dst src : List A) → length dst ≡ length src → overwrite dst src ≡ src
  unfolding overwrite
  overwrite_full [] [] h = refl
  overwrite_full [] (s ∷ ss) h = absurd (omega arith)
  overwrite_full (d ∷ ds) [] h = absurd (omega arith)
  overwrite_full (d ∷ ds) (s ∷ ss) h = ap (λ t. s ∷ t) (overwrite_full ds ss (omega arith))

  -- A write that fills the slice behind a kept front.
  pub write_at_full :
      (pre dst src : List A)
      → length dst ≡ length src
      → write_at (length pre) (pre ++ dst) src ≡ pre ++ src
  unfolding write_at
  write_at_full [] dst src h = overwrite_full dst src h
  write_at_full (p ∷ pre) dst src h = ap (λ t. p ∷ t) (write_at_full pre dst src h)
