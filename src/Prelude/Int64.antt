-- ===== src/Prelude/Int64.antt =====
-- Go's int64: a signed integer with two's complement wrap-around.
use Prim.Native.Nat.{ℕ, ◌+◌, ◌-◌, ◌/◌, ◌%◌, ◌^◌, ◌≤◌, ◌<◌}
use mathlib.Core.Path.{◌≡◌}
use mathlib.Core.Bool.{Bool}
use mathlib.Core.Option.{Option, none, some}
use native.Mathlib.Omega.{arith}
use stratumserver.Prelude.Tests.{ltb, ◌==◌, if◌then◌else◌}
use stratumserver.Prelude.Int.{ℤ, pos, negsuc, pos_part, neg_part, ◌+ℤ◌, ◌-ℤ◌, ◌*ℤ◌, ltb_ℤ}

abbrev pub IsInt64 : ℤ → Type 0
IsInt64 z = (pos_part z < 2 ^ 63) × (neg_part z ≤ 2 ^ 63)

-- The 64 bits of `z`.
abbrev pub bits64 : ℤ → ℕ
bits64 (pos n) = n % 2 ^ 64
bits64 (negsuc n) = 2 ^ 64 - 1 - n % 2 ^ 64

-- The number that 64 bits stand for.
abbrev pub signed64 : ℕ → ℤ
signed64 w = if ltb w (2 ^ 63) then pos w else negsuc (2 ^ 64 - 1 - w)

unfoldable pub wrap64 : ℤ → ℤ
wrap64 z = signed64 (bits64 z)

pub wrap64_id : (z : ℤ) → IsInt64 z → wrap64 z ≡ z
unfolding wrap64
wrap64_id z h = ground arith

pub wrap64-IsInt64 : (z : ℤ) → IsInt64 (wrap64 z)
unfolding wrap64
wrap64-IsInt64 z = ground arith

abbrev pub add64 : ℤ → ℤ → ℤ
add64 a b = wrap64 (a +ℤ b)

abbrev pub sub64 : ℤ → ℤ → ℤ
sub64 a b = wrap64 (a -ℤ b)

abbrev pub mul64 : ℤ → ℤ → ℤ
mul64 a b = wrap64 (a *ℤ b)

-- `a / b` on the magnitudes; the quotient of Go is truncated towards zero.
abbrev signed : Bool → ℕ → ℤ
signed neg n = if neg then pos 0 -ℤ pos n else pos n

abbrev pub is_neg : ℤ → Bool
is_neg z = ltb_ℤ z (pos 0)

-- Division by zero panics.
unfoldable pub quot64 : ℤ → ℤ → Option ℤ
unfolding ◌-ℤ◌
quot64 a b =
    let q = (pos_part a + neg_part a) / (pos_part b + neg_part b) in
    if pos_part b + neg_part b == 0
    then none
    else some (
        wrap64 (
          if is_neg a
          then (if is_neg b then pos q else pos 0 -ℤ pos q)
          else (if is_neg b then pos 0 -ℤ pos q else pos q)))

-- The remainder has the sign of the dividend.
unfoldable pub rem64 : ℤ → ℤ → Option ℤ
unfolding ◌-ℤ◌
rem64 a b =
    let r = (pos_part a + neg_part a) % (pos_part b + neg_part b) in
    if pos_part b + neg_part b == 0 then none else some (if is_neg a then pos 0 -ℤ pos r else pos r)

pub rem64_pos : (a b : ℕ) → 0 < b → rem64 (pos a) (pos b) ≡ some (pos (a % b))
unfolding rem64
rem64_pos a b h = ground arith
