-- ===== src/Prelude/Octets.antt =====
-- What keeps every element of a list a byte.
use stratumserver.Prelude.Bytes.{All, IsByte, All-append, overwrite, write_at}
use Prim.Native.Nat.{ℕ, zero, suc}
use mathlib.Core.List.{List, [], ◌∷◌, reverse, reverse-cons}
use mathlib.Core.Path.{sym, subst}
use native.Mathlib.Omega.{arith}
use stratumserver.Prelude.Lists.{take, set, replicate, drop}

pub All-take : (n : ℕ) (xs : List ℕ) → All IsByte xs → All IsByte (take n xs)
All-take zero xs h = tt
All-take (suc n) [] h = tt
All-take (suc n) (x ∷ xs) (b, h) = (b, All-take n xs h)

pub All-drop : (n : ℕ) (xs : List ℕ) → All IsByte xs → All IsByte (drop n xs)
All-drop zero xs h = h
All-drop (suc n) [] h = tt
All-drop (suc n) (x ∷ xs) (b, h) = All-drop n xs h

pub All-set : (xs : List ℕ) (i v : ℕ) → IsByte v → All IsByte xs → All IsByte (set xs i v)
All-set [] i v k h = tt
All-set (x ∷ xs) zero v k (b, h) = (k, h)
All-set (x ∷ xs) (suc i) v k (b, h) = (b, All-set xs i v k h)

pub All-overwrite :
    (dst src : List ℕ) → All IsByte dst → All IsByte src → All IsByte (overwrite dst src)
unfolding overwrite
All-overwrite [] src h k = tt
All-overwrite (d ∷ ds) [] h k = h
All-overwrite (d ∷ ds) (s ∷ ss) (a, h) (b, k) = (b, All-overwrite ds ss h k)

pub All-write_at :
    (n : ℕ) (dst src : List ℕ) → All IsByte dst → All IsByte src → All IsByte (write_at n dst src)
unfolding write_at
All-write_at zero dst src h k = All-overwrite dst src h k
All-write_at (suc n) [] src h k = tt
All-write_at (suc n) (d ∷ ds) src (a, h) k = (a, All-write_at n ds src h k)

pub All-reverse : (xs : List ℕ) → All IsByte xs → All IsByte (reverse xs)
All-reverse [] h = tt
All-reverse (x ∷ xs) (a, h) =
    subst (All IsByte) (sym (reverse-cons x xs))
      (All-append IsByte (reverse xs) (x ∷ []) (All-reverse xs h) (a, tt))

pub All-zeros : (n : ℕ) → All IsByte (replicate n 0)
All-zeros zero = tt
All-zeros (suc n) = (omega arith, All-zeros n)
