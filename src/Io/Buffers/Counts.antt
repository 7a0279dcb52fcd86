-- ===== src/Io/Buffers/Counts.antt =====
-- How often a number is in a list, and which pointer an element is after a write.
use stratumserver.Prelude.{
  ℕ, zero, suc, ◌+◌, ◌≤◌, ◌≡◌, refl, List, [], ◌∷◌, ◌++◌, Option, none, some, length, get_elem?,
  set, arith, if◌then◌else◌, ◌==◌, ==_iff,
}
use stratumserver.Io.Buffers.{remove_at, pointer}

abbrev pub one : ℕ → Option ℕ → ℕ
one x none = 0
one x (some y) = if x == y then 1 else 0

abbrev pub count : ℕ → List ℕ → ℕ
count x [] = 0
count x (y ∷ ys) = one x (some y) + count x ys

abbrev pub held : ℕ → List (Option ℕ) → ℕ
held x [] = 0
held x (o ∷ os) = one x o + held x os

pub count-remove_at :
    (x y i : ℕ) (xs : List ℕ)
    → get_elem? xs i ≡ some y
    → count x (remove_at xs i) + one x (some y) ≡ count x xs
count-remove_at x y i [] e = cc
count-remove_at x y zero (z ∷ zs) e = ground arith
count-remove_at x y (suc i) (z ∷ zs) e = ground (arith, count-remove_at x y i zs)

pub held-set :
    (x c : ℕ) (o : Option ℕ) (os : List (Option ℕ))
    → held x (set os c none) + one x (pointer os c) ≡ held x os
held-set x c o [] = omega arith
held-set x zero o (p ∷ os) = omega arith
held-set x (suc c) o (p ∷ os) = omega (arith, held-set x c o os)

pub held-append :
    (x : ℕ) (o : Option ℕ) (os : List (Option ℕ)) → held x (os ++ o ∷ []) ≡ held x os + one x o
held-append x o [] = omega arith
held-append x o (p ∷ os) = omega (arith, held-append x o os)

pub held-pointer : (x c : ℕ) (os : List (Option ℕ)) → pointer os c ≡ some x → 1 ≤ held x os
held-pointer x c [] e = cc
held-pointer x zero (p ∷ os) e = ground (arith, ==_iff x x)
held-pointer x (suc c) (p ∷ os) e = ground (arith, held-pointer x c os)

pub pointer-set :
    (c d : ℕ) (os : List (Option ℕ))
    → pointer (set os c none) d ≡ (if d == c then none else pointer os d)
pointer-set c d [] = ground arith
pointer-set zero zero (p ∷ os) = refl
pointer-set zero (suc d) (p ∷ os) = ground arith
pointer-set (suc c) zero (p ∷ os) = ground arith
pointer-set (suc c) (suc d) (p ∷ os) = ground (arith, pointer-set c d os)

pub pointer-append :
    (d x : ℕ) (os : List (Option ℕ))
    → pointer (os ++ some x ∷ []) d ≡ (if d == length os then some x else pointer os d)
pointer-append zero x [] = refl
pointer-append (suc d) x [] = ground arith
pointer-append zero x (p ∷ os) = ground arith
pointer-append (suc d) x (p ∷ os) = ground (arith, pointer-append d x os)
