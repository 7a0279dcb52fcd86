-- ===== src/Prelude/Decimal.antt =====
-- The decimal numbers that fmt writes, and a reader of a text that ends with one.
use stratumserver.Prelude.{
  ◌>>=◌, ℕ, zero, suc, ◌+◌, ◌-◌, ◌*◌, ◌/◌, ◌%◌, ◌≤◌, ◌<◌, ◌≡◌, refl, false, ◌⊎◌, List, [], ◌∷◌,
  ◌++◌, All, All-append, Option, none, some, arith, ◌==◌, ==_iff, Bool-cases, inl, inr, ltb, ltb→lt,
  if◌then◌else◌,
}

-- The digits of a number from the highest on, on fuel; one more than the number is enough.
unfoldable pub digits : ℕ → ℕ → List ℕ
digits zero n = []
digits (suc fuel) n =
    let rest = digits fuel (n / 10) in
    if ltb n 10 then (48 + n) ∷ [] else rest ++ (48 + n % 10) ∷ []

unfoldable pub decimal : ℕ → List ℕ
unfolding digits
decimal n = digits (suc n) n

IsDigit : ℕ → Type 0
IsDigit c = (48 ≤ c) × (c ≤ 57)

digits-IsDigit : (fuel n : ℕ) → All IsDigit (digits fuel n)
unfolding digits IsDigit
digits-IsDigit zero n = tt
digits-IsDigit (suc fuel) n = elim (Bool-cases (ltb n 10)) [
  | inl low ↦ rw low ((omega arith, omega (arith, ltb→lt n 10 low)), tt)
  | inr high ↦
      rw high
        (All-append IsDigit _ _ (digits-IsDigit fuel (n / 10)) ((omega arith, omega arith), tt))
]

-- The number that the digits stand for, with `n` for those before.
read_digits : ℕ → List ℕ → ℕ
read_digits n [] = n
read_digits n (c ∷ cs) = read_digits (n * 10 + (c - 48)) cs

read_digits-append :
    (xs ys : List ℕ) (n : ℕ) → read_digits n (xs ++ ys) ≡ read_digits (read_digits n xs) ys
unfolding read_digits
read_digits-append [] ys n = refl
read_digits-append (x ∷ xs) ys n = read_digits-append xs ys (n * 10 + (x - 48))

tenth : (fuel n : ℕ) → ltb n 10 ≡ false → n < suc fuel → n / 10 < fuel
tenth fuel n high h = ground arith

read_digits-digits : (fuel n : ℕ) → n < fuel → read_digits 0 (digits fuel n) ≡ n
unfolding digits read_digits
read_digits-digits zero n h = absurd (omega arith)
read_digits-digits (suc fuel) n h = elim (Bool-cases (ltb n 10)) [
  | inl low ↦ rw low (omega arith)
  | inr high ↦
      rw
        (
          high,
          read_digits-append (digits fuel (n / 10)) ((48 + n % 10) ∷ []) 0,
          read_digits-digits fuel (n / 10) (tenth fuel n high h),
        )
        (omega arith)
]

-- The text before the last separator and the text behind it.
after_last : ℕ → ℕ → List ℕ → Option (List ℕ × List ℕ) → Option (List ℕ × List ℕ)
after_last sep c cs (some (front, back)) = some (c ∷ front, back)
after_last sep c cs none = if c == sep then some ([], cs) else none

split_last : ℕ → List ℕ → Option (List ℕ × List ℕ)
split_last sep [] = none
split_last sep (c ∷ cs) = after_last sep c cs (split_last sep cs)

no_separator :
    (sep : ℕ) (cs : List ℕ) → (sep < 48) ⊎ (57 < sep) → All IsDigit cs → split_last sep cs ≡ none
unfolding split_last after_last IsDigit
no_separator sep [] apart h = refl
no_separator sep (c ∷ cs) apart ((low, high), h) =
    rw (no_separator sep cs apart h) (ground (arith, ==_iff c sep))

split_lem :
    (sep : ℕ) (front back : List ℕ)
    → (sep < 48) ⊎ (57 < sep)
    → All IsDigit back
    → split_last sep (front ++ sep ∷ back) ≡ some (front, back)
unfolding split_last after_last
split_lem sep [] back apart h = rw (no_separator sep back apart h, (==_iff sep sep).1 refl) refl
split_lem sep (c ∷ front) back apart h = rw (split_lem sep front back apart h) refl

-- What stands before the last separator, and the number behind it.
pub parse_suffix : ℕ → List ℕ → Option (List ℕ × ℕ)
parse_suffix sep s = do (front, back) ← split_last sep s; some (front, read_digits 0 back)

-- A number behind a separator that is no digit is read back, with all that stands before it.
pub parse_suffix_lem :
    (sep : ℕ) (front : List ℕ) (n : ℕ)
    → (sep < 48) ⊎ (57 < sep)
    → parse_suffix sep (front ++ sep ∷ decimal n) ≡ some (front, n)
unfolding parse_suffix decimal
parse_suffix_lem sep front n apart =
    rw
      (
        split_lem sep front (digits (suc n) n) apart (digits-IsDigit (suc n) n),
        read_digits-digits (suc n) n (omega arith),
      )
      refl
