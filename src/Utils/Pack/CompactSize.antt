-- ===== src/Utils/Pack/CompactSize.antt =====
-- VarIntBytes and SerializeString against a reader of Bitcoin's CompactSize.
use stratumserver.Prelude.{
  ℕ, ◌^◌, ◌<◌, ◌≡◌, refl, sym, ap, ◌∙◌, List, [], ◌∷◌, ◌++◌, Option, none, some, append_assoc,
  arith, length, length-append, take, drop, ltb, leb, ◌==◌, if◌then◌else◌, le_bytes, of_le_bytes,
  overwrite, write_at, of_le_bytes-le_bytes, length-le_bytes, IsByte, All, le_bytes-IsByte, ◌>>=◌,
}
use stratumserver.Utils.Pack.{var_int_bytes, serialize_string}

-- `k` bytes as a number, and what follows them; `none` if the input is short.
read_le : ℕ → List ℕ → Option (ℕ × List ℕ)
read_le k s = if leb k (length s) then some (of_le_bytes (take k s), drop k s) else none

-- CompactSize as the Bitcoin protocol documents it.
unfoldable pub read_var_int : List ℕ → Option (ℕ × List ℕ)
unfolding read_le
read_var_int [] = none
read_var_int (b ∷ s) =
    if ltb b 253
    then some (b, s)
    else if b == 253
    then read_le 2 s
    else if b == 254
    then read_le 4 s
    else read_le 8 s

-- A string behind its length.
unfoldable pub read_string : List ℕ → Option (List ℕ × List ℕ)
unfolding read_var_int
read_string s = do
  (n, rest) ← read_var_int s
  if leb n (length rest) then some (take n rest, drop n rest) else none

take-length : (xs ys : List ℕ) → take (length xs) (xs ++ ys) ≡ xs
take-length [] ys = refl
take-length (x ∷ xs) ys = ap (λ t. x ∷ t) (take-length xs ys)

drop-length : (xs ys : List ℕ) → drop (length xs) (xs ++ ys) ≡ ys
drop-length [] ys = refl
drop-length (x ∷ xs) ys = drop-length xs ys

-- The four shapes that VarIntBytes writes.
abbrev shape : ℕ → List ℕ
shape n =
    if ltb n 253
    then n ∷ []
    else if leb n 0xffff
    then 253 ∷ le_bytes 2 n
    else if leb n 0xffffffff
    then 254 ∷ le_bytes 4 n
    else 255 ∷ le_bytes 8 n

var_int_bytes-shape : (n : ℕ) → var_int_bytes n ≡ shape n
unfolding var_int_bytes write_at le_bytes overwrite
var_int_bytes-shape n = ground arith

take-le_bytes : (k n : ℕ) (rest : List ℕ) → take k (le_bytes k n ++ rest) ≡ le_bytes k n
take-le_bytes k n rest =
    ap (λ j. take j (le_bytes k n ++ rest)) (sym (length-le_bytes k n))
    ∙ take-length (le_bytes k n) rest

drop-le_bytes : (k n : ℕ) (rest : List ℕ) → drop k (le_bytes k n ++ rest) ≡ rest
drop-le_bytes k n rest =
    ap (λ j. drop j (le_bytes k n ++ rest)) (sym (length-le_bytes k n))
    ∙ drop-length (le_bytes k n) rest

shape_lem :
    (n : ℕ)
    → All IsByte (shape n)
      × (length (shape n) ≡ (
          if ltb n 253 then 1 else if leb n 0xffff then 3 else if leb n 0xffffffff then 5 else 9))
shape_lem n = ground (
  arith,
  length-le_bytes 2 n,
  length-le_bytes 4 n,
  length-le_bytes 8 n,
  le_bytes-IsByte 2 n,
  le_bytes-IsByte 4 n,
  le_bytes-IsByte 8 n,
)

read_le-le_bytes :
    (k n : ℕ) (rest : List ℕ) → n < 256 ^ k → read_le k (le_bytes k n ++ rest) ≡ some (n, rest)
unfolding read_le
read_le-le_bytes k n rest h = ground (
  arith,
  length-append (le_bytes k n) rest,
  length-le_bytes k n,
  of_le_bytes-le_bytes k n h,
  take-le_bytes k n rest,
  drop-le_bytes k n rest,
)

-- Reading what VarIntBytes wrote for a uint64 gives the number back, and leaves what follows it.
pub read_var_int-var_int_bytes :
    (n : ℕ) (rest : List ℕ) → n < 2 ^ 64 → read_var_int (var_int_bytes n ++ rest) ≡ some (n, rest)
unfolding read_var_int
read_var_int-var_int_bytes n rest h = rw (var_int_bytes-shape n) (
    ground (arith, read_le-le_bytes 2 n rest, read_le-le_bytes 4 n rest, read_le-le_bytes 8 n rest))

-- SerializeString writes the length as VarIntBytes does, and then the string.
pub serialize_string-var_int_bytes :
    (s : List ℕ) → length s < 2 ^ 64 → serialize_string s ≡ var_int_bytes (length s) ++ s
unfolding serialize_string le_bytes overwrite
serialize_string-var_int_bytes s h = rw (var_int_bytes-shape (length s)) (ground arith)

-- A string of fewer than 2^64 bytes that SerializeString wrote is read back whole, and what
-- follows it is left.
pub read_string-serialize_string :
    (s rest : List ℕ)
    → length s < 2 ^ 64
    → read_string (serialize_string s ++ rest) ≡ some (s, rest)
unfolding read_string
read_string-serialize_string s rest h =
    rw
      (
        serialize_string-var_int_bytes s h,
        append_assoc (var_int_bytes (length s)) s rest,
        read_var_int-var_int_bytes (length s) (s ++ rest) h,
      )
      (ground (arith, length-append s rest, take-length s rest, drop-length s rest))

-- VarIntBytes writes bytes only, and as many as CompactSize has for the range of the number.
pub length-var_int_bytes :
    (n : ℕ)
    → n < 2 ^ 64
    → All IsByte (var_int_bytes n)
      × (length (var_int_bytes n) ≡ (
          if ltb n 253 then 1 else if leb n 0xffff then 3 else if leb n 0xffffffff then 5 else 9))
length-var_int_bytes n h = rw (var_int_bytes-shape n) (shape_lem n)
