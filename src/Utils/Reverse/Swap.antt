-- ===== src/Utils/Reverse/Swap.antt =====
-- The in-place loop of ReverseBytes.
use mathlib.Core.List.{reverse-append, reverse-cons}
use stratumserver.Prelude.{
  ℕ, zero, suc, ◌+◌, ◌-◌, ◌≤◌, ◌≡◌, refl, sym, ap, ◌∙◌, List, [], ◌∷◌, ◌++◌, append_assoc,
  append-nil, reverse, length, length-append, get_or, set, arith, ltb, lt→ltb, true,
}
use stratumserver.Utils.Reverse.{swap, swap_loop, reverse_bytes}

-- A list that is not empty ends in an element.
last_of : (x : ℕ) (xs : List ℕ) → (m : List ℕ) × (y : ℕ) × (x ∷ xs ≡ m ++ y ∷ [])
last_of x [] = ([], x, refl)
last_of x (y ∷ xs) = let (m, z, e) = last_of y xs in (x ∷ m, z, ap (λ t. x ∷ t) e)

get_or-length : (pre : List ℕ) (x : ℕ) (r : List ℕ) → get_or (pre ++ x ∷ r) (length pre) 0 ≡ x
get_or-length [] x r = refl
get_or-length (p ∷ pre) x r = get_or-length pre x r

set-length :
    (pre : List ℕ) (x v : ℕ) (r : List ℕ) → set (pre ++ x ∷ r) (length pre) v ≡ pre ++ v ∷ r
set-length [] x v r = refl
set-length (p ∷ pre) x v r = ap (λ t. p ∷ t) (set-length pre x v r)

-- One round exchanges the ends of the part that is left.
swap_ends :
    (pre m suf : List ℕ) (x y i j : ℕ)
    → i ≡ length pre
    → j ≡ length (pre ++ x ∷ m)
    → swap (pre ++ x ∷ m ++ y ∷ suf) i j ≡ pre ++ y ∷ m ++ x ∷ suf
swap_ends pre m suf x y i j hi hj = rw (
  hi,
  hj,
  get_or-length (pre ++ x ∷ m) y suf,
  append_assoc pre (x ∷ m) (y ∷ suf),
  get_or-length pre x (m ++ y ∷ suf),
  set-length pre x y (m ++ y ∷ suf),
  ← append_assoc pre (y ∷ m) (y ∷ suf),
  length-append pre (x ∷ m),
  ← length-append pre (y ∷ m),
  set-length (pre ++ y ∷ m) y x suf,
)

regroup : (pre m suf : List ℕ) (x y : ℕ) → pre ++ (x ∷ m ++ y ∷ []) ++ suf ≡ pre ++ x ∷ m ++ y ∷ suf
regroup pre m suf x y = simp append_assoc

moved : (pre m suf : List ℕ) (x y : ℕ) → pre ++ y ∷ [] ++ m ++ x ∷ suf ≡ pre ++ y ∷ m ++ x ∷ suf
moved pre m suf x y = simp append_assoc

reverse_ends : (m : List ℕ) (x y : ℕ) → reverse (x ∷ (m ++ y ∷ [])) ≡ y ∷ (reverse m ++ x ∷ [])
reverse_ends m x y =
    reverse-cons x (m ++ y ∷ []) ∙ ap (λ t. t ++ x ∷ []) (reverse-append m (y ∷ []))

moved_back :
    (pre m suf : List ℕ) (x y : ℕ)
    → pre ++ (y ∷ (m ++ x ∷ [])) ++ suf ≡ pre ++ y ∷ [] ++ m ++ x ∷ suf
moved_back pre m suf x y = simp append_assoc

swap_loop_lem :
    (fuel i j : ℕ) (pre m suf : List ℕ)
    → length m ≤ fuel
    → i ≡ length pre
    → j ≡ length pre + length m - 1
    → swap_loop fuel i j (pre ++ m ++ suf) ≡ pre ++ reverse m ++ suf
unfolding swap_loop
swap_loop_lem zero i j pre [] suf h hi hj = refl
swap_loop_lem zero i j pre (x ∷ m) suf h hi hj = absurd (omega arith)
swap_loop_lem (suc fuel) i j pre [] suf h hi hj = ground arith
swap_loop_lem (suc fuel) i j pre (x ∷ []) suf h hi hj = ground arith
swap_loop_lem (suc fuel) i j pre (x ∷ w ∷ r) suf h hi hj =
    let (m, y, e) = last_of w r in
    let n : length (w ∷ r) ≡ length m + 1 = ap length e ∙ length-append m (y ∷ []) in
    let shape : pre ++ (x ∷ w ∷ r) ++ suf ≡ pre ++ x ∷ m ++ y ∷ suf =
      rw e (regroup pre m suf x y) in
    let below : ltb i j ≡ true = lt→ltb i j (omega arith) in
    let ends : swap (pre ++ (x ∷ w ∷ r) ++ suf) i j ≡ pre ++ y ∷ m ++ x ∷ suf =
      rw shape (swap_ends pre m suf x y i j hi (omega (arith, length-append pre (x ∷ m)))) in
    let flip : reverse (x ∷ w ∷ r) ≡ y ∷ (reverse m ++ x ∷ []) =
      ap (λ t. reverse (x ∷ t)) e ∙ reverse_ends m x y in
    let ih : swap_loop fuel (i + 1) (j - 1) (pre ++ y ∷ [] ++ m ++ x ∷ suf)
        ≡ pre ++ y ∷ [] ++ reverse m ++ x ∷ suf =
      swap_loop_lem fuel (i + 1) (j - 1) (pre ++ y ∷ []) m (x ∷ suf) (omega arith)
        (omega (arith, length-append pre (y ∷ []))) (omega (arith, length-append pre (y ∷ []))) in
    rw (below, ends, ← moved pre m suf x y, ih)
      (sym (ap (λ t. pre ++ t ++ suf) flip ∙ moved_back pre (reverse m) suf x y))

-- ReverseBytes returns the bytes in the opposite order.
pub reverse_bytes-reverse : (b : List ℕ) → reverse_bytes b ≡ reverse b
unfolding reverse_bytes
reverse_bytes-reverse b =
    ap (λ t. swap_loop (length b) 0 (length b - 1) t) (sym (append-nil b))
    ∙ swap_loop_lem (length b) 0 (length b - 1) [] b [] (omega arith) refl (omega arith)
    ∙ append-nil (reverse b)
