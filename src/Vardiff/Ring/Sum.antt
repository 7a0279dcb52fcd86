-- ===== src/Vardiff/Ring/Sum.antt =====
-- The sum of Avg and the places of the values in the buffer.
use mathlib.Core.Path.{ap₂}
use stratumserver.Prelude.{ℕ, ◌≡◌, sym, ap, ◌∙◌, List, [], ◌∷◌, ◌++◌, arith, length}
use stratumserver.Prelude.Int.{ℤ, pos, ◌+ℤ◌, +ℤ_comm, +ℤ_assoc}
use stratumserver.Prelude.Int64.{add64, wrap64, wrap64_id, wrap64-IsInt64, IsInt64}
use stratumserver.Vardiff.Float.{Float64}
use stratumserver.Vardiff.Ring.{RingBuffer, sum_from, avg}
use stratumserver.Vardiff.Ring.Refine.{IsRing, growing, wrapped, size-IsRing}

-- The sum in the integers.
unfoldable pub total : List ℤ → ℤ
total [] = pos 0
total (x ∷ xs) = x +ℤ total xs

+ℤ-zero : (a : ℤ) → a +ℤ pos 0 ≡ a
unfolding ◌+ℤ◌
+ℤ-zero a = ground arith

zero-+ℤ : (a : ℤ) → pos 0 +ℤ a ≡ a
unfolding ◌+ℤ◌
zero-+ℤ a = ground arith

total-append : (xs ys : List ℤ) → total (xs ++ ys) ≡ total xs +ℤ total ys
unfolding total
total-append [] ys = sym (zero-+ℤ (total ys))
total-append (x ∷ xs) ys =
    ap (λ t. x +ℤ t) (total-append xs ys) ∙ sym (+ℤ_assoc x (total xs) (total ys))

-- A wrap on the way makes no difference to a wrap at the end.
wrap64-add : (a b : ℤ) → wrap64 (wrap64 a +ℤ b) ≡ wrap64 (a +ℤ b)
unfolding wrap64 ◌+ℤ◌
wrap64-add a b = ground arith

sum_from-total : (s : ℤ) (xs : List ℤ) → IsInt64 s → sum_from s xs ≡ wrap64 (s +ℤ total xs)
unfolding sum_from total
sum_from-total s [] h = sym (ap wrap64 (+ℤ-zero s) ∙ wrap64_id s h)
sum_from-total s (x ∷ xs) h =
    sum_from-total (add64 s x) xs (wrap64-IsInt64 (s +ℤ x))
    ∙ wrap64-add (s +ℤ x) (total xs)
    ∙ ap wrap64 (+ℤ_assoc s x (total xs))

sum-total : (xs : List ℤ) → sum_from (pos 0) xs ≡ wrap64 (total xs)
sum-total xs = sum_from-total (pos 0) xs (omega arith) ∙ ap wrap64 (zero-+ℤ (total xs))

elems-total : (m : ℕ) (rb : RingBuffer) (q : List ℤ) → IsRing m rb q → total rb.elems ≡ total q
elems-total m rb q (growing h e) = ap (λ r. total r.elems) e
elems-total m rb q (wrapped newer older l p eq e) =
    ap (λ r. total r.elems) e
    ∙ total-append newer older
    ∙ +ℤ_comm (total newer) (total older)
    ∙ sym (total-append older newer)
    ∙ ap total (sym eq)

-- The average of a buffer for the queue `q` is the int64 sum of the values of `q` over their
-- number, wherever the cursor stands.
pub avg-IsRing :
    (f : Float64) (m : ℕ) (rb : RingBuffer) (q : List ℤ)
    → IsRing m rb q
    → avg f rb ≡ f.div (f.of_int64 (wrap64 (total q))) (f.of_int64 (pos (length q)))
unfolding avg
avg-IsRing f m rb q r =
    ap₂ f.div (ap f.of_int64 (sum-total rb.elems ∙ ap wrap64 (elems-total m rb q r)))
      (ap f.of_int64 (size-IsRing m rb q r))
