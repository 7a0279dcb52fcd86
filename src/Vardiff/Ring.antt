-- ===== src/Vardiff/Ring.antt =====
-- RingBuffer of stratum/server/vardiff/ringbuffer.go. `none` is a panic: an index out of range, or
-- a remainder by zero.
pub mod Refine
pub mod History
pub mod Sum
use stratumserver.Prelude.{
  ℕ, zero, suc, ◌+◌, Bool, true, false, ◌&&◌, List, [], ◌∷◌, ◌++◌, Option, none, some, length, set,
  ltb, ◌==◌, if◌then◌else◌, ◌>>=◌,
}
use stratumserver.Prelude.Int.{ℤ, pos, negsuc, pos_part, neg_part}
use stratumserver.Prelude.Int64.{add64, rem64}
use stratumserver.Vardiff.Float.{Float64}

-- The fields are int64; `data` is reserved, so `Data` is `elems` here.
pub record RingBuffer : Type 0 where
  pub is_full : Bool
  pub max_size : ℤ
  pub cursor : ℤ
  pub elems : List ℤ

abbrev pub eqb_ℤ : ℤ → ℤ → Bool
eqb_ℤ a b = pos_part a == pos_part b && neg_part a == neg_part b

unfoldable pub new_ring_buffer : ℤ → RingBuffer
new_ring_buffer max_size = record {
  is_full = false;
  max_size = max_size;
  cursor = pos 0;
  elems = [];
}

-- `rb.Data[i] = x`
abbrev pub put : List ℤ → ℤ → ℤ → Option (List ℤ)
put elems (pos i) x = if ltb i (length elems) then some (set elems i x) else none
put elems (negsuc i) x = none

pub append : RingBuffer → ℤ → Option RingBuffer
append rb x =
    let grown = rb.elems ++ x ∷ [] in
    let replaced = (do
      elems' ← put rb.elems rb.cursor x
      cursor' ← rem64 (add64 rb.cursor (pos 1)) rb.max_size
      some (record rb { elems = elems'; cursor = cursor' })) in
    if rb.is_full
    then replaced
    else if eqb_ℤ (pos (length grown)) rb.max_size
    then some (record rb { elems = grown; cursor = pos 0; is_full = true })
    else some (record rb { elems = grown; cursor = add64 rb.cursor (pos 1) })

-- `for i := range rb.Data { sum = sum + rb.Data[i] }`
unfoldable pub sum_from : ℤ → List ℤ → ℤ
sum_from sum [] = sum
sum_from sum (x ∷ xs) = sum_from (add64 sum x) xs

unfoldable pub size : RingBuffer → ℤ
size rb = if rb.is_full then rb.max_size else rb.cursor

unfoldable pub avg : (f : Float64) → RingBuffer → f.F
avg f rb = f.div (f.of_int64 (sum_from (pos 0) rb.elems)) (f.of_int64 (size rb))

unfoldable pub clear : RingBuffer → RingBuffer
clear rb = record rb { elems = []; cursor = pos 0; is_full = false }
