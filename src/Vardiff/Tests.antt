-- ===== src/Vardiff/Tests.antt =====
-- Concrete runs of the ring buffer and of the difficulty.
use stratumserver.Prelude.{
  not, zero, suc, ℕ, ◌*◌, ◌≤◌, ◌≡◌, ◌/◌, ◌<◌, refl, true, false, [], ◌∷◌, some, arith,
}
use stratumserver.Prelude.Int
use stratumserver.Prelude.Int.{ℤ, pos, negsuc, pos_part, ltb_ℤ, ◌+ℤ◌, ◌-ℤ◌, ◌*ℤ◌}
use stratumserver.Prelude.Int64.{wrap64, quot64}
use stratumserver.Vardiff.Float.{Float64, IsIeee}
use stratumserver.Vardiff.Ring.{RingBuffer, new_ring_buffer, avg, clear, sum_from, size}
use stratumserver.Vardiff.Ring.Refine.{IsRing, growing, wrapped, clear-IsRing}
use stratumserver.Vardiff.Ring.History.{append_all, append_all-last, append_all-unbounded}
use stratumserver.Vardiff.Calc.{VarDiff, new_var_diff, retarget, calc_next_diff}
use stratumserver.Vardiff.Calc.State.{IsSound, calc_next_diff_total}
use stratumserver.Vardiff.Calc.Direction.{retarget_slow_raises, retarget_never_raises_fast}

-- Numbers without a fraction, for which the laws of `IsIeee` hold.
abbrev quotient : ℤ → ℤ → ℤ
quotient (pos n) (pos m) = pos (n / m)
quotient (pos n) (negsuc m) = pos 0 -ℤ pos (n / suc m)
quotient (negsuc n) (pos m) = pos 0 -ℤ pos (suc n / m)
quotient (negsuc n) (negsuc m) = pos (suc n / suc m)

abbrev whole : Float64
whole = record {
  F = ℤ;
  of_int64 = λ z. z;
  half = pos 0;
  add = λ a b. a +ℤ b;
  sub = λ a b. a -ℤ b;
  mul = λ a b. a *ℤ b;
  div = quotient;
  lt = ltb_ℤ;
  le = λ a b. not (ltb_ℤ b a);
}

one_le_quotient : (a b : ℕ) → 0 < b → b ≤ a → 1 ≤ a / b
one_le_quotient a b p h = grind arith

grows : (c d : ℕ) → 1 ≤ d → c ≤ c * d
grows c d h = grind arith

times_one :
    (c d : ℤ)
    → ltb_ℤ (pos 0) c ≡ true
    → not (ltb_ℤ d (pos 1)) ≡ true
    → not (ltb_ℤ (c *ℤ d) c) ≡ true
unfolding Int.◌*ℤ◌
times_one (pos c) (pos d) h k = ground (arith, grows c d)
times_one (pos c) (negsuc d) h k = ground arith
times_one (negsuc c) d h k = ground arith

quotient_one :
    (n b : ℤ)
    → ltb_ℤ (pos 0) b ≡ true
    → not (ltb_ℤ n b) ≡ true
    → not (ltb_ℤ (quotient n b) (pos 1)) ≡ true
unfolding Int.◌-ℤ◌
quotient_one (pos n) (pos b) h k = ground (arith, one_le_quotient n b)
quotient_one (negsuc n) (pos b) h k = ground arith
quotient_one n (negsuc b) h k = ground arith

less_one : (v : ℤ) → not (ltb_ℤ v (pos 1)) ≡ true → not (ltb_ℤ (pos 0) (pos 1 -ℤ v)) ≡ true
unfolding Int.◌-ℤ◌
less_one v h = ground arith

not_positive :
    (t : ℕ) (x : ℤ) → not (ltb_ℤ (pos 0) x) ≡ true → not (ltb_ℤ (pos 0) (pos t *ℤ x)) ≡ true
unfolding Int.◌*ℤ◌
not_positive t (pos zero) h = ground arith
not_positive t (pos (suc n)) h = ground arith
not_positive t (negsuc n) h = ground arith

whole-IsIeee : IsIeee whole
unfolding Int.◌*ℤ◌
whole-IsIeee = record {
  lt-le_trans = λ a b c h k. ground arith;
  le_trans = λ a b c h k. ground arith;
  lt-not_le = λ a b h. ground arith;
  le-not_lt = λ a b h. ground arith;
  lt-not_lt = λ a b h. ground arith;
  mul_comm = λ a b. ground arith;
  le-mul = times_one;
  one-le-div = quotient_one;
  sub_nonpos = less_one;
  mul_nonpos = λ t x p h. not_positive t x h;
}

-- Two values in a buffer of three, and four in it.
abbrev three : RingBuffer
three = record { is_full = false; max_size = pos 3; cursor = pos 2; elems = pos 5 ∷ pos 7 ∷ [] }

abbrev round : RingBuffer
round = record {
  is_full = true;
  max_size = pos 3;
  cursor = pos 1;
  elems = pos 8 ∷ pos 6 ∷ pos 7 ∷ [];
}

three-IsRing : IsRing 3 three (pos 5 ∷ pos 7 ∷ [])
three-IsRing = growing (omega arith) refl

round-IsRing : IsRing 3 round (pos 6 ∷ pos 7 ∷ pos 8 ∷ [])
round-IsRing = wrapped (pos 8 ∷ []) (pos 6 ∷ pos 7 ∷ []) refl (omega arith) refl refl

append_all-last_example :
    (rb : RingBuffer) × (append_all (new_ring_buffer (pos 2)) (pos 4 ∷ pos 5 ∷ pos 6 ∷ [])
      ≡ some rb)
    × IsRing 2 rb (pos 5 ∷ pos 6 ∷ [])
append_all-last_example = append_all-last 2 (pos 4 ∷ pos 5 ∷ pos 6 ∷ []) (omega arith) (omega arith)

append_all-unbounded_example :
    (rb : RingBuffer) × (append_all (new_ring_buffer (pos 0)) (pos 4 ∷ pos 5 ∷ []) ≡ some rb)
    × (rb.elems ≡ pos 4 ∷ pos 5 ∷ [])
unfolding new_ring_buffer
append_all-unbounded_example =
    append_all-unbounded (pos 4 ∷ pos 5 ∷ []) [] (new_ring_buffer (pos 0)) refl refl refl

clear-IsRing_example : clear round ≡ new_ring_buffer (pos 3)
clear-IsRing_example = clear-IsRing 3 round (pos 6 ∷ pos 7 ∷ pos 8 ∷ []) (omega arith) round-IsRing

-- What the server asks for, 100 seconds into the run.
abbrev server_diff : VarDiff whole
server_diff = record {
  buffer_size = pos 24;
  max_target_time = pos 465;
  min_target_time = negsuc 434;
  time_buffer = round;
  last_rtc = pos 100;
  last_timestamp = pos 145;
  min_diff = pos 2;
  max_diff = pos 5;
  target_time = pos 15;
  retarget_time = pos 90;
  variance_percent = pos 30;
  x2_mode = false;
}

server_diff-IsSound : IsSound whole 3 server_diff
server_diff-IsSound = record { queue = pos 6 ∷ pos 7 ∷ pos 8 ∷ []; ring = round-IsRing }

calc_next_diff_total_example :
    (r : VarDiff whole × ℤ) × (calc_next_diff whole server_diff (pos 200) (pos 4) ≡ some r)
    × IsSound whole 3 r.0
    × (r.0.last_timestamp ≡ pos 200)
calc_next_diff_total_example =
    calc_next_diff_total whole 3 server_diff (pos 200) (pos 4) (omega arith) (omega arith)
      server_diff-IsSound

-- Shares every 700 seconds, at a target of 15.
abbrev slow_buffer : RingBuffer
slow_buffer = record { is_full = false; max_size = pos 24; cursor = pos 1; elems = pos 700 ∷ [] }

abbrev slow_diff : VarDiff whole
slow_diff = record server_diff { time_buffer = slow_buffer }

retarget_slow_raises_example : not (ltb_ℤ (retarget whole slow_diff (pos 4)).1 (pos 4)) ≡ true
unfolding avg sum_from size wrap64 Int.◌+ℤ◌ Int.◌*ℤ◌
retarget_slow_raises_example =
    retarget_slow_raises whole whole-IsIeee slow_diff (pos 4) refl refl refl refl refl refl

abbrev made : VarDiff whole
made = record {
  buffer_size = pos 24;
  max_target_time = pos 465;
  min_target_time = negsuc 434;
  time_buffer = new_ring_buffer (pos 24);
  last_rtc = pos 100;
  last_timestamp = pos 145;
  min_diff = pos 2;
  max_diff = pos 5;
  target_time = pos 15;
  retarget_time = pos 90;
  variance_percent = pos 30;
  x2_mode = false;
}

made_by_the_server :
    new_var_diff whole (pos 145) (pos 2) (pos 5) (pos 15) (pos 90) (pos 30) false ≡ some made
unfolding new_var_diff quot64 wrap64 Int.◌+ℤ◌ Int.◌-ℤ◌ Int.◌*ℤ◌
made_by_the_server = refl

retarget_never_raises_fast_example : retarget whole server_diff (pos 4) ≡ (server_diff, pos 4)
unfolding avg sum_from size wrap64 Int.◌+ℤ◌
retarget_never_raises_fast_example =
    retarget_never_raises_fast whole whole-IsIeee (pos 145) (pos 2) (pos 5) (pos 30) 15 (pos 90)
      false made server_diff (pos 4) refl made_by_the_server refl refl refl
