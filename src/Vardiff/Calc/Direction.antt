-- ===== src/Vardiff/Calc/Direction.antt =====
-- Which way CalcNextDiff moves the difficulty.
use Prim.Native.Nat.{zero}
use mathlib.Core.Option.{some-injective, none-ne-some}
use stratumserver.Prelude.{
  subst, >>=-eq-some, ℕ, ◌≡◌, ap, ◌∙◌, Bool, true, false, some, ◌<◌, suc, arith,
}
use stratumserver.Prelude.Int.{ℤ, pos}
use stratumserver.Prelude.Int64.{mul64, quot64}
use stratumserver.Vardiff.Float.{Float64, IsIeee}
use stratumserver.Vardiff.Ring.{avg}
use stratumserver.Vardiff.Calc.{VarDiff, new_var_diff, apply_ddiff, slow_ddiff, raw_ddiff, retarget}

module _ (f : Float64) (laws : IsIeee f) where
  open f use {F, of_int64, mul, div, lt, le, sub}

  abbrev zero_f : F
  zero_f = of_int64 (pos 0)

  -- A factor of at least 1 is kept, and the difficulty does not fall.
  apply_slow :
      (vd : VarDiff f) (cur raw : F)
      → vd.x2_mode ≡ false
      → lt vd.min_diff cur ≡ true
      → lt zero_f cur ≡ true
      → le (of_int64 (pos 1)) raw ≡ true
      → le cur (apply_ddiff f vd cur (slow_ddiff f vd cur raw)).1 ≡ true
  unfolding apply_ddiff slow_ddiff
  apply_slow vd cur raw x m p one =
      let up : le cur (mul cur raw) ≡ true = laws.le-mul cur raw p one in
      let kept : lt (mul raw cur) vd.min_diff ≡ false =
        ap (λ t. lt t vd.min_diff) (laws.mul_comm raw cur)
        ∙ laws.lt-not_lt vd.min_diff (mul cur raw)
            (laws.lt-le_trans vd.min_diff cur (mul cur raw) m up) in
      let positive : le (mul cur raw) zero_f ≡ false =
        laws.lt-not_le zero_f (mul cur raw) (laws.lt-le_trans zero_f cur (mul cur raw) p up) in
      rw (x, kept, positive) up

  -- Where shares come more slowly than the target allows, the difficulty is not lowered: without the x2
  -- mode, for a difficulty above 0 and above the least one, the result of a retarget is at least the
  -- current difficulty as long as the average interval is above 0 and at most the number of nanoseconds
  -- in the target time.
  pub retarget_slow_raises :
      (vd : VarDiff f) (cur : F)
      → vd.x2_mode ≡ false
      → lt vd.max_target_time (avg f vd.time_buffer) ≡ true
      → lt vd.min_diff cur ≡ true
      → lt zero_f cur ≡ true
      → lt zero_f (avg f vd.time_buffer) ≡ true
      → le (avg f vd.time_buffer) (of_int64 (mul64 vd.target_time (pos 1000000000))) ≡ true
      → le cur (retarget f vd cur).1 ≡ true
  unfolding retarget raw_ddiff
  retarget_slow_raises vd cur x slow m p a b =
      let one : le (of_int64 (pos 1)) (raw_ddiff f vd) ≡ true =
        laws.one-le-div (mul64 vd.target_time (pos 1000000000)) (avg f vd.time_buffer) a b in
      rw (slow, m) (apply_slow vd cur (raw_ddiff f vd) x m p one)

  -- NewVarDiff panics on a target time of 0.
  divisor : (t : ℕ) (r q : ℤ) → quot64 r (pos t) ≡ some q → 0 < t
  unfolding quot64
  divisor zero r q e = absurd (none-ne-some q e)
  divisor (suc t) r q e = omega arith

  -- NewVarDiff with a variance of at least 1 makes the lower bound of the intervals 0 or less.
  min_target_nonpos :
      (now : ℤ) (lo hi v : F) (t : ℕ) (r : ℤ) (x2 : Bool) (vd : VarDiff f)
      → le (of_int64 (pos 1)) v ≡ true
      → new_var_diff f now lo hi (pos t) r v x2 ≡ some vd
      → le vd.min_target_time zero_f ≡ true
  unfolding new_var_diff
  min_target_nonpos now lo hi v t r x2 vd h e =
      let (rounds, e₀, e₁) = >>=-eq-some (quot64 r (pos t)) _ e in
      let (half_time, _, e₂) = >>=-eq-some (quot64 r (pos 2)) _ e₁ in
      let made : mul (of_int64 (pos t)) (sub (of_int64 (pos 1)) v) ≡ vd.min_target_time =
        ap (λ (w : VarDiff f). w.min_target_time) (some-injective _ vd e₂) in
      subst (λ w. le w zero_f ≡ true) made
        (laws.mul_nonpos t (sub (of_int64 (pos 1)) v) (divisor t r rounds e₀) (laws.sub_nonpos v h))

  -- A VarDiff made with a variance of at least 1 (as the server makes it, with 30) never raises the
  -- difficulty of a miner that is too fast: if the average interval is not negative and not above
  -- the upper bound, a retarget changes neither the difficulty nor the buffer.
  pub retarget_never_raises_fast :
      (now : ℤ) (lo hi v : F) (t : ℕ) (r : ℤ) (x2 : Bool) (made vd : VarDiff f) (cur : F)
      → le (of_int64 (pos 1)) v ≡ true
      → new_var_diff f now lo hi (pos t) r v x2 ≡ some made
      → vd.min_target_time ≡ made.min_target_time
      → le zero_f (avg f vd.time_buffer) ≡ true
      → lt vd.max_target_time (avg f vd.time_buffer) ≡ false
      → retarget f vd cur ≡ (vd, cur)
  unfolding retarget
  retarget_never_raises_fast now lo hi v t r x2 made vd cur h e same a b =
      let low : le vd.min_target_time zero_f ≡ true =
        ap (λ w. le w zero_f) same ∙ min_target_nonpos now lo hi v t r x2 made h e in
      let not_fast : lt (avg f vd.time_buffer) vd.min_target_time ≡ false =
        laws.le-not_lt (avg f vd.time_buffer) vd.min_target_time
          (laws.le_trans vd.min_target_time zero_f (avg f vd.time_buffer) low a) in
      rw (b, not_fast)
