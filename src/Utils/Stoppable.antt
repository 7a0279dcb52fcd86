-- ===== src/Utils/Stoppable.antt =====
-- StoppableMixin of stratum/server/utils/stoppable.go. IsStopped answers from the outside: its n-th
-- answer is a parameter.
use stratumserver.Prelude.{
  ◌∙◌, ℕ, zero, suc, ◌+◌, ◌-◌, ◌*◌, ◌<◌, ◌≡◌, ap, Bool, true, false, if◌then◌else◌, ◌==◌, arith,
}

-- The mixin's flag, the milliseconds slept, and the counter of the wait group.
pub record Stopping : Type 0 where
  pub must_be_stopped : Bool
  pub slept : ℕ
  pub wait_group : ℕ

-- Where StopUsing is after some rounds: it returned, Done panicked on a counter of 0, or it goes on.
pub data Stopped : Type 0 where
  returned : Stopping → Stopped
  negative_counter : Stopping → Stopped
  polling : Stopping → Stopped

abbrev pub stopping_ttl : ℕ
stopping_ttl = 50

-- `wg.Done()`
abbrev done : Stopping → Stopped
done s =
    if s.wait_group == 0
    then negative_counter s
    else returned (record s { wait_group = s.wait_group - 1 })

abbrev slept_for : Stopping → ℕ → Stopped
slept_for s t = returned (record s { slept = t; wait_group = s.wait_group - 1 })

module _ (is_stopped : ℕ → Bool) where
  -- The loop for at most so many rounds, of which the next asks for the n-th time.
  unfoldable pub stop_loop : ℕ → ℕ → Stopping → Stopped
  stop_loop zero n s = polling s
  stop_loop (suc rounds) n s =
      let s' = record s { slept = s.slept + stopping_ttl } in
      let rest = stop_loop rounds (suc n) s' in if is_stopped n then done s' else rest

  unfoldable pub stop_using : ℕ → Stopping → Stopped
  unfolding stop_loop
  stop_using rounds s = stop_loop rounds 0 (record s { must_be_stopped = true })

  done_lem :
      (s : Stopping)
      → 0 < s.wait_group
      → done s ≡ returned (record s { wait_group = s.wait_group - 1 })
  done_lem s waited = ground arith

  stop_loop_lem :
      (k n : ℕ) (s : Stopping)
      → ((i : ℕ) → i < k → is_stopped (n + i) ≡ false)
      → is_stopped (n + k) ≡ true
      → 0 < s.wait_group
      → stop_loop (suc k) n s
        ≡ returned (record s { slept = s.slept + 50 * suc k; wait_group = s.wait_group - 1 })
  unfolding stop_loop
  stop_loop_lem zero n s not_yet now waited =
      let stops : is_stopped n ≡ true = ap is_stopped (omega arith) ∙ now in
      rw stops
        (done_lem (record s { slept = s.slept + 50 }) waited ∙ ap (slept_for s) (omega arith))
  stop_loop_lem (suc k) n s not_yet now waited =
      let goes_on : is_stopped n ≡ false = ap is_stopped (omega arith) ∙ not_yet 0 (omega arith) in
      let rest =
        stop_loop_lem k (suc n) (record s { slept = s.slept + 50 })
          (λ i h. ap is_stopped (omega arith) ∙ not_yet (suc i) (omega arith))
          (ap is_stopped (omega arith) ∙ now) waited in
      rw goes_on (rest ∙ ap (slept_for s) (omega arith))

  -- If IsStopped answers yes for the first time when it is asked for the k-th time, counted from 0, and
  -- the group waits for someone, then StopUsing returns: it marked the mixin, slept 50 milliseconds
  -- before each question, and told the group once.
  pub stop_using_lem :
      (k : ℕ) (s : Stopping)
      → ((i : ℕ) → i < k → is_stopped i ≡ false)
      → is_stopped k ≡ true
      → 0 < s.wait_group
      → stop_using (suc k) s
        ≡ returned (record {
          must_be_stopped = true;
          slept = s.slept + 50 * suc k;
          wait_group = s.wait_group - 1;
        })
  unfolding stop_using
  stop_using_lem k s not_yet now waited =
      stop_loop_lem k 0 (record s { must_be_stopped = true })
        (λ i h. ap is_stopped (omega arith) ∙ not_yet i h) (ap is_stopped (omega arith) ∙ now)
        waited
