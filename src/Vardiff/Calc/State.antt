-- ===== src/Vardiff/Calc/State.antt =====
-- What CalcNextDiff does to the state, on every branch.
use stratumserver.Prelude.{
  ℕ, ◌-◌, ◌^◌, ◌<◌, ◌≡◌, refl, sym, inl, inr, Bool, true, false, ◌&&◌, List, [], ◌∷◌, ◌++◌, some,
  arith, length, length-append, length-drop, if◌then◌else◌, Bool-cases, subst, if_either, lt→ltb,
}
use stratumserver.Prelude.Int.{ℤ, pos, ltb_ℤ}
use stratumserver.Prelude.Int64.{sub64, quot64}
use stratumserver.Vardiff.Float.{Float64}
use stratumserver.Vardiff.Ring.{eqb_ℤ, avg, size}
use stratumserver.Vardiff.Ring.Refine.{
  IsRing, push, append-IsRing, size-IsRing, clear-IsRing, new_ring_buffer-IsRing,
}
use stratumserver.Vardiff.Calc.{
  VarDiff, apply_ddiff, slow_ddiff, fast_ddiff, raw_ddiff, retarget, calc_next_diff,
}

push_pos : (m : ℕ) (q : List ℤ) (x : ℤ) → 0 < m → ltb_ℤ (pos 0) (pos (length (push m q x))) ≡ true
push_pos m q x p =
    lt→ltb _ _ (
      omega (arith, length-append q (x ∷ []), length-drop (length (q ++ x ∷ []) - m) (q ++ x ∷ [])))

module _ (f : Float64) where
  open f use {F, of_int64}

  -- The buffer is one of size `m` for some queue.
  pub record IsSound (m : ℕ) (vd : VarDiff f) : Type 0 where
    pub queue : List ℤ
    pub ring : IsRing m vd.time_buffer queue

  halved : (a : ℤ) → (h : ℤ) × (quot64 a (pos 2) ≡ some h)
  unfolding quot64
  halved a = (_, refl)

  abbrev Kept : ℕ → ℤ → VarDiff f → Type 0
  Kept m timestamp vd = IsSound m vd × (vd.last_timestamp ≡ timestamp)

  apply_ddiff-Kept :
      (m : ℕ) (timestamp : ℤ) (vd : VarDiff f) (cur d : F)
      → 0 < m
      → Kept m timestamp vd
      → Kept m timestamp (apply_ddiff f vd cur d).0
  unfolding apply_ddiff
  apply_ddiff-Kept m timestamp vd cur d p (s, e) = (
    record {
      queue = [];
      ring =
          subst (λ b. IsRing m b []) (sym (clear-IsRing m vd.time_buffer s.queue p s.ring))
            (new_ring_buffer-IsRing m p);
    },
    e,
  )

  retarget-Kept :
      (m : ℕ) (timestamp : ℤ) (vd : VarDiff f) (cur : F)
      → 0 < m
      → Kept m timestamp vd
      → Kept m timestamp (retarget f vd cur).0
  unfolding retarget
  retarget-Kept m timestamp vd cur p k =
      let average : F = avg f vd.time_buffer in
      let fast : VarDiff f × F = apply_ddiff f vd cur (fast_ddiff f vd cur (raw_ddiff f vd)) in
      let slow : VarDiff f × F = apply_ddiff f vd cur (slow_ddiff f vd cur (raw_ddiff f vd)) in
      let is_fast : Bool = f.lt average vd.min_target_time in
      if_either (λ (r : VarDiff f × F). Kept m timestamp r.0)
        (f.lt vd.max_target_time average && f.lt vd.min_diff cur) {x = slow}
        {y = if is_fast then fast else (vd, cur)} (apply_ddiff-Kept m timestamp vd cur _ p k)
        (if_either (λ (r : VarDiff f × F). Kept m timestamp r.0) is_fast {x = fast} {y = (vd, cur)}
          (apply_ddiff-Kept m timestamp vd cur _ p k) k)

  -- CalcNextDiff on a sound buffer of size `m`, which is above 0 and below 2^62, does not panic; it leaves
  -- a sound buffer of that size, and the time of the call as the time of the last share.
  pub calc_next_diff_total :
      (m : ℕ) (vd : VarDiff f) (timestamp : ℤ) (cur : F)
      → 0 < m
      → m < 2 ^ 62
      → IsSound m vd
      → (r : VarDiff f × F) × (calc_next_diff f vd timestamp cur ≡ some r)
        × IsSound m r.0
        × (r.0.last_timestamp ≡ timestamp)
  unfolding calc_next_diff
  calc_next_diff_total m vd timestamp cur p big s = elim (Bool-cases (eqb_ℤ vd.last_rtc (pos 0))) [
    | inl unset ↦
        let (h, e) = halved vd.retarget_time in
        (
          (
            record vd { last_rtc = sub64 timestamp h; last_timestamp = timestamp },
            of_int64 (pos 0),
          ),
          rw (unset, e),
          record { queue = s.queue; ring = s.ring },
          refl,
        )
    | inr set ↦
        let x : ℤ = sub64 timestamp vd.last_timestamp in
        let (buffer, e, r) = append-IsRing m vd.time_buffer s.queue x big s.ring in
        let now : VarDiff f = record vd { time_buffer = buffer; last_timestamp = timestamp } in
        let late : VarDiff f = record now { last_rtc = timestamp } in
        let kept : Kept m timestamp now = (record { queue = push m s.queue x; ring = r }, refl) in
        let kept' : Kept m timestamp late = (record { queue = push m s.queue x; ring = r }, refl) in
        let early : Bool =
          ltb_ℤ (sub64 timestamp vd.last_rtc) vd.retarget_time && ltb_ℤ (pos 0) (size buffer) in
        let both : Kept m timestamp
            (if early then (now, of_int64 (pos 0)) else retarget f late cur).0 =
          if_either (λ (q : VarDiff f × F). Kept m timestamp q.0) early
            {x = (now, of_int64 (pos 0))} {y = retarget f late cur} kept
            (retarget-Kept m timestamp late cur p kept') in
        (
          if early then (now, of_int64 (pos 0)) else retarget f late cur,
          rw (set, e),
          both.0,
          both.1,
        )
  ]

  -- Before the retarget time has passed, CalcNextDiff records the interval, leaves the time of the
  -- last retarget, and returns 0 and not the current difficulty.
  pub calc_next_diff_early :
      (m : ℕ) (vd : VarDiff f) (timestamp : ℤ) (cur : F)
      → 0 < m
      → m < 2 ^ 62
      → (s : IsSound m vd) → eqb_ℤ vd.last_rtc (pos 0) ≡ false
      → ltb_ℤ (sub64 timestamp vd.last_rtc) vd.retarget_time ≡ true
      → (vd' : VarDiff f) × (calc_next_diff f vd timestamp cur ≡ some (vd', of_int64 (pos 0)))
        × IsRing m vd'.time_buffer (push m s.queue (sub64 timestamp vd.last_timestamp))
        × (vd'.last_rtc ≡ vd.last_rtc)
  unfolding calc_next_diff
  calc_next_diff_early m vd timestamp cur p big s set soon =
      let x : ℤ = sub64 timestamp vd.last_timestamp in
      let (buffer, e, r) = append-IsRing m vd.time_buffer s.queue x big s.ring in
      let some_held : ltb_ℤ (pos 0) (size buffer) ≡ true =
        rw (size-IsRing m buffer (push m s.queue x) r) (push_pos m s.queue x p) in
      (
        record vd { time_buffer = buffer; last_timestamp = timestamp },
        rw (set, e, soon, some_held),
        r,
        refl,
      )
