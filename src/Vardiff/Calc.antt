-- ===== src/Vardiff/Calc.antt =====
-- VarDiff of stratum/server/vardiff/vardiff.go. `time.Now().Unix()` is the argument `timestamp`;
-- `none` is a panic (a division by zero, or an index out of range).
pub mod State
pub mod Direction
use stratumserver.Prelude.{ℕ, Bool, true, false, ◌&&◌, Option, none, some, if◌then◌else◌, ◌>>=◌}
use stratumserver.Prelude.Int.{ℤ, pos, ltb_ℤ}
use stratumserver.Prelude.Int64.{sub64, mul64, quot64}
use stratumserver.Vardiff.Float.{Float64}
use stratumserver.Vardiff.Ring.{RingBuffer, new_ring_buffer, eqb_ℤ, append, size, avg, clear}

module _ (f : Float64) where
  open f use {F, of_int64, half, add, sub, mul, div, lt, le}

  pub record VarDiff : Type 0 where
    pub buffer_size : ℤ
    pub max_target_time : F
    pub min_target_time : F
    pub time_buffer : RingBuffer
    pub last_rtc : ℤ
    pub last_timestamp : ℤ
    pub min_diff : F
    pub max_diff : F
    pub target_time : ℤ
    pub retarget_time : ℤ
    pub variance_percent : F
    pub x2_mode : Bool

module _ (f : Float64) where
  open f use {F, of_int64, half, add, sub, mul, div, lt, le}

  unfoldable pub new_var_diff : ℤ → F → F → ℤ → ℤ → F → Bool → Option (VarDiff f)
  new_var_diff timestamp min_diff max_diff target_time retarget_time variance_percent x2_mode = do
    rounds ← quot64 retarget_time target_time
    let buffer_size : ℤ = mul64 rounds (pos 4)
    half_time ← quot64 retarget_time (pos 2)
    some (record {
      buffer_size = buffer_size;
      max_target_time = mul (of_int64 target_time) (add (of_int64 (pos 1)) variance_percent);
      min_target_time = mul (of_int64 target_time) (sub (of_int64 (pos 1)) variance_percent);
      time_buffer = new_ring_buffer buffer_size;
      last_rtc = sub64 timestamp half_time;
      last_timestamp = timestamp;
      min_diff = min_diff;
      max_diff = max_diff;
      target_time = target_time;
      retarget_time = retarget_time;
      variance_percent = variance_percent;
      x2_mode = x2_mode;
    })

  -- `newDiff = currentDiff * ddiff` and what follows it.
  pub apply_ddiff : VarDiff f → F → F → VarDiff f × F
  apply_ddiff vd current_diff ddiff =
      let new_diff = mul current_diff ddiff in
      (
        record vd { time_buffer = clear vd.time_buffer },
        if le new_diff (of_int64 (pos 0)) then current_diff else new_diff,
      )

  -- The factor where shares come too slowly, and where they come too fast.
  pub slow_ddiff : VarDiff f → F → F → F
  slow_ddiff vd current_diff raw =
      let ddiff = if vd.x2_mode then half else raw in
      if lt (mul ddiff current_diff) vd.min_diff then div vd.min_diff current_diff else ddiff

  pub fast_ddiff : VarDiff f → F → F → F
  fast_ddiff vd current_diff raw =
      let ddiff = if vd.x2_mode then of_int64 (pos 2) else raw in
      if lt vd.max_diff (mul ddiff current_diff) then div vd.max_diff current_diff else ddiff

  -- `float64(time.Duration(vd.TargetTime)*time.Second) / avg`: a duration counts nanoseconds.
  pub raw_ddiff : VarDiff f → F
  raw_ddiff vd = div (of_int64 (mul64 vd.target_time (pos 1000000000))) (avg f vd.time_buffer)

  -- From `vd.LastRtc = timestamp` on.
  pub retarget : VarDiff f → F → VarDiff f × F
  retarget vd current_diff =
      let average = avg f vd.time_buffer in
      if lt vd.max_target_time average && lt vd.min_diff current_diff
      then apply_ddiff vd current_diff (slow_ddiff vd current_diff (raw_ddiff vd))
      else if lt average vd.min_target_time
      then apply_ddiff vd current_diff (fast_ddiff vd current_diff (raw_ddiff vd))
      else (vd, current_diff)

  -- The result is named, so a bare `return` gives 0.
  pub calc_next_diff : VarDiff f → ℤ → F → Option (VarDiff f × F)
  calc_next_diff vd timestamp current_diff =
      let restart = (do
        half_time ← quot64 vd.retarget_time (pos 2)
        some (
          record vd { last_rtc = sub64 timestamp half_time; last_timestamp = timestamp },
          of_int64 (pos 0),
        )) in
      let measure = (do
        buffer ← append vd.time_buffer (sub64 timestamp vd.last_timestamp)
        let vd' : VarDiff f = record vd { time_buffer = buffer; last_timestamp = timestamp }
        let early : Bool =
            ltb_ℤ (sub64 timestamp vd.last_rtc) vd.retarget_time && ltb_ℤ (pos 0) (size buffer)
        let result : VarDiff f × F =
            if early
            then (vd', of_int64 (pos 0))
            else retarget (record vd' { last_rtc = timestamp }) current_diff
        some result) in
      if eqb_ℤ vd.last_rtc (pos 0) then restart else measure
