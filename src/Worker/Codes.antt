-- ===== src/Worker/Codes.antt =====
-- ErrorWrap of stratum/types/types.go, and its texts.
use Prim.Native.String.{String}
use stratumserver.Prelude.{ℕ, ◌==◌, if◌then◌else◌}

pub data ErrorWrap : Type 0 where
  err_job_not_found err_incorrect_extra_nonce2_size err_incorrect_n_time_size : ErrorWrap
  err_n_time_out_of_range err_incorrect_nonce_size err_duplicate_share : ErrorWrap
  err_low_diff_share err_miner_invalid_format err_rig_invalid_format : ErrorWrap

unfoldable pub code : ErrorWrap → ℕ
code err_job_not_found = 20
code err_incorrect_extra_nonce2_size = 21
code err_incorrect_n_time_size = 22
code err_n_time_out_of_range = 23
code err_incorrect_nonce_size = 24
code err_duplicate_share = 25
code err_low_diff_share = 26
code err_miner_invalid_format = 27
code err_rig_invalid_format = 28

-- The map from codes to texts, where a missing key gives the empty text.
unfoldable pub code_to_err : ℕ → String
code_to_err n =
    if n == 10
    then "you are banned by pool"
    else if n == 20
    then "job not found"
    else if n == 21
    then "incorrect size of extranonce2"
    else if n == 22
    then "incorrect size of ntime"
    else if n == 23
    then "ntime out of range"
    else if n == 24
    then "incorrect size of nonce"
    else if n == 25
    then "duplicate share"
    else if n == 26
    then "low difficulty share"
    else if n == 27
    then "miner should be in UUID v4 format"
    else if n == 28
    then "rig should be in [a-zA-Z0-9]+ format"
    else ""

-- String of an ErrorWrap.
unfoldable pub error_text : ErrorWrap → String
unfolding code_to_err code
error_text e = code_to_err (code e)
