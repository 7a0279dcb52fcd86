-- ===== src/Io/Reader.antt =====
-- connReader of stratum/server/server.go. Each operation is what is done in one hold of `cr.mu`: Read
-- and backgroundRead release it while they wait for the network connection.
pub mod Kept
pub mod Stream
pub mod Whole
use stratumserver.Prelude.{
  ℕ, ◌==◌, Bool, true, false, not, ◌&&◌, ◌||◌, List, [], ◌∷◌, Option, none, some, if◌then◌else◌,
}
use stratumserver.Prelude.Int.{ℤ, pos, pos_part, ltb_ℤ}
use stratumserver.Prelude.Int64.{sub64}

-- The read deadline of the network connection: none, `aLongTimeAgo`, or a time in nanoseconds.
pub data Deadline : Type 0 where
  no_deadline long_ago : Deadline
  deadline_at : ℤ → Deadline

-- The reader, with the deadline that it sets and whether it cancelled the context of its connection.
pub record ConnReader : Type 0 where
  pub has_byte : Bool
  pub byte_buf : ℕ
  pub in_read : Bool
  pub aborted : Bool
  pub remain : ℤ
  pub read_deadline : Deadline
  pub cancelled : Bool

-- An error of the network connection: none, one whose Timeout is true, or another.
pub data ReadError : Type 0 where
  no_error timeout other_error : ReadError

abbrev pub is_error : ReadError → Bool
is_error no_error = false
is_error timeout = true
is_error other_error = true

abbrev pub is_timeout : ReadError → Bool
is_timeout timeout = true
is_timeout _ = false

unfoldable pub set_read_limit : ℤ → ConnReader → ConnReader
set_read_limit remain cr = record cr { remain = remain }

unfoldable pub hit_read_limit : ConnReader → Bool
hit_read_limit cr = not (ltb_ℤ (pos 0) cr.remain)

-- What Read does before it waits: it panics, it answers with bytes and whether the error is io.EOF, or
-- it waits for as many bytes as the number says.
pub data Begun : Type 0 where
  concurrent : Begun
  answered : List ℕ → Bool → Begun
  waiting : ℕ → Begun

-- `p = p[:cr.remain]` if `p` is longer.
abbrev pub room : ℕ → ℤ → ℕ
room len remain = if ltb_ℤ remain (pos len) then pos_part remain else len

-- Read of `len` bytes, up to the read of the network connection.
unfoldable pub begin_read : ConnReader → ℕ → ConnReader × Begun
unfolding hit_read_limit
begin_read cr len =
    if cr.in_read
    then (cr, concurrent)
    else if hit_read_limit cr
    then (cr, answered [] true)
    else if len == 0
    then (cr, answered [] false)
    else if cr.has_byte
    then (record cr { has_byte = false }, answered (cr.byte_buf ∷ []) false)
    else (record cr { in_read = true }, waiting (room len cr.remain))

-- handleReadError
abbrev pub handle_read_error : Bool → ConnReader → ConnReader
handle_read_error failed cr = record cr { cancelled = cr.cancelled || failed }

-- The rest of Read, for `n` bytes and an error.
unfoldable pub end_read : ConnReader → ℕ → ReadError → ConnReader
end_read cr n err =
    let cr' = handle_read_error (is_error err) (record cr { in_read = false }) in
    record cr' { remain = sub64 cr'.remain (pos n) }

-- startBackgroundRead, and whether it starts the goroutine; `none` is its panic.
unfoldable pub start_background_read : ConnReader → Option (ConnReader × Bool)
start_background_read cr =
    if cr.in_read
    then none
    else if cr.has_byte
    then some (cr, false)
    else some (record cr { in_read = true; read_deadline = no_deadline }, true)

abbrev keep_byte : Option ℕ → ConnReader → ConnReader
keep_byte none cr = cr
keep_byte (some b) cr = record cr { has_byte = true; byte_buf = b }

-- backgroundRead after its read, of one byte or none.
unfoldable pub background_read : ConnReader → Option ℕ → ReadError → ConnReader
background_read cr byte err =
    let cr' = keep_byte byte cr in
    let failed = is_error err && not (cr.aborted && is_timeout err) in
    record (handle_read_error failed cr') { aborted = false; in_read = false }

-- abortPendingRead up to its wait, and whether it waits for `inRead` to fall.
unfoldable pub abort_pending_read : ConnReader → ConnReader × Bool
abort_pending_read cr =
    if not cr.in_read
    then (cr, false)
    else (record cr { aborted = true; read_deadline = long_ago }, true)

-- abortPendingRead after its wait.
unfoldable pub end_abort : ConnReader → ConnReader
end_abort cr = record cr { read_deadline = no_deadline }
