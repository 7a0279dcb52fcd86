-- ===== src/Server.antt =====
-- Server of stratum/server/server.go: its state, and the operations that hold `s.mu` or are atomic.
-- A listener, a connection and a callback are known by a number. The maps `listeners` and `activeConn`
-- are lists without repetition, a nil map being the empty one. Times are int64 seconds and durations
-- int64 nanoseconds.
pub mod Packed
pub mod Conns
pub mod Shutdown
pub mod Accept
pub mod Reach
pub mod System
pub mod Tls
pub mod Logging
pub mod Names
mod Tests
use Prim.Native.Nat.{bit_or}
use stratumserver.Prelude.{
  ℕ, zero, suc, ◌+◌, ◌*◌, ◌/◌, ◌%◌, ◌^◌, Bool, true, false, not, ◌&&◌, ◌||◌, List, [], ◌∷◌, ◌++◌,
  Option, none, some, length, ltb, leb, ◌==◌, if◌then◌else◌, ◌>>=◌,
}
use stratumserver.Prelude.Int.{ℤ, pos, negsuc, pos_part, neg_part, ltb_ℤ}
use stratumserver.Prelude.Int64.{add64, sub64, mul64, bits64, wrap64}

-- doneChan: not made yet, made, or closed.
pub data DoneChan : Type 0 where
  unmade open_chan closed_chan : DoneChan

pub record Server : Type 0 where
  pub addr : List ℕ
  pub read_timeout : ℤ
  pub read_header_timeout : ℤ
  pub write_timeout : ℤ
  pub idle_timeout : ℤ
  pub max_header_bytes : ℤ
  pub in_shutdown : Bool
  pub listeners : List ℕ
  pub active_conn : List ℕ
  pub done_chan : DoneChan
  pub on_shutdown : List ℕ
  -- `c.curState.atomic` of each connection
  pub cur_state : ℕ → ℕ

unfoldable pub max_header_bytes_or_default : Server → ℤ
max_header_bytes_or_default s =
    if ltb_ℤ (pos 0) s.max_header_bytes then s.max_header_bytes else pos (2 ^ 20)

unfoldable pub initial_read_limit_size : Server → ℤ
unfolding max_header_bytes_or_default
initial_read_limit_size s = add64 (max_header_bytes_or_default s) (pos 4096)

abbrev is_zero : ℤ → Bool
is_zero z = pos_part z == 0 && neg_part z == 0

unfoldable pub header_timeout : Server → ℤ
header_timeout s =
    if not (is_zero s.read_header_timeout) then s.read_header_timeout else s.read_timeout

unfoldable pub shutting_down : Server → Bool
shutting_down s = s.in_shutdown

abbrev pub member : ℕ → List ℕ → Bool
member x [] = false
member x (y ∷ ys) = x == y || member x ys

-- `m[x] = struct{}{}` and `delete(m, x)`
abbrev pub insert : ℕ → List ℕ → List ℕ
insert x ys = if member x ys then ys else x ∷ ys

abbrev pub delete : ℕ → List ℕ → List ℕ
delete x [] = []
delete x (y ∷ ys) = let rest = delete x ys in if x == y then rest else y ∷ rest

unfoldable pub track_conn : Server → ℕ → Bool → Server
track_conn s c add = record s {
  active_conn = if add then insert c s.active_conn else delete c s.active_conn;
}

-- The answer is whether the server is still up.
unfoldable pub track_listener : Server → ℕ → Bool → Server × Bool
unfolding shutting_down
track_listener s ln add =
    if add
    then (if shutting_down s
        then (s, false)
        else (record s { listeners = insert ln s.listeners }, true))
    else (record s { listeners = delete ln s.listeners }, true)

abbrev made : DoneChan → DoneChan
made unmade = open_chan
made open_chan = open_chan
made closed_chan = closed_chan

unfoldable pub get_done_chan_locked : Server → Server × DoneChan
get_done_chan_locked s = (record s { done_chan = made s.done_chan }, made s.done_chan)

-- `close(ch)`; closing a channel that is closed or nil panics.
abbrev close_chan : DoneChan → Option DoneChan
close_chan open_chan = some closed_chan
close_chan _ = none

-- Whether a receive from the channel can proceed: nothing is ever sent on it.
abbrev pub is_closed : DoneChan → Bool
is_closed closed_chan = true
is_closed _ = false

unfoldable pub close_done_chan_locked : Server → Option Server
unfolding get_done_chan_locked
close_done_chan_locked s =
    let (s', ch) = get_done_chan_locked s in
    if is_closed ch
    then some s'
    else (do closed ← close_chan ch; some (record s' { done_chan = closed }))

unfoldable pub register_on_shutdown : Server → ℕ → Server
register_on_shutdown s f = record s { on_shutdown = s.on_shutdown ++ f ∷ [] }

unfoldable pub num_listeners : Server → ℕ
num_listeners s = length s.listeners

-- ConnState: an int, of which four values have names.
abbrev pub state_new : ℤ
state_new = pos 0

abbrev pub state_active : ℤ
state_active = pos 1

abbrev pub state_idle : ℤ
state_idle = pos 2

abbrev pub state_closed : ℤ
state_closed = pos 3

-- `uint64(time.Now().Unix()<<8) | uint64(state)`
unfoldable pub pack_state : ℤ → ℤ → ℕ
pack_state now state = bit_or (bits64 (mul64 now (pos 256))) (bits64 state)

-- `packedState & 0xff` is the remainder by 256, and `packedState >> 8` the quotient.
unfoldable pub get_state : Server → ℕ → ℤ × ℤ
get_state s c = (pos (s.cur_state c % 256), wrap64 (pos (s.cur_state c / 256)))

abbrev pub tracked : Server → ℕ → ℤ → Server
tracked s c state =
    if pos_part state == 0 && neg_part state == 0
    then track_conn s c true
    else if pos_part state == 3
    then track_conn s c false
    else s

-- The atomic store of setState.
abbrev pub stored : Server → ℤ → ℕ → ℤ → Server
stored s now c state = record s {
  cur_state = λ d. if d == c then pack_state now state else s.cur_state d;
}

-- setState without other goroutines between trackConn, which takes `s.mu`, and the store: Server/System
-- takes the two apart. `none` is the panic on a state that does not fit a byte; the hook ConnState is left out, since the
-- server of the program sets none.
unfoldable pub set_state : Server → ℤ → ℕ → ℤ → Option Server
set_state s now c state =
    let s' = tracked s c state in
    if ltb_ℤ (pos 0xff) state || ltb_ℤ state (pos 0) then none else some (stored s' now c state)
