-- ===== src/Server/Shutdown/Begin.antt =====
-- What the begin of Shutdown does, and how often a listener is closed.

use stratumserver.Prelude.{ℕ, zero, suc, ◌≡◌, refl, true, false, Option, none, some, arith}
use stratumserver.Server.{Server, closed_chan, close_done_chan_locked}
use stratumserver.Server.Shutdown.{
  OnceCloseListener, once_close, close_listeners_locked, shutdown_locked, shutdown_begin,
}

-- Close, `suc n` times, with the answers that the listener inside would give; the last result.
pub close_times : ℕ → (ℕ → Option ℕ) → OnceCloseListener → OnceCloseListener × Option ℕ
close_times zero answer oc = once_close (answer zero) oc
close_times (suc n) answer oc = close_times n answer (once_close (answer (suc n)) oc).0

close_times_done :
    (n : ℕ) (answer : ℕ → Option ℕ) (oc : OnceCloseListener)
    → oc.done ≡ true
    → close_times n answer oc ≡ (oc, oc.close_err)
unfolding close_times once_close
close_times_done zero answer oc h = ground arith
close_times_done (suc n) answer oc h = ground (arith, close_times_done n answer oc h)

-- The locked section leaves the channel closed and all else as it was.
pub shutdown_locked_lem :
    (answer : ℕ → Option ℕ) (s : Server)
    → shutdown_locked answer s
      ≡ some (record s { done_chan = closed_chan }, close_listeners_locked answer s, s.on_shutdown)
unfolding close_done_chan_locked close_listeners_locked
shutdown_locked_lem answer s = ground arith

-- Begin of Shutdown never panics, on whatever state the channel is; it marks the server, and leaves
-- the channel closed and the listeners and connections as they were.
pub shutdown_begin_lem :
    (answer : ℕ → Option ℕ) (s : Server)
    → (s' : Server) × (shutdown_begin answer s
        ≡ some (s', close_listeners_locked answer s, s.on_shutdown))
      × (s'.in_shutdown ≡ true)
      × (s'.done_chan ≡ closed_chan)
      × (s'.listeners ≡ s.listeners)
      × (s'.active_conn ≡ s.active_conn)
unfolding shutdown_begin close_done_chan_locked close_listeners_locked
shutdown_begin_lem answer s =
    (record s { in_shutdown = true; done_chan = closed_chan }, ground arith, refl, refl, refl, refl)

-- However often a listener is closed, the one inside is closed once, and each Close has the answer
-- of the first.
pub close_times_once :
    (n : ℕ) (answer : ℕ → Option ℕ)
    → close_times n answer (record { done = false; close_err = none; closes = 0 })
      ≡ (record { done = true; close_err = answer n; closes = 1 }, answer n)
unfolding close_times once_close
close_times_once zero answer = refl
close_times_once (suc n) answer =
    close_times_done n answer (record { done = true; close_err = answer (suc n); closes = 1 }) refl
