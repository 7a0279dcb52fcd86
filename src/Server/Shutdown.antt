-- ===== src/Server/Shutdown.antt =====
-- Shutdown and onceCloseListener of stratum/server/server.go. An error is a number; `none` is nil.
pub mod Begin
pub mod Graceful
use stratumserver.Prelude.{
  ℕ, suc, ◌+◌, ◌==◌, Bool, true, false, ◌&&◌, List, [], ◌∷◌, Option, none, some, if◌then◌else◌,
  ◌>>=◌,
}
use stratumserver.Prelude.Int.{ℤ}
use stratumserver.Server.{Server, close_done_chan_locked, num_listeners}
use stratumserver.Server.Conns.{close_idle_conns}

-- A listener that is closed once, with the number of times that the one inside was closed.
pub record OnceCloseListener : Type 0 where
  pub done : Bool
  pub close_err : Option ℕ
  pub closes : ℕ

-- Close, with what the listener inside answers if it is asked.
unfoldable pub once_close : Option ℕ → OnceCloseListener → OnceCloseListener × Option ℕ
once_close answer oc =
    if oc.done
    then (oc, oc.close_err)
    else (record { done = true; close_err = answer; closes = suc oc.closes }, answer)

-- `if cerr != nil && err == nil`
abbrev pub first_error : Option ℕ → Option ℕ → Option ℕ
first_error (some e) cerr = some e
first_error none cerr = cerr

-- `for ln := range s.listeners`, with the answer of each Close.
unfoldable pub close_loop : (ℕ → Option ℕ) → List ℕ → Option ℕ → Option ℕ
close_loop answer [] err = err
close_loop answer (ln ∷ lns) err = close_loop answer lns (first_error err (answer ln))

unfoldable pub close_listeners_locked : (ℕ → Option ℕ) → Server → Option ℕ
unfolding close_loop
close_listeners_locked answer s = close_loop answer s.listeners none

-- `s.inShutdown.setTrue()`
abbrev pub shutdown_mark : Server → Server
shutdown_mark s = record s { in_shutdown = true }

-- What Shutdown does under `s.mu`: the server, the error of the listeners, and the callbacks that are
-- started.
abbrev pub shutdown_locked : (ℕ → Option ℕ) → Server → Option (Server × Option ℕ × List ℕ)
shutdown_locked answer s = do
  let lnerr : Option ℕ = close_listeners_locked answer s
  closed ← close_done_chan_locked s
  some (closed, lnerr, closed.on_shutdown)

-- Shutdown up to its loop, without other goroutines between the two: the server, the error of the listeners, and the callbacks that are started.
unfoldable pub shutdown_begin : (ℕ → Option ℕ) → Server → Option (Server × Option ℕ × List ℕ)
shutdown_begin answer s = shutdown_locked answer (shutdown_mark s)

-- One round of the loop: what other goroutines did before the sweep and between the sweep and the
-- count of the listeners, the time, and whether the context is done.
pub record Poll : Type 0 where
  pub before : Server → Server
  pub between : Server → Server
  pub now : ℤ
  pub expired : Bool

pub data ShutdownResult : Type 0 where
  quiet : Server → Option ℕ → ShutdownResult
  out_of_time : Server → ShutdownResult
  waiting : Server → ShutdownResult

unfoldable pub shutdown_loop : Option ℕ → Server → List Poll → ShutdownResult
shutdown_loop lnerr s [] = waiting s
shutdown_loop lnerr s (p ∷ ps) =
    let (swept, w) = close_idle_conns (p.before s) p.now in
    let s' = p.between swept in
    let rest = shutdown_loop lnerr s' ps in
    if w.quiescent && num_listeners s' == 0
    then quiet s' lnerr
    else if p.expired
    then out_of_time s'
    else rest
