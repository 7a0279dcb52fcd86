-- ===== src/Server/System/Returned.antt =====
-- What holds of the goroutines together, and what a return of Shutdown means.
use mathlib.Core.Bool.{false≢true}
use stratumserver.Prelude.{ℕ, ◌≡◌, refl, sym, ◌∙◌, Bool, true, false, ◌||◌, not, [], Option, arith}
use stratumserver.Server.{Server, member, unmade}
use stratumserver.Server.Reach.{implies, open_first, IsOrdered}
use stratumserver.Server.System.{
  System, Stage, swept, returned, expired, not_called, server_of, polling, Runs, start, pending,
  marked,
}
use stratumserver.Server.System.Tracked.{is_settled, is_running}
use stratumserver.Server.System.Apart.{start-IsApart}
use stratumserver.Server.System.Live.{Runs-IsTracked, start-IsTracked}
use stratumserver.Server.System.Phases.{is_up, is_called, is_returned, is_refused, IsOrderly}
use stratumserver.Server.System.Orderly.{Runs-IsOrderly}

-- A server of which nothing was called yet.
pub record IsFresh (s : Server) : Type 0 where
  pub no_conns : s.active_conn ≡ []
  pub running : s.in_shutdown ≡ false
  pub no_chan : s.done_chan ≡ unmade

pub start-IsOrderly : (ln : ℕ) (s : Server) → IsFresh s → IsOrderly ln (start s)
unfolding start IsOrdered
start-IsOrderly ln s h = record {
  up = λ u. absurd (false≢true u);
  marked = h.running;
  down = λ r. refl;
  refused = λ r. absurd (false≢true r);
  chan = λ e. absurd (open_first (sym h.no_chan ∙ e));
}

settled_if_returned : (st : Stage) → is_returned st ≡ true → is_settled st ≡ true
settled_if_returned (returned err) e = refl
settled_if_returned not_called e = e
settled_if_returned marked e = absurd (false≢true e)
settled_if_returned (polling err) e = absurd (false≢true e)
settled_if_returned (swept err q) e = absurd (false≢true e)
settled_if_returned expired e = e

live_runs : (a b : Bool) → b ≡ true → (a || b) ≡ true
live_runs a b m = ground arith

module _ (ln : ℕ) (answer : ℕ → Option ℕ) (s : Server) (y : System) where
  -- However the goroutines interleave, the server tracks a connection only from the trackConn of Serve,
  -- before which it does not run, to that of the connection's goroutine at its end; and in all this time
  -- it is tracked, or closeIdleConns closed it.
  pub system_tracked :
      IsFresh s
      → Runs ln answer (start s) y
      → (c : ℕ)
      → ((not (member c (server_of y).active_conn) || is_running y c) ≡ true)
        × ((not (is_running y c) || (member c (server_of y).active_conn || member c y.closed))
            ≡ true)
  system_tracked h r c =
      let k = Runs-IsTracked ln answer _ y r (start-IsApart s) (start-IsTracked s h.no_conns) in
      (implies _ _ (k.tracked_live c), implies _ _ (k.live_known c))

  -- Serve answers ErrServerClosed only if Shutdown was called.
  pub system_refused :
      IsFresh s → Runs ln answer (start s) y → is_refused y.phase ≡ true → is_called y.stage ≡ true
  system_refused h r e =
      let k = Runs-IsOrderly ln answer _ y r (start-IsOrderly ln s h) in sym k.marked ∙ k.refused e

  -- When Shutdown has returned without an error of its context, Serve has given its listener up or has
  -- not tracked it, and a connection whose goroutine still runs, and has not come to the trackConn at its
  -- end, was closed by closeIdleConns or was tracked and started after the last call of it.
  pub system_returned :
      IsFresh s
      → Runs ln answer (start s) y
      → is_returned y.stage ≡ true
      → (is_up y.phase ≡ false)
        × ((c : ℕ) → member c y.live ≡ true → (member c y.closed || member c y.late) ≡ true)
  system_returned h r e =
      let k = Runs-IsTracked ln answer _ y r (start-IsApart s) (start-IsTracked s h.no_conns) in
      let o = Runs-IsOrderly ln answer _ y r (start-IsOrderly ln s h) in
      (
        o.down e,
        λ c m.
            k.settled (settled_if_returned y.stage e) c
              (live_runs (member c (pending y.phase)) _ m),
      )
