-- ===== src/Routine.antt =====
-- Runtime of routines/stratum-server/stratum-server.go: start, restart and stop of the server, over the
-- server of Server.antt. `none` is a panic.
mod Tests
pub mod Runs
pub mod Listens
use stratumserver.Prelude.{
  ℕ, suc, ◌+◌, ◌*◌, Bool, true, false, not, ◌&&◌, List, [], ◌∷◌, Option, none, some, if◌then◌else◌,
  ◌>>=◌,
}
use stratumserver.Prelude.Int.{ℤ, pos}
use stratumserver.Server.{Server, unmade}
use stratumserver.Server.Shutdown.{
  shutdown_begin, Poll, ShutdownResult, quiet, out_of_time, waiting, shutdown_loop,
}
use stratumserver.Server.Accept.{Arrival, Answer, listen_and_serve}
use stratumserver.Server.Tls.{Network, Tls, listen_and_serve_tls, is_empty}
use stratumserver.Ctx.{ConfOpts}

-- One incarnation of the server, known by a number: whether Shutdown was called on it, and whether the
-- goroutine that listens was waited for.
pub record StratumServerContext : Type 0 where
  pub id : ℕ
  pub server : Server
  pub shut : Bool
  pub joined : Bool

-- What happens to a server that is told to stop: what its goroutines did before, what its listeners
-- answer to Close, and the rounds of Shutdown's loop.
pub record Stopping : Type 0 where
  pub meanwhile : Server → Server
  pub answer : ℕ → Option ℕ
  pub polls : List Poll

-- What Runtime's select takes: the end of the program, or new settings, with what the context holds
-- from then on.
pub data Signal : Type 0 where
  done : Stopping → Signal
  updated : ConfOpts → Stopping → Signal

-- The server that runs, those before it, latest first, and how many were started.
pub record Routine : Type 0 where
  pub current : StratumServerContext
  pub past : List StratumServerContext
  pub started : ℕ

-- The literal of servStart: an address and two times of 3000 seconds.
unfoldable pub new_server : ConfOpts → Server
new_server conf = record {
  addr = conf.bind;
  read_timeout = pos (3000 * 1000000000);
  read_header_timeout = pos 0;
  write_timeout = pos (3000 * 1000000000);
  idle_timeout = pos 0;
  max_header_bytes = pos 0;
  in_shutdown = false;
  listeners = [];
  active_conn = [];
  done_chan = unmade;
  on_shutdown = [];
  cur_state = λ c. 0;
}

unfoldable pub serv_start : ConfOpts → ℕ → StratumServerContext
unfolding new_server
serv_start conf n = record { id = n; server = new_server conf; shut = false; joined = false }

-- What the goroutine of servStart gets: from ListenAndServeTLS or from ListenAndServe.
pub data Listened (net : Network) : Type 0 where
  over_tls : Tls net → Listened net
  plain : Answer → Listened net

unfoldable pub serv_listen :
    (net : Network) → ConfOpts → Server → List Arrival → Option (Listened net)
serv_listen net conf s ps =
    if not (is_empty conf.tls.cert_file) && not (is_empty conf.tls.key_file)
    then (do
      t ← listen_and_serve_tls net s none conf.tls.cert_file conf.tls.key_file ps
      some (over_tls t))
    else (do a ← listen_and_serve net.listen net.close_answer net.meanwhile s ps; some (plain a))

-- Shutdown from its begin.
unfoldable pub shutdown : (ℕ → Option ℕ) → List Poll → Server → Option ShutdownResult
shutdown answer polls s = do
  (begun, lnerr, hooks) ← shutdown_begin answer s
  some (shutdown_loop lnerr begun polls)

-- servShutdown: nil, an error, or not returned yet.
pub data Stop : Type 0 where
  stopped_well : StratumServerContext → Stop
  stopped_badly : StratumServerContext → Stop
  stopping : StratumServerContext → Stop

abbrev told : StratumServerContext → Server → StratumServerContext
told c s = record c { server = s; shut = true }

-- `<-s.done` if Shutdown had no error.
unfoldable pub after_shutdown : StratumServerContext → ShutdownResult → Stop
after_shutdown c (quiet s none) = stopped_well (record (told c s) { joined = true })
after_shutdown c (quiet s (some e)) = stopped_badly (told c s)
after_shutdown c (out_of_time s) = stopped_badly (told c s)
after_shutdown c (waiting s) = stopping (told c s)

unfoldable pub serv_shutdown : Stopping → StratumServerContext → Option Stop
unfolding shutdown after_shutdown
serv_shutdown st c = do
  r ← shutdown st.answer st.polls (st.meanwhile c.server)
  some (after_shutdown c r)

-- Where Runtime is: in its select, returned at the end or after an error, or in a Shutdown.
pub data Next : Type 0 where
  again : Routine → Next
  finished : Routine → Next
  failed : Routine → Next
  blocked : Routine → Next

-- The end of the program: an error is only logged.
abbrev ended : Routine → Stop → Next
ended r (stopped_well c) = finished (record r { current = c })
ended r (stopped_badly c) = finished (record r { current = c })
ended r (stopping c) = blocked (record r { current = c })

-- servRestart
abbrev restarted : Routine → ConfOpts → Stop → Next
restarted r conf (stopped_well c) =
    again
      (record { current = serv_start conf r.started; past = c ∷ r.past; started = suc r.started })
restarted r conf (stopped_badly c) = failed (record r { current = c })
restarted r conf (stopping c) = blocked (record r { current = c })

unfoldable pub select : Routine → Signal → Option Next
unfolding serv_shutdown
select r (done st) = do stop ← serv_shutdown st r.current; some (ended r stop)
select r (updated conf st) = do stop ← serv_shutdown st r.current; some (restarted r conf stop)

unfoldable pub run_loop : Routine → List Signal → Option Next
run_loop r [] = some (again r)
run_loop r (sig ∷ sigs) = do
  next ← select r sig
  elim next [
    | again r' ↦ run_loop r' sigs
    | finished r' ↦ some (finished r')
    | failed r' ↦ some (failed r')
    | blocked r' ↦ some (blocked r')
  ]

-- Runtime, with the configuration of the context when it starts.
unfoldable pub runtime : ConfOpts → List Signal → Option Next
runtime conf sigs = run_loop (record { current = serv_start conf 0; past = []; started = 1 }) sigs
