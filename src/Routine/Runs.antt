-- ===== src/Routine/Runs.antt =====
-- The servers that Runtime starts and stops.
use stratumserver.Prelude.{
  ℕ, suc, ◌≡◌, refl, ◌∙◌, true, false, List, [], ◌∷◌, Option, none, some, All,
}
use stratumserver.Server.{Server}
use stratumserver.Server.Shutdown.{
  Poll, ShutdownResult, quiet, out_of_time, waiting, shutdown_loop, close_listeners_locked,
}
use stratumserver.Server.Shutdown.Begin.{shutdown_begin_lem}
use stratumserver.Server.Shutdown.Graceful.{shutdown_loop-quiet}
use stratumserver.Ctx.{ConfOpts}
use stratumserver.Routine.{
  StratumServerContext, Stopping, Signal, done, updated, Routine, new_server, serv_start, shutdown,
  Stop, stopped_well, stopped_badly, stopping, after_shutdown, serv_shutdown, Next, again, finished,
  failed, blocked, ended, select, run_loop, runtime,
}

-- The server was told to stop, it tracks no listener, and the goroutine that listened has ended.
abbrev pub IsOver : StratumServerContext → Type 0
IsOver c = (c.shut ≡ true) × (c.joined ≡ true) × (c.server.listeners ≡ [])

IsStopped : Stop → Type 0
IsStopped (stopped_well c) = IsOver c
IsStopped (stopped_badly c) = c.shut ≡ true
IsStopped (stopping c) = c.shut ≡ true

after_shutdown-IsStopped :
    (c : StratumServerContext) (lnerr : Option ℕ) (s : Server) (ps : List Poll) (r : ShutdownResult)
    → shutdown_loop lnerr s ps ≡ r
    → IsStopped (after_shutdown c r)
unfolding after_shutdown IsStopped
after_shutdown-IsStopped c lnerr s ps (quiet t none) e =
    (refl, refl, (shutdown_loop-quiet lnerr none s t ps e).unlistened)
after_shutdown-IsStopped c lnerr s ps (quiet t (some n)) e = refl
after_shutdown-IsStopped c lnerr s ps (out_of_time t) e = refl
after_shutdown-IsStopped c lnerr s ps (waiting t) e = refl

serv_shutdown_total :
    (st : Stopping) (c : StratumServerContext)
    → (stop : Stop) × (serv_shutdown st c ≡ some stop) × IsStopped stop
unfolding serv_shutdown shutdown
serv_shutdown_total st c =
    let (begun, e, _, _, _, _) = shutdown_begin_lem st.answer (st.meanwhile c.server) in
    let lnerr = close_listeners_locked st.answer (st.meanwhile c.server) in
    (
      after_shutdown c (shutdown_loop lnerr begun st.polls),
      rw e refl,
      after_shutdown-IsStopped c lnerr begun st.polls _ refl,
    )

-- Every server but the current one is over.
pub IsSingle : Routine → Type 0
IsSingle r = All IsOver r.past

pub routine_of : Next → Routine
routine_of (again r) = r
routine_of (finished r) = r
routine_of (failed r) = r
routine_of (blocked r) = r

-- The configuration that the context had when the last server was started.
unfoldable pub last_conf : ConfOpts → List Signal → ConfOpts
last_conf conf [] = conf
last_conf conf (done st ∷ sigs) = last_conf conf sigs
last_conf conf (updated conf' st ∷ sigs) = last_conf conf' sigs

-- The current server is a new one for the configuration, or it was told to stop.
pub IsTold : ConfOpts → Next → Type 0
IsTold conf (again r) = (r.current.shut ≡ false) × (r.current.server ≡ new_server conf)
IsTold conf (finished r) = r.current.shut ≡ true
IsTold conf (failed r) = r.current.shut ≡ true
IsTold conf (blocked r) = r.current.shut ≡ true

abbrev IsFine : ConfOpts → Option Next → Type 0
IsFine conf o = (n : Next) × (o ≡ some n) × IsSingle (routine_of n) × IsTold conf n

ended-IsFine :
    (conf : ConfOpts) (r : Routine) (stop : Stop)
    → IsSingle r
    → IsStopped stop
    → IsSingle (routine_of (ended r stop)) × IsTold conf (ended r stop)
unfolding IsSingle routine_of IsTold IsStopped
ended-IsFine conf r (stopped_well c) h k = (h, k.0)
ended-IsFine conf r (stopped_badly c) h k = (h, k)
ended-IsFine conf r (stopping c) h k = (h, k)

done_run :
    (r : Routine) (st : Stopping) (sigs : List Signal) (stop : Stop)
    → serv_shutdown st r.current ≡ some stop
    → run_loop r (done st ∷ sigs) ≡ some (ended r stop)
unfolding run_loop select
done_run r st sigs (stopped_well c) e = rw e refl
done_run r st sigs (stopped_badly c) e = rw e refl
done_run r st sigs (stopping c) e = rw e refl

-- The routine after a restart.
abbrev replaced : Routine → ConfOpts → StratumServerContext → Routine
replaced r conf c = record {
  current = serv_start conf r.started;
  past = c ∷ r.past;
  started = suc r.started;
}

updated_well :
    (r : Routine) (conf : ConfOpts) (st : Stopping) (sigs : List Signal) (c : StratumServerContext)
    → serv_shutdown st r.current ≡ some (stopped_well c)
    → run_loop r (updated conf st ∷ sigs) ≡ run_loop (replaced r conf c) sigs
unfolding run_loop select
updated_well r conf st sigs c e = rw e refl

updated_badly :
    (r : Routine) (conf : ConfOpts) (st : Stopping) (sigs : List Signal) (c : StratumServerContext)
    → serv_shutdown st r.current ≡ some (stopped_badly c)
    → run_loop r (updated conf st ∷ sigs) ≡ some (failed (record r { current = c }))
unfolding run_loop select
updated_badly r conf st sigs c e = rw e refl

updated_stopping :
    (r : Routine) (conf : ConfOpts) (st : Stopping) (sigs : List Signal) (c : StratumServerContext)
    → serv_shutdown st r.current ≡ some (stopping c)
    → run_loop r (updated conf st ∷ sigs) ≡ some (blocked (record r { current = c }))
unfolding run_loop select
updated_stopping r conf st sigs c e = rw e refl

updated-IsFine :
    (conf last : ConfOpts) (r : Routine) (st : Stopping) (sigs : List Signal) (stop : Stop)
    → serv_shutdown st r.current ≡ some stop
    → IsStopped stop
    → IsSingle r
    → ((c : StratumServerContext)
        → IsSingle (replaced r conf c)
        → IsFine last (run_loop (replaced r conf c) sigs))
    → IsFine last (run_loop r (updated conf st ∷ sigs))
unfolding IsSingle routine_of IsTold IsStopped
updated-IsFine conf last r st sigs (stopped_well c) e k h rest =
    let (n, run, single, known) = rest c (k, h) in
    (n, updated_well r conf st sigs c e ∙ run, single, known)
updated-IsFine conf last r st sigs (stopped_badly c) e k h rest =
    (_, updated_badly r conf st sigs c e, h, k)
updated-IsFine conf last r st sigs (stopping c) e k h rest =
    (_, updated_stopping r conf st sigs c e, h, k)

run_loop-IsFine :
    (conf : ConfOpts) (r : Routine) (sigs : List Signal)
    → IsSingle r
    → (r.current.shut ≡ false) × (r.current.server ≡ new_server conf)
    → IsFine (last_conf conf sigs) (run_loop r sigs)
unfolding last_conf serv_start IsTold routine_of
run_loop-IsFine conf r [] h k = (again r, (unfold run_loop in refl), h, k)
run_loop-IsFine conf r (done st ∷ sigs) h k =
    let (stop, e, stopped) = serv_shutdown_total st r.current in
    let (single, known) = ended-IsFine (last_conf conf sigs) r stop h stopped in
    (ended r stop, done_run r st sigs stop e, single, known)
run_loop-IsFine conf r (updated conf' st ∷ sigs) h k =
    let (stop, e, stopped) = serv_shutdown_total st r.current in
    updated-IsFine conf' (last_conf conf' sigs) r st sigs stop e stopped h
      (λ c single. run_loop-IsFine conf' (replaced r conf' c) sigs single (refl, refl))

-- Runtime never panics, whatever signals arrive and whatever Shutdown meets. Each server but the last
-- was told to stop, tracks no listener, and its goroutine has ended; and the last one is new, for the
-- configuration that came last, or it was told to stop.
pub runtime-IsSingle :
    (conf : ConfOpts) (sigs : List Signal)
    → (n : Next) × (runtime conf sigs ≡ some n)
      × IsSingle (routine_of n)
      × IsTold (last_conf conf sigs) n
unfolding runtime
runtime-IsSingle conf sigs =
    run_loop-IsFine conf (record { current = serv_start conf 0; past = []; started = 1 }) sigs
      (unfold IsSingle in tt) (unfold serv_start in (refl, refl))
