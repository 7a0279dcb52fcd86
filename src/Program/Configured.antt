-- ===== src/Program/Configured.antt =====
-- The configuration that the running server has.
use stratumserver.Prelude.{ℕ, ◌≡◌, refl, ap, ◌∙◌, subst, true, List, [], ◌∷◌, none, some}
use stratumserver.Ctx.{
  ConfOpts, Flags, config_path, args_read, Load, init, conf_read, reload, good_confs, last_or, step,
}
use stratumserver.Routine.{Stopping, Next, runtime}
use stratumserver.Routine.Runs.{last_conf, routine_of, IsSingle, IsTold, runtime-IsSingle}
use stratumserver.Program.{Event, reloading, signals, ran, exited, create, begin, main}

-- Reloads that the routine is told of.
pub told_of : List (Load × Stopping) → List Event
told_of [] = []
told_of ((load, st) ∷ rs) = reloading load true st ∷ told_of rs

pub loads_of : List (Load × Stopping) → List Load
loads_of [] = []
loads_of ((load, st) ∷ rs) = load ∷ loads_of rs

last_conf-signals :
    (path : List ℕ) (conf : ConfOpts) (rs : List (Load × Stopping))
    → last_conf conf (signals path conf (told_of rs)) ≡ last_or conf (good_confs path (loads_of rs))
unfolding last_conf signals told_of loads_of good_confs last_or reload init conf_read
last_conf-signals path conf [] = refl
last_conf-signals path conf ((load, st) ∷ rs) =
    last_conf-signals path _ rs ∙ step conf (load path) (good_confs path (loads_of rs))

begun :
    (path : List ℕ) (load : Load) (es : List Event) (flags : Flags) (conf : ConfOpts)
    → args_read flags ≡ config_path path
    → load path ≡ (conf, none)
    → main flags load es ≡ ran (runtime conf (signals path conf es))
unfolding main begin create init conf_read
begun path load es flags conf a e = rw (a, e) refl

-- If the first configuration is read without an error and all that happens after is reloads, of each of
-- which the routine is told, also if its configuration cannot be read: then the program runs, never panics
-- in Runtime, and its server is new for the configuration that was read last without an error, or it was
-- told to stop; each server before it is over. Terminating signals are not among these events.
pub main_configured :
    (path : List ℕ) (load : Load) (rs : List (Load × Stopping)) (flags : Flags) (conf : ConfOpts)
    → args_read flags ≡ config_path path
    → load path ≡ (conf, none)
    → (n : Next) × (main flags load (told_of rs) ≡ ran (some n))
      × IsSingle (routine_of n)
      × IsTold (last_or conf (good_confs path (loads_of rs))) n
main_configured path load rs flags conf a e =
    let (n, run, single, known) = runtime-IsSingle conf (signals path conf (told_of rs)) in
    (
      n,
      begun path load (told_of rs) flags conf a e ∙ ap ran run,
      single,
      subst (λ c. IsTold c n) (last_conf-signals path conf rs) known,
    )

-- With no help and no version asked for, a first configuration that cannot be read ends the program
-- with the status 1, whatever happens later.
pub main_exits :
    (path : List ℕ) (load : Load) (es : List Event) (flags : Flags) (conf : ConfOpts) (err : ℕ)
    → args_read flags ≡ config_path path
    → load path ≡ (conf, some err)
    → main flags load es ≡ exited 1
unfolding main begin create init conf_read
main_exits path load es flags conf err a e = rw (a, e) refl
