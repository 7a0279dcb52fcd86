-- ===== src/Server/System/Still.antt =====
-- The system after Shutdown has returned.
use mathlib.Core.Bool.{true≢false}
use stratumserver.Prelude.{
  ℕ, ◌≡◌, refl, sym, ap, ◌∙◌, Bool, true, false, ◌&&◌, ◌||◌, not, Option, arith, ◌≢◌,
}
use stratumserver.Server.{Server, member}
use stratumserver.Server.Conns.Idle.{member-delete}
use stratumserver.Server.Reach.{implies}
use stratumserver.Server.System.{
  System, Stage, swept, not_called, Step, polling, listened, unlistened, ended, listens, fails,
  accepts, stores_new, launches, stores_closed, marks, marked, end_stored, unlistens, activates,
  ends, begins, sweeps, counts, expires, Runs, stays, steps, start,
}
use stratumserver.Server.System.Phases.{is_up, is_returned, IsOrderly}
use stratumserver.Server.System.Orderly.{Runs-IsOrderly}
use stratumserver.Server.System.Returned.{IsFresh, start-IsOrderly}

-- Nothing but the ends of connections.
pub record IsStill (y z : System) : Type 0 where
  pub stage : z.stage ≡ y.stage
  pub started : z.loop.started ≡ y.loop.started
  pub fewer : (c : ℕ) → member c z.live ≡ true → member c y.live ≡ true

same :
    (y z : System)
    → z.stage ≡ y.stage
    → z.loop.started ≡ y.loop.started
    → z.live ≡ y.live
    → IsStill y z
same y z stage started live = record {
  stage = stage;
  started = started;
  fewer = λ c m. ap (member c) (sym live) ∙ m;
}

-- Shutdown has returned, so it is not elsewhere.
elsewhere : (st other : Stage) → is_returned st ≡ true → is_returned other ≡ false → st ≢ other
elsewhere st other r e q = true≢false (sym r ∙ ap is_returned q ∙ e)

fst_and : (a b : Bool) → (a && b) ≡ true → a ≡ true
fst_and a b h = ground arith

Step-IsStill :
    (ln : ℕ) (answer : ℕ → Option ℕ) (y z : System)
    → Step ln answer y z
    → IsOrderly ln y
    → is_returned y.stage ≡ true
    → IsStill y z
unfolding listened unlistened ended end_stored
Step-IsStill ln answer y _ (listens _ e) h r = same y _ refl refl refl
Step-IsStill ln answer y _ (fails _ now n temporary turn p e) h r =
    absurd (true≢false (sym (ap is_up p) ∙ h.down r))
Step-IsStill ln answer y _ (accepts _ c p out) h r =
    absurd (true≢false (sym (ap is_up p) ∙ h.down r))
Step-IsStill ln answer y _ (stores_new _ now c p) h r =
    absurd (true≢false (sym (ap is_up p) ∙ h.down r))
Step-IsStill ln answer y _ (launches _ c p) h r = absurd (true≢false (sym (ap is_up p) ∙ h.down r))
Step-IsStill ln answer y _ (unlistens _ o e) h r = same y _ refl refl refl
Step-IsStill ln answer y _ (activates _ now c m) h r = same y _ refl refl refl
Step-IsStill ln answer y _ (ends _ c m) h r = record {
  stage = refl;
  started = refl;
  fewer = λ x k. fst_and _ _ (sym (member-delete x c y.live) ∙ k);
}
Step-IsStill ln answer y _ (stores_closed _ now c m) h r = same y _ refl refl refl
Step-IsStill ln answer y _ (marks _ q) h r = absurd (elsewhere y.stage not_called r refl q)
Step-IsStill ln answer y _ (begins _ s err hooks q e) h r =
    absurd (elsewhere y.stage marked r refl q)
Step-IsStill ln answer y _ (sweeps _ now err q) h r =
    absurd (elsewhere y.stage (polling err) r refl q)
Step-IsStill ln answer y _ (counts _ err b q) h r =
    absurd (elsewhere y.stage (swept err b) r refl q)
Step-IsStill ln answer y _ (expires _ err q) h r = absurd (elsewhere y.stage (polling err) r refl q)

Runs-IsStill :
    (ln : ℕ) (answer : ℕ → Option ℕ) (y z : System)
    → Runs ln answer y z
    → IsOrderly ln y
    → is_returned y.stage ≡ true
    → IsStill y z
Runs-IsStill ln answer y _ (stays _) h r = same y y refl refl refl
Runs-IsStill ln answer y w (steps _ z _ s rest) h r =
    let one = Step-IsStill ln answer y z s h r in
    let later =
      Runs-IsStill ln answer z w rest (Runs-IsOrderly ln answer y z (steps y z z s (stays z)) h)
        (ap is_returned one.stage ∙ r) in
    record {
      stage = later.stage ∙ one.stage;
      started = later.started ∙ one.started;
      fewer = λ c m. one.fewer c (later.fewer c m);
    }

-- After Shutdown has returned without an error of its context, whatever the other goroutines do, no
-- connection is started, so that those whose goroutine runs, up to the trackConn at its end, are among
-- those that ran when it returned.
pub returned_stays :
    (ln : ℕ) (answer : ℕ → Option ℕ) (s : Server) (y z : System)
    → IsFresh s
    → Runs ln answer (start s) y
    → is_returned y.stage ≡ true
    → Runs ln answer y z
    → (z.stage ≡ y.stage)
      × (z.loop.started ≡ y.loop.started)
      × ((c : ℕ) → (not (member c z.live) || member c y.live) ≡ true)
returned_stays ln answer s y z h r e later =
    let k = Runs-IsOrderly ln answer _ y r (start-IsOrderly ln s h) in
    let still = Runs-IsStill ln answer y z later k e in
    (still.stage, still.started, λ c. implies _ _ (still.fewer c))
