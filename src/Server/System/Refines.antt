-- ===== src/Server/System/Refines.antt =====
-- The steps of the system as those of Server/Reach.
use stratumserver.Prelude.{ℕ, ◌≡◌, sym, ap, ◌∙◌, subst, Option, some, inl, inr, true, Bool, false}
use stratumserver.Prelude.Int.{ℤ}
use stratumserver.Server.{Server, state_new, state_active, state_closed}
use stratumserver.Server.Accept.{failure, Turn, take_turn}
use stratumserver.Server.Reach.{Reaches}
use stratumserver.Server.Reach
use stratumserver.Server.System.{
  System, Step, server_of, swept_by, turned, counted, listened, unlistened, ended, listens,
  unlistens, activates, ends, begins, sweeps, counts, expires, fails, accepts, stores_new, launches,
  stores_closed, marks, accepted_by, new_stored, launched, end_stored,
}
use stratumserver.Server.System.Turns.{turn_failure}
use stratumserver.Server.System.Phases.{is_called}

one : (s t : Server) → Reach.Step s t → Reaches s t
one s t h = Reach.steps s t t h (Reach.stays t)

fails-Reaches :
    (y : System) (now : ℤ) (n : ℕ) (temporary : Bool) (turn : Turn)
    → take_turn y.loop now (failure n temporary) ≡ some turn
    → Reaches (server_of y) (server_of (turned y turn))
unfolding turned
fails-Reaches y now n temporary turn e =
    let k = turn_failure y.loop now n temporary turn e in
    let asks : Reaches (server_of y) k.next.server =
      subst (Reaches (server_of y)) (sym k.asked) (one _ _ (Reach.asks (server_of y))) in
    elim k.result [
      | inl goes_on ↦ subst (λ t. Reaches (server_of y) (server_of (turned y t))) (sym goes_on) asks
      | inr (o, leaves, _) ↦
          subst (λ t. Reaches (server_of y) (server_of (turned y t))) (sym leaves) asks
    ]

-- Each step of the system, of which the mark of the server tells whether Shutdown was called, is at
-- most one of Server/Reach.
pub Step-Reaches :
    (ln : ℕ) (answer : ℕ → Option ℕ) (y z : System)
    → Step ln answer y z
    → (server_of y).in_shutdown ≡ is_called y.stage
    → Reaches (server_of y) (server_of z)
unfolding listened unlistened ended end_stored swept_by counted accepted_by new_stored launched
Step-Reaches ln answer y _ (listens _ p) m = one _ _ (Reach.listens (server_of y) ln)
Step-Reaches ln answer y _ (fails _ now n temporary turn p e) m =
    fails-Reaches y now n temporary turn e
Step-Reaches ln answer y _ (accepts _ c p out) m = one _ _ (Reach.tracks (server_of y) c true)
Step-Reaches ln answer y _ (stores_new _ now c p) m =
    one _ _ (Reach.stores (server_of y) now c state_new)
Step-Reaches ln answer y _ (launches _ c p) m = Reach.stays (server_of y)
Step-Reaches ln answer y _ (unlistens _ o p) m = one _ _ (Reach.unlistens (server_of y) ln)
Step-Reaches ln answer y _ (activates _ now c live) m =
    one _ _ (Reach.stores (server_of y) now c state_active)
Step-Reaches ln answer y _ (ends _ c live) m = one _ _ (Reach.tracks (server_of y) c false)
Step-Reaches ln answer y _ (stores_closed _ now c ending) m =
    one _ _ (Reach.stores (server_of y) now c state_closed)
Step-Reaches ln answer y _ (marks _ q) m = one _ _ (Reach.marks (server_of y))
Step-Reaches ln answer y _ (begins _ s err hooks q e) m =
    one _ _ (Reach.begins (server_of y) answer s err hooks (m ∙ ap is_called q) e)
Step-Reaches ln answer y _ (sweeps _ now err q) m = one _ _ (Reach.sweeps (server_of y) now)
Step-Reaches ln answer y _ (counts _ err b q) m = Reach.stays (server_of y)
Step-Reaches ln answer y _ (expires _ err q) m = Reach.stays (server_of y)
