-- ===== src/Server/System/Listed.antt =====
-- The listeners of the server, by where Serve is.
use stratumserver.Prelude.{
  ℕ, ◌≡◌, refl, sym, ap, ◌∙◌, subst, Bool, true, false, List, [], ◌∷◌, Option, some, Bool-cases,
  inl, inr, if◌then◌else◌,
}
use stratumserver.Prelude.Int.{ℤ}
use stratumserver.Server.{delete, track_listener, shutting_down}
use stratumserver.Server.Conns.{close_idle_conns}
use stratumserver.Server.Accept.{failure, Turn, take_turn, Outcome}
use stratumserver.Server.Accept.Returns.{same_number}
use stratumserver.Server.System.{
  System, Phase, Step, server_of, swept_by, turned, counted, listened, unlistened, ended, listens,
  unlistens, activates, ends, begins, sweeps, counts, expires, Runs, stays, steps, starting,
  looping, leaving, fails, accepts, stores_new, launches, stores_closed, marks, accepted_by,
  new_stored, launched, end_stored,
}
use stratumserver.Server.Accept.{failure}
use stratumserver.Server.System.Ops.{IsFrame, track_conn-IsFrame, begun}
use stratumserver.Server.System.Turns.{turn_failure}
use stratumserver.Server.System.Orderly.{asked-IsFrame}
use stratumserver.Server.System.Phases.{is_up}

-- The listeners of the server are the one of Serve, while Serve tracks it.
unfoldable pub listed : ℕ → Phase → List ℕ
listed ln p = if is_up p then ln ∷ [] else []

unfoldable pub IsListed : ℕ → System → Type 0
IsListed ln y = (server_of y).listeners ≡ listed ln y.phase

frame :
    (ln : ℕ) (y z : System)
    → (server_of z).listeners ≡ (server_of y).listeners
    → is_up z.phase ≡ is_up y.phase
    → IsListed ln y
    → IsListed ln z
unfolding IsListed listed
frame ln y z lns up h = lns ∙ h ∙ ap (λ b. if b then ln ∷ [] else []) (sym up)

listens-IsListed :
    (ln : ℕ) (y : System) → y.phase ≡ starting → IsListed ln y → IsListed ln (listened ln y)
unfolding IsListed listened track_listener shutting_down listed
listens-IsListed ln y p h =
    let none_yet : (server_of y).listeners ≡ [] = h ∙ ap (listed ln) p in
    elim (Bool-cases (server_of y).in_shutdown) [
      | inl down ↦ rw (down, none_yet) refl
      | inr up ↦ rw (up, none_yet) refl
    ]

fails-IsListed :
    (ln : ℕ) (y : System) (now : ℤ) (n : ℕ) (temporary : Bool) (turn : Turn)
    → y.phase ≡ looping
    → take_turn y.loop now (failure n temporary) ≡ some turn
    → IsListed ln y
    → IsListed ln (turned y turn)
unfolding turned IsFrame
fails-IsListed ln y now n temporary turn p e h =
    let k = turn_failure y.loop now n temporary turn e in
    let same = (asked-IsFrame (server_of y) k.next.server k.asked).1 in
    elim k.result [
      | inl goes_on ↦ subst (λ t. IsListed ln (turned y t)) (sym goes_on) (frame ln y _ same refl h)
      | inr (o, leaves, _) ↦
          subst (λ t. IsListed ln (turned y t)) (sym leaves)
            (frame ln y _ same (sym (ap is_up p)) h)
    ]

deleted_all : (ln : ℕ) → delete ln (ln ∷ []) ≡ []
deleted_all ln = rw (same_number ln) refl

unlistens-IsListed :
    (ln : ℕ) (y : System) (o : Outcome)
    → y.phase ≡ leaving o
    → IsListed ln y
    → IsListed ln (unlistened ln y o)
unfolding unlistened track_listener IsListed listed
unlistens-IsListed ln y o p h = ap (delete ln) (h ∙ ap (listed ln) p) ∙ deleted_all ln

Step-IsListed :
    (ln : ℕ) (answer : ℕ → Option ℕ) (y z : System)
    → Step ln answer y z
    → IsListed ln y
    → IsListed ln z
unfolding ended end_stored accepted_by new_stored launched swept_by close_idle_conns counted IsFrame
Step-IsListed ln answer y _ (listens _ p) h = listens-IsListed ln y p h
Step-IsListed ln answer y _ (fails _ now n temporary turn p e) h =
    fails-IsListed ln y now n temporary turn p e h
Step-IsListed ln answer y _ (accepts _ c p out) h =
    frame ln y _ (track_conn-IsFrame (server_of y) c true).1 (sym (ap is_up p)) h
Step-IsListed ln answer y _ (stores_new _ now c p) h = frame ln y _ refl (sym (ap is_up p)) h
Step-IsListed ln answer y _ (launches _ c p) h = frame ln y _ refl (sym (ap is_up p)) h
Step-IsListed ln answer y _ (unlistens _ o p) h = unlistens-IsListed ln y o p h
Step-IsListed ln answer y _ (activates _ now c m) h = frame ln y _ refl refl h
Step-IsListed ln answer y _ (ends _ c m) h =
    frame ln y _ (track_conn-IsFrame (server_of y) c false).1 refl h
Step-IsListed ln answer y _ (stores_closed _ now c m) h = frame ln y _ refl refl h
Step-IsListed ln answer y _ (marks _ q) h = frame ln y _ refl refl h
Step-IsListed ln answer y _ (begins _ s err hooks q e) h =
    frame ln y _ (begun answer _ s err hooks e).listeners refl h
Step-IsListed ln answer y _ (sweeps _ now err q) h = frame ln y _ refl refl h
Step-IsListed ln answer y _ (counts _ err b q) h = frame ln y _ refl refl h
Step-IsListed ln answer y _ (expires _ err q) h = frame ln y _ refl refl h

pub Runs-IsListed :
    (ln : ℕ) (answer : ℕ → Option ℕ) (y z : System)
    → Runs ln answer y z
    → IsListed ln y
    → IsListed ln z
Runs-IsListed ln answer y _ (stays _) h = h
Runs-IsListed ln answer y w (steps _ z _ s r) h =
    Runs-IsListed ln answer z w r (Step-IsListed ln answer y z s h)
