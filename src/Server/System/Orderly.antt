-- ===== src/Server/System/Orderly.antt =====
-- Every step of the system for Serve and Shutdown.
use mathlib.Core.Bool.{false≢true, true≢false}
use stratumserver.Prelude.{
  ℕ, ◌≡◌, refl, sym, ap, ◌∙◌, subst, Bool, true, false, ◌&&◌, List, [], Option, some, arith,
  Bool-cases, inl, inr, if◌then◌else◌,
}
use stratumserver.Prelude.Int.{ℤ}
use stratumserver.Server.{
  Server, track_listener, member, get_done_chan_locked, num_listeners, closed_chan, is_closed,
}
use stratumserver.Server.Accept.{failure, Turn, take_turn, Outcome, server_closed, failed, serving}
use stratumserver.Server.Conns.{close_idle_conns}
use stratumserver.Server.Shutdown.Graceful.{length_zero}
use stratumserver.Server.Reach.{IsOrdered, reaches-IsOrdered}
use stratumserver.Server.System.{
  System, swept, returned, Step, server_of, with_server, swept_by, turned, polling, counted,
  unlistened, ended, listens, unlistens, activates, ends, begins, sweeps, counts, expires, Runs,
  stays, steps, looping, leaving, gone, Phase, marked, fails, accepts, stores_new, launches,
  stores_closed, marks, accepted_by, new_stored, launched, end_stored,
}
use stratumserver.Server.Shutdown.{shutdown_mark}
use stratumserver.Server.System.Turns.{turn_failure}
use stratumserver.Server.System.Ops.{IsFrame, track_conn-IsFrame, begun}
use stratumserver.Server.System.Refines.{Step-Reaches}
use stratumserver.Server.System.Phases.{
  is_up, is_called, is_returned, is_refused, IsOrderly, frame, listens-IsOrderly,
}

pub asked-IsFrame : (s t : Server) → t ≡ (get_done_chan_locked s).0 → IsFrame s t
unfolding get_done_chan_locked IsFrame
asked-IsFrame s t e = (ap (λ u. u.in_shutdown) e, ap (λ u. u.listeners) e)

was_closed : (s : Server) → is_closed (get_done_chan_locked s).1 ≡ true → s.done_chan ≡ closed_chan
unfolding get_done_chan_locked
was_closed s h = ground arith

leaving_refused : (o : Outcome) → is_refused (leaving o) ≡ true → o ≡ server_closed
leaving_refused server_closed e = refl
leaving_refused (failed n) e = absurd (false≢true e)
leaving_refused serving e = absurd (false≢true e)

gone_refused : (o : Outcome) → is_refused (gone o) ≡ is_refused (leaving o)
gone_refused server_closed = refl
gone_refused (failed n) = refl
gone_refused serving = refl

fails-IsOrderly :
    (ln : ℕ) (y : System) (now : ℤ) (n : ℕ) (temporary : Bool) (turn : Turn)
    → y.phase ≡ looping
    → take_turn y.loop now (failure n temporary) ≡ some turn
    → IsOrdered (server_of (turned y turn))
    → IsOrderly ln y
    → IsOrderly ln (turned y turn)
unfolding turned IsFrame IsOrdered
fails-IsOrderly ln y now n temporary turn p e chan h =
    let k = turn_failure y.loop now n temporary turn e in
    let same = asked-IsFrame (server_of y) k.next.server k.asked in
    elim k.result [
      | inl goes_on ↦
          subst (λ t. IsOrdered (server_of (turned y t)) → IsOrderly ln (turned y t)) (sym goes_on)
            (λ chan'. frame ln y _ same chan' (refl, refl, refl) (λ q. q) h) chan
      | inr (o, leaves, shut) ↦
          subst (λ t. IsOrdered (server_of (turned y t)) → IsOrderly ln (turned y t)) (sym leaves)
            (λ chan'. record {
              up = λ u. ap (member ln) same.1 ∙ h.up (ap is_up p);
              marked = same.0 ∙ h.marked;
              down = λ r. absurd (true≢false (sym (ap is_up p) ∙ h.down r));
              refused =
                  λ r. same.0 ∙ h.chan (was_closed (server_of y) (shut (leaving_refused o r)));
              chan = chan';
            })
            chan
    ]

unlistens-IsOrderly :
    (ln : ℕ) (y : System) (o : Outcome)
    → y.phase ≡ leaving o
    → IsOrdered (server_of (unlistened ln y o))
    → IsOrderly ln y
    → IsOrderly ln (unlistened ln y o)
unfolding unlistened track_listener
unlistens-IsOrderly ln y o p chan h = record {
  up = λ u. absurd (false≢true u);
  marked = h.marked;
  down = λ r. refl;
  refused = λ r. h.refused (ap is_refused p ∙ sym (gone_refused o) ∙ r);
  chan = chan;
}

marks-IsOrderly :
    (ln : ℕ) (y : System)
    → IsOrderly ln y
    → IsOrderly ln (record (with_server y (shutdown_mark (server_of y))) { stage = marked })
unfolding IsOrdered
marks-IsOrderly ln y h = record {
  up = h.up;
  marked = refl;
  down = λ r. absurd (false≢true r);
  refused = λ r. refl;
  chan = λ e. refl;
}

count_called :
    (b : Bool) (err : Option ℕ) → is_called (if b then returned err else polling err) ≡ true
count_called true err = refl
count_called false err = refl

count_returned :
    (b : Bool) (err : Option ℕ)
    → is_returned (if b then returned err else polling err) ≡ true
    → b ≡ true
count_returned true err h = refl
count_returned false err h = h

snd_and : (a b : Bool) → (a && b) ≡ true → b ≡ true
snd_and a b h = ground arith

unlisted :
    (ln : ℕ) (xs : List ℕ) (p : Phase)
    → xs ≡ []
    → (is_up p ≡ true → member ln xs ≡ true)
    → is_up p ≡ false
unlisted ln xs p e h = elim (Bool-cases (is_up p)) [
  | inr down ↦ down
  | inl up ↦ absurd (false≢true (sym (ap (member ln) e) ∙ h up))
]

counts-IsOrderly :
    (ln : ℕ) (y : System) (err : Option ℕ) (q : Bool)
    → y.stage ≡ swept err q
    → IsOrderly ln y
    → IsOrderly ln (counted y err q)
unfolding counted num_listeners
counts-IsOrderly ln y err q e h = record {
  up = h.up;
  marked = h.marked ∙ ap is_called e ∙ sym (count_called _ err);
  down = λ r.
      unlisted ln (server_of y).listeners y.phase
        (length_zero _ (snd_and _ _ (count_returned _ err r))) h.up;
  refused = h.refused;
  chan = h.chan;
}

pub Step-IsOrderly :
    (ln : ℕ) (answer : ℕ → Option ℕ) (y z : System)
    → Step ln answer y z
    → IsOrdered (server_of z)
    → IsOrderly ln y
    → IsOrderly ln z
unfolding ended end_stored accepted_by new_stored launched swept_by close_idle_conns IsFrame
Step-IsOrderly ln answer y _ (listens _ p) o h = listens-IsOrderly ln y o h
Step-IsOrderly ln answer y _ (fails _ now n temporary turn p e) o h =
    fails-IsOrderly ln y now n temporary turn p e o h
Step-IsOrderly ln answer y _ (accepts _ c p out) o h =
    frame ln y _ (track_conn-IsFrame (server_of y) c true) o
      (sym (ap is_up p), sym (ap is_refused p), refl) (λ q. q) h
Step-IsOrderly ln answer y _ (stores_new _ now c p) o h =
    frame ln y _ (refl, refl) o (sym (ap is_up p), sym (ap is_refused p), refl) (λ q. q) h
Step-IsOrderly ln answer y _ (launches _ c p) o h =
    frame ln y _ (refl, refl) o (sym (ap is_up p), sym (ap is_refused p), refl) (λ q. q) h
Step-IsOrderly ln answer y _ (unlistens _ out p) o h = unlistens-IsOrderly ln y out p o h
Step-IsOrderly ln answer y _ (activates _ now c m) o h =
    frame ln y _ (refl, refl) o (refl, refl, refl) (λ q. q) h
Step-IsOrderly ln answer y _ (ends _ c m) o h =
    frame ln y _ (track_conn-IsFrame (server_of y) c false) o (refl, refl, refl) (λ q. q) h
Step-IsOrderly ln answer y _ (stores_closed _ now c m) o h =
    frame ln y _ (refl, refl) o (refl, refl, refl) (λ q. q) h
Step-IsOrderly ln answer y _ (marks _ q) o h = marks-IsOrderly ln y h
Step-IsOrderly ln answer y _ (begins _ s err hooks q e) o h =
    let b = begun answer (server_of y) s err hooks e in
    frame ln y _ (b.mark, b.listeners) o (refl, refl, sym (ap is_called q))
      (λ r. absurd (false≢true r)) h
Step-IsOrderly ln answer y _ (sweeps _ now err q) o h =
    frame ln y _ (refl, refl) o (refl, refl, sym (ap is_called q)) (λ r. absurd (false≢true r)) h
Step-IsOrderly ln answer y _ (counts _ err b q) o h = counts-IsOrderly ln y err b q h
Step-IsOrderly ln answer y _ (expires _ err q) o h =
    frame ln y _ (refl, refl) o (refl, refl, sym (ap is_called q)) (λ r. absurd (false≢true r)) h

pub Runs-IsOrderly :
    (ln : ℕ) (answer : ℕ → Option ℕ) (y z : System)
    → Runs ln answer y z
    → IsOrderly ln y
    → IsOrderly ln z
Runs-IsOrderly ln answer y _ (stays _) h = h
Runs-IsOrderly ln answer y w (steps _ z _ s r) h =
    let chan = reaches-IsOrdered _ _ (Step-Reaches ln answer y z s h.marked) h.chan in
    Runs-IsOrderly ln answer z w r (Step-IsOrderly ln answer y z s chan h)
