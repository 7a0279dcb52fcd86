-- ===== src/Server/System/Stops.antt =====
-- When the loop of Shutdown returns.
use mathlib.Core.Bool.{false≢true, true≢false}
use stratumserver.Prelude.{
  ℕ, ◌≡◌, refl, sym, ap, ◌∙◌, Bool, true, false, [], Option, none, Bool-cases, inl, inr, ◌⊎◌, ◌≢◌,
}
use stratumserver.Prelude.Int.{ℤ}
use stratumserver.Server.{Server, member, num_listeners}
use stratumserver.Server.Conns.{close_idle_conns, sweep_loop}
use stratumserver.Server.Conns.Idle.{no_member}
use stratumserver.Server.Reach.{refuses}
use stratumserver.Server.System.{
  System, Stage, swept, returned, Step, server_of, swept_by, polling, counted, listened, listens,
  unlistens, activates, ends, begins, sweeps, counts, expires, Runs, stays, steps, start, fails,
  accepts, stores_new, launches, stores_closed, marks, end_stored, pending, not_called, marked,
  Phase, starting, looping, storing, launching, leaving, gone,
}
use stratumserver.Server.System.Ops.{track_listener-down}
use stratumserver.Server.System.Phases.{is_up, is_called}
use stratumserver.Server.System.Tracked.{is_running}
use stratumserver.Server.System.Live.{Runs-IsTracked, start-IsTracked}
use stratumserver.Server.System.Apart.{start-IsApart}
use stratumserver.Server.System.Orderly.{Runs-IsOrderly}
use stratumserver.Server.System.Listed.{listed, IsListed, Runs-IsListed}
use stratumserver.Server.System.Returned.{IsFresh, start-IsOrderly}

-- closeIdleConns over no connection.
quiet_sweep :
    (s : Server) (now : ℤ) → s.active_conn ≡ [] → (close_idle_conns s now).1.quiescent ≡ true
unfolding close_idle_conns sweep_loop
quiet_sweep s now e = rw e refl

-- The last round of Shutdown's loop, after its closeIdleConns: nothing is left that it counts.
record IsLast (err : Option ℕ) (y : System) : Type 0 where
  pub mark : (server_of y).in_shutdown ≡ true
  pub no_live : y.live ≡ []
  pub down : is_up y.phase ≡ false
  pub no_listener : (server_of y).listeners ≡ []
  pub stage : (y.stage ≡ swept err true) ⊎ (y.stage ≡ returned err)

frame :
    (err : Option ℕ) (y z : System)
    → (server_of z).in_shutdown ≡ (server_of y).in_shutdown
    → (server_of z).listeners ≡ (server_of y).listeners
    → (z.live ≡ y.live) × (z.phase ≡ y.phase) × (z.stage ≡ y.stage)
    → IsLast err y
    → IsLast err z
frame err y z mark lns (live, phase, stage) h = record {
  mark = mark ∙ h.mark;
  no_live = live ∙ h.no_live;
  down = ap is_up phase ∙ h.down;
  no_listener = lns ∙ h.no_listener;
  stage = elim h.stage [ inl e ↦ inl (stage ∙ e) | inr e ↦ inr (stage ∙ e) ];
}

listens-IsLast : (err : Option ℕ) (ln : ℕ) (y : System) → IsLast err y → IsLast err (listened ln y)
unfolding listened
listens-IsLast err ln y h =
    let same = refuses (server_of y) ln h.mark in
    record {
      mark = ap (λ s. s.in_shutdown) same ∙ h.mark;
      no_live = h.no_live;
      down = rw (track_listener-down (server_of y) ln h.mark) refl;
      no_listener = ap (λ s. s.listeners) same ∙ h.no_listener;
      stage = h.stage;
    }

-- After the sweep the loop does not go on.
is_last : Stage → Bool
is_last (swept err q) = true
is_last (returned err) = true
is_last _ = false

elsewhere :
    (err : Option ℕ) (y : System) (st : Stage) → IsLast err y → is_last st ≡ false → y.stage ≢ st
unfolding is_last
elsewhere err y st h e q = elim h.stage [
  | inl a ↦ true≢false (ap is_last (sym a ∙ q) ∙ e)
  | inr a ↦ true≢false (ap is_last (sym a ∙ q) ∙ e)
]

no_one : (c : ℕ) (y : System) → y.live ≡ [] → member c y.live ≢ true
no_one c y e m = false≢true (sym (ap (member c) e) ∙ m)

counted_stage :
    (y : System) (err : Option ℕ)
    → (server_of y).listeners ≡ []
    → (counted y err true).stage ≡ returned err
unfolding counted num_listeners
counted_stage y err e = rw e refl

error_of : Stage → Option ℕ
error_of (swept err q) = err
error_of _ = none

answer_of : Stage → Bool
answer_of (swept err q) = q
answer_of _ = false

is_swept : Stage → Bool
is_swept (swept err q) = true
is_swept _ = false

counts-IsLast :
    (err err' : Option ℕ) (q : Bool) (y : System)
    → y.stage ≡ swept err' q
    → IsLast err y
    → IsLast err (counted y err' q)
unfolding error_of answer_of is_swept counted
counts-IsLast err err' q y e h = elim h.stage [
  | inr r ↦ absurd (true≢false (sym (ap is_swept e) ∙ ap is_swept r))
  | inl s ↦
      let one : err' ≡ err = ap error_of (sym e ∙ s) in
      let two : q ≡ true = ap answer_of (sym e ∙ s) in
      record {
        mark = h.mark;
        no_live = h.no_live;
        down = h.down;
        no_listener = h.no_listener;
        stage = inr (rw (two, one) (counted_stage y err h.no_listener));
      }
]

Step-IsLast :
    (ln : ℕ) (answer : ℕ → Option ℕ) (err : Option ℕ) (y z : System)
    → Step ln answer y z
    → IsLast err y
    → IsLast err z
unfolding end_stored is_last
Step-IsLast ln answer err y _ (listens _ p) h = listens-IsLast err ln y h
Step-IsLast ln answer err y _ (fails _ now n temporary turn p e) h =
    absurd (true≢false (sym (ap is_up p) ∙ h.down))
Step-IsLast ln answer err y _ (accepts _ c p out) h =
    absurd (true≢false (sym (ap is_up p) ∙ h.down))
Step-IsLast ln answer err y _ (stores_new _ now c p) h =
    absurd (true≢false (sym (ap is_up p) ∙ h.down))
Step-IsLast ln answer err y _ (launches _ c p) h = absurd (true≢false (sym (ap is_up p) ∙ h.down))
Step-IsLast ln answer err y _ (unlistens _ o p) h = absurd (true≢false (sym (ap is_up p) ∙ h.down))
Step-IsLast ln answer err y _ (activates _ now c m) h = absurd (no_one c y h.no_live m)
Step-IsLast ln answer err y _ (ends _ c m) h = absurd (no_one c y h.no_live m)
Step-IsLast ln answer err y _ (stores_closed _ now c m) h =
    frame err y _ refl refl (refl, refl, refl) h
Step-IsLast ln answer err y _ (marks _ q) h = absurd (elsewhere err y not_called h refl q)
Step-IsLast ln answer err y _ (begins _ s e hooks q b) h = absurd (elsewhere err y marked h refl q)
Step-IsLast ln answer err y _ (sweeps _ now e q) h = absurd (elsewhere err y (polling e) h refl q)
Step-IsLast ln answer err y _ (counts _ e b q) h = counts-IsLast err e b y q h
Step-IsLast ln answer err y _ (expires _ e q) h = absurd (elsewhere err y (polling e) h refl q)

Runs-IsLast :
    (ln : ℕ) (answer : ℕ → Option ℕ) (err : Option ℕ) (y z : System)
    → Runs ln answer y z
    → IsLast err y
    → IsLast err z
Runs-IsLast ln answer err y _ (stays _) h = h
Runs-IsLast ln answer err y w (steps _ z _ s r) h =
    Runs-IsLast ln answer err z w r (Step-IsLast ln answer err y z s h)

-- If Serve does not have its listener tracked, it does not start a connection.
nothing_pending : (p : Phase) (c : ℕ) → is_up p ≡ false → member c (pending p) ≡ false
nothing_pending starting c e = refl
nothing_pending looping c e = refl
nothing_pending (storing d) c e = absurd (true≢false e)
nothing_pending (launching d) c e = absurd (true≢false e)
nothing_pending (leaving o) c e = refl
nothing_pending (gone o) c e = refl

untracked_one :
    (y : System) (c : ℕ)
    → y.live ≡ []
    → is_up y.phase ≡ false
    → (member c (server_of y).active_conn ≡ true → is_running y c ≡ true)
    → member c (server_of y).active_conn ≡ false
untracked_one y c live down h = elim (Bool-cases (member c (server_of y).active_conn)) [
  | inr out ↦ out
  | inl mem ↦ absurd (false≢true (sym (rw (live, nothing_pending y.phase c down) refl) ∙ h mem))
]

sweeps-IsLast :
    (y : System) (now : ℤ) (err : Option ℕ)
    → (server_of y).in_shutdown ≡ true
    → y.live ≡ []
    → is_up y.phase ≡ false
    → (server_of y).listeners ≡ []
    → (server_of y).active_conn ≡ []
    → IsLast err (swept_by y now err)
unfolding swept_by close_idle_conns
sweeps-IsLast y now err mark live down lns conns = record {
  mark = mark;
  no_live = live;
  down = down;
  no_listener = lns;
  stage = inl (ap (swept err) (quiet_sweep (server_of y) now conns));
}

-- However the goroutines came there: once Serve has given its listener up, or has not tracked it, and no
-- goroutine of a connection runs before the trackConn at its end, the round of Shutdown's loop that starts next is the last one. Whatever
-- the goroutines do after the closeIdleConns of that round, either Shutdown has returned, with the error
-- of the listeners, or it stands before the test of numListeners, with which it returns.
pub system_stops :
    (ln : ℕ) (answer : ℕ → Option ℕ) (s : Server) (y w : System) (now : ℤ) (err : Option ℕ)
    → IsFresh s
    → s.listeners ≡ []
    → Runs ln answer (start s) y
    → y.stage ≡ polling err
    → y.live ≡ []
    → is_up y.phase ≡ false
    → Runs ln answer (swept_by y now err) w
    → ((w.stage ≡ swept err true) × ((counted w err true).stage ≡ returned err))
      ⊎ (w.stage ≡ returned err)
unfolding IsListed listed start
system_stops ln answer s y w now err fresh no_listeners r stage live down later =
    let tracked =
      Runs-IsTracked ln answer _ y r (start-IsApart s) (start-IsTracked s fresh.no_conns) in
    let orderly = Runs-IsOrderly ln answer _ y r (start-IsOrderly ln s fresh) in
    let unlisted : (server_of y).listeners ≡ [] =
      Runs-IsListed ln answer (start s) y r no_listeners ∙ rw down refl in
    let untracked : (server_of y).active_conn ≡ [] =
      no_member _ λ c. untracked_one y c live down (tracked.tracked_live c) in
    let last = Runs-IsLast ln answer err _ w later (
      sweeps-IsLast y now err (orderly.marked ∙ ap is_called stage) live down unlisted untracked) in
    elim last.stage [ inl e ↦ inl (e, counted_stage w err last.no_listener) | inr e ↦ inr e ]
