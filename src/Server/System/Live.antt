-- ===== src/Server/System/Live.antt =====
-- Every step of the system for its connections.
use mathlib.Core.Bool.{false≢true}
use stratumserver.Prelude.{
  ℕ, ◌≡◌, refl, sym, ap, ◌∙◌, Bool, true, false, not, ◌&&◌, ◌||◌, List, [], Option, some, arith,
  inl, inr, ◌⊎◌,
}
use stratumserver.Prelude.Int.{ℤ}
use stratumserver.Server.{Server, member, get_done_chan_locked}
use stratumserver.Prelude.{if◌then◌else◌, ◌==◌, ==_iff, Bool-cases}
use stratumserver.Server.Conns.{close_idle_conns, is_busy}
use stratumserver.Server.Conns.Idle.{close_idle_conns-busy, member-delete}
use stratumserver.Server.Accept.{failure, Accepting, Turn, take_turn}
use stratumserver.Server.System.{
  System, swept, returned, Step, server_of, swept_by, turned, polling, counted, listened,
  unlistened, ended, listens, unlistens, activates, ends, begins, sweeps, counts, expires, Runs,
  stays, steps, start, pending, looping, fails, accepts, stores_new, launches, stores_closed, marks,
  accepted_by, new_stored, launched, end_stored, starting,
}
use stratumserver.Server.System.Apart.{IsApart, Step-IsApart, not_live}
use stratumserver.Server.System.Tracked.{IsTracked, is_settled, is_running, frame, joins, parts}
use stratumserver.Server.System.Turns.{turn_failure}
use stratumserver.Server.System.Ops.{
  member-append, track_conn-new, track_conn-closed, track_listener-conns, begun,
}

-- What closeIdleConns leaves to Shutdown.
sweep_known :
    (a b w m : Bool)
    → (m ≡ true → (a || w) ≡ true)
    → m ≡ true
    → ((a && b) || ((a && not b) || w)) ≡ true
sweep_known a b w m k h = ground arith

sweep_settles :
    (a b w m : Bool)
    → (m ≡ true → (a || w) ≡ true)
    → (a && b) ≡ false
    → m ≡ true
    → (((a && not b) || w) || false) ≡ true
sweep_settles a b w m k e h = ground arith

quiet_empty :
    (q : Bool) (xs : List ℕ) (x : ℕ) → (q ≡ false) ⊎ (xs ≡ []) → q ≡ true → member x xs ≡ false
quiet_empty q xs x (inl e) h = absurd (false≢true (sym e ∙ h))
quiet_empty q xs x (inr e) h = rw e refl

fst_and : (a b : Bool) → (a && b) ≡ true → a ≡ true
fst_and a b h = ground arith

sweeps-IsTracked :
    (y : System) (now : ℤ) (err : Option ℕ) → IsTracked y → IsTracked (swept_by y now err)
unfolding swept_by
sweeps-IsTracked y now err h =
    let (closed, active, empty) = close_idle_conns-busy (server_of y) now in
    let w = (close_idle_conns (server_of y) now).1 in
    record {
      tracked_live = λ c m. h.tracked_live c (fst_and _ _ (sym (active c) ∙ m));
      live_known = λ c m.
          rw (active c, member-append c w.closed y.closed, closed c)
            (sweep_known (member c (server_of y).active_conn) (is_busy (server_of y) now c)
              (member c y.closed) (is_running y c) (h.live_known c) m);
      settled = λ q c m.
          rw (member-append c w.closed y.closed, closed c)
            (sweep_settles (member c (server_of y).active_conn) (is_busy (server_of y) now c)
              (member c y.closed) (is_running y c) (h.live_known c)
              (sym (active c) ∙ quiet_empty _ _ c empty q) m);
    }

count_stage :
    (b : Bool) (err : Option ℕ)
    → is_settled (if b then returned err else polling err) ≡ true
    → b ≡ true
count_stage true err h = refl
count_stage false err h = h

counts-IsTracked :
    (y : System) (err : Option ℕ) (q : Bool)
    → y.stage ≡ swept err q
    → IsTracked y
    → IsTracked (counted y err q)
unfolding counted
counts-IsTracked y err q e h =
    frame y _ refl (λ c. refl) (refl, refl)
      (λ k. ap is_settled e ∙ fst_and _ _ (count_stage _ err k)) h

asked :
    (y : System) (b : Accepting)
    → b.server ≡ (get_done_chan_locked (server_of y)).0
    → b.server.active_conn ≡ (server_of y).active_conn
unfolding get_done_chan_locked
asked y b e = ap (λ s. s.active_conn) e

-- While Serve waits for a connection it has none to start.
idle : (y : System) → y.phase ≡ looping → (c : ℕ) → member c y.live ≡ is_running y c
idle y p c = rw p refl

tidy : (a b : Bool) → ((a || false) || b) ≡ (a || (false || b))
tidy a b = ground arith

tidy_or : (a b : Bool) → (false || (a || b)) ≡ ((a || false) || b)
tidy_or a b = ground arith

heard-running :
    (ln : ℕ) (y : System)
    → y.phase ≡ starting
    → (c : ℕ) → is_running (listened ln y) c ≡ is_running y c
unfolding listened
heard-running ln y p c = ground arith

fails-IsTracked :
    (y : System) (now : ℤ) (n : ℕ) (temporary : Bool) (turn : Turn)
    → y.phase ≡ looping
    → take_turn y.loop now (failure n temporary) ≡ some turn
    → IsTracked y
    → IsTracked (turned y turn)
unfolding turned
fails-IsTracked y now n temporary turn p e h =
    let k = turn_failure y.loop now n temporary turn e in
    elim k.result [
      | inl goes_on ↦
          rw goes_on (frame y _ (asked y k.next k.asked) (λ c. refl) (refl, refl) (λ q. q) h)
      | inr (o, leaves, _) ↦
          rw leaves (frame y _ (asked y k.next k.asked) (idle y p) (refl, refl) (λ q. q) h)
    ]

-- A connection that ends is not the one that Serve has not started yet.
parts_running :
    (l : Bool) (x c : ℕ) (xs : List ℕ)
    → member c xs ≡ false
    → (member x xs || (l && not (x == c))) ≡ ((member x xs || l) && not (x == c))
parts_running l x c xs out = elim (Bool-cases (x == c)) [
  | inr e ↦ ground arith
  | inl e ↦
      let gone : member x xs ≡ false = ap (λ z. member z xs) ((==_iff x c).0 e) ∙ out in
      ground arith
]

Step-IsTracked :
    (ln : ℕ) (answer : ℕ → Option ℕ) (y z : System)
    → Step ln answer y z
    → IsApart y
    → IsTracked y
    → IsTracked z
unfolding unlistened ended end_stored accepted_by new_stored launched
Step-IsTracked ln answer y _ (listens _ p) a h =
    unfold listened in
    frame y _ (track_listener-conns (server_of y) ln true) (heard-running ln y p) (refl, refl)
      (λ q. q) h
Step-IsTracked ln answer y _ (fails _ now n temporary turn p e) a h =
    fails-IsTracked y now n temporary turn p e h
Step-IsTracked ln answer y _ (accepts _ c p out) a h =
    joins y _ c (track_conn-new (server_of y) c) (λ x. rw p (tidy (x == c) (member x y.live)))
      (refl, refl, refl) h
Step-IsTracked ln answer y _ (stores_new _ now c p) a h =
    frame y _ refl (λ x. rw p refl) (refl, refl) (λ q. q) h
Step-IsTracked ln answer y _ (launches _ c p) a h =
    frame y _ refl (λ x. rw p (tidy_or (x == c) (member x y.live))) (refl, refl) (λ q. q) h
Step-IsTracked ln answer y _ (unlistens _ o p) a h =
    frame y _ (track_listener-conns (server_of y) ln false) (λ x. rw p refl) (refl, refl) (λ q. q) h
Step-IsTracked ln answer y _ (activates _ now c m) a h =
    frame y _ refl (λ x. refl) (refl, refl) (λ q. q) h
Step-IsTracked ln answer y _ (ends _ c m) a h =
    parts y _ c (track_conn-closed (server_of y) c)
      (λ x.
        ap (λ b. member x (pending y.phase) || b) (member-delete x c y.live)
        ∙ parts_running (member x y.live) x c (pending y.phase) (not_live y c a m))
      (refl, refl, refl) h
Step-IsTracked ln answer y _ (stores_closed _ now c m) a h =
    frame y _ refl (λ x. refl) (refl, refl) (λ q. q) h
Step-IsTracked ln answer y _ (marks _ q) a h =
    frame y _ refl (λ x. refl) (refl, refl) (λ k. absurd (false≢true k)) h
Step-IsTracked ln answer y _ (begins _ s err hooks q e) a h =
    frame y _ (begun answer _ s err hooks e).conns (λ x. refl) (refl, refl)
      (λ k. absurd (false≢true k)) h
Step-IsTracked ln answer y _ (sweeps _ now err q) a h = sweeps-IsTracked y now err h
Step-IsTracked ln answer y _ (counts _ err b q) a h = counts-IsTracked y err b q h
Step-IsTracked ln answer y _ (expires _ err q) a h =
    frame y _ refl (λ x. refl) (refl, refl) (λ k. absurd (false≢true k)) h

pub Runs-IsTracked :
    (ln : ℕ) (answer : ℕ → Option ℕ) (y z : System)
    → Runs ln answer y z
    → IsApart y
    → IsTracked y
    → IsTracked z
Runs-IsTracked ln answer y _ (stays _) a h = h
Runs-IsTracked ln answer y w (steps _ z _ s r) a h =
    Runs-IsTracked ln answer z w r (Step-IsApart ln answer y z s a)
      (Step-IsTracked ln answer y z s a h)

pub start-IsTracked : (s : Server) → s.active_conn ≡ [] → IsTracked (start s)
unfolding start
start-IsTracked s e = record {
  tracked_live = λ c m. absurd (false≢true (sym (ap (member c) e) ∙ m));
  live_known = λ c m. absurd (false≢true m);
  settled = λ q c m. absurd (false≢true m);
}
