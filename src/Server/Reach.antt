-- ===== src/Server/Reach.antt =====
-- The server as a transition system: what the goroutines of stratum/server/server.go do to it, one
-- step for each operation that takes `s.mu` or is atomic, in any order.
use stratumserver.Prelude.{
  ◌≢◌, not, ◌||◌, ℕ, ◌≡◌, refl, sym, ap, ◌∙◌, Bool, true, false, List, Option, some, arith,
  Bool-cases, inl, inr,
}
use stratumserver.Prelude.Int.{ℤ}
use stratumserver.Server.{
  unmade, Server, closed_chan, track_conn, track_listener, get_done_chan_locked,
  register_on_shutdown, stored, shutting_down, member, delete,
}
use stratumserver.Server.Conns.{close_idle_conns}
use stratumserver.Server.Conns.Idle.{member-delete}
use stratumserver.Server.Shutdown.{shutdown_mark, shutdown_locked}
use stratumserver.Server.Shutdown.Begin.{shutdown_locked_lem}

pub data Step : Server → Server → Type 0 where
  -- the mark of Shutdown
  marks : (s : Server) → Step s (shutdown_mark s)
  -- what Shutdown does next, under `s.mu`
  begins :
      (s : Server) (answer : ℕ → Option ℕ) (t : Server) (err : Option ℕ) (hooks : List ℕ)
      → s.in_shutdown ≡ true
      → shutdown_locked answer s ≡ some (t, err, hooks)
      → Step s t
  -- Serve's first and last step
  listens : (s : Server) (ln : ℕ) → Step s (track_listener s ln true).0
  unlistens : (s : Server) (ln : ℕ) → Step s (track_listener s ln false).0
  -- Serve after a failure
  asks : (s : Server) → Step s (get_done_chan_locked s).0
  -- setState of Serve for a new connection, and of serve of the connection: trackConn and the store
  tracks : (s : Server) (c : ℕ) (add : Bool) → Step s (track_conn s c add)
  stores : (s : Server) (now : ℤ) (c : ℕ) (state : ℤ) → Step s (stored s now c state)
  -- a round of Shutdown's loop
  sweeps : (s : Server) (now : ℤ) → Step s (close_idle_conns s now).0
  registers : (s : Server) (f : ℕ) → Step s (register_on_shutdown s f)

pub data Reaches : Server → Server → Type 0 where
  stays : (s : Server) → Reaches s s
  steps : (s t u : Server) → Step s t → Reaches t u → Reaches s u

-- From `s` to `t`, a shutdown goes on, a closed channel stays so, and no listener is added while it
-- lasts.
record IsClosing (s t : Server) : Type 0 where
  pub marked : s.in_shutdown ≡ true → t.in_shutdown ≡ true
  pub shut : s.done_chan ≡ closed_chan → t.done_chan ≡ closed_chan
  pub fewer :
      s.in_shutdown ≡ true → (ln : ℕ) → member ln t.listeners ≡ true → member ln s.listeners ≡ true

frame :
    (s t : Server)
    → t.in_shutdown ≡ s.in_shutdown
    → t.done_chan ≡ s.done_chan
    → t.listeners ≡ s.listeners
    → IsClosing s t
frame s t p q r = record {
  marked = λ h. p ∙ h;
  shut = λ h. q ∙ h;
  fewer = λ h ln m. ap (member ln) (sym r) ∙ m;
}

asked :
    (s : Server) → s.done_chan ≡ closed_chan → (get_done_chan_locked s).0.done_chan ≡ closed_chan
unfolding get_done_chan_locked
asked s h = rw h refl

member-deleted : (x c : ℕ) (xs : List ℕ) → member x (delete c xs) ≡ true → member x xs ≡ true
member-deleted x c xs h = ground (arith, member-delete x c xs)

pub refuses : (s : Server) (ln : ℕ) → s.in_shutdown ≡ true → (track_listener s ln true).0 ≡ s
unfolding track_listener shutting_down
refuses s ln h = ground arith

pub listens-frame :
    (s : Server) (ln : ℕ)
    → ((track_listener s ln true).0.in_shutdown ≡ s.in_shutdown)
      × ((track_listener s ln true).0.done_chan ≡ s.done_chan)
unfolding track_listener shutting_down
listens-frame s ln = elim (Bool-cases s.in_shutdown) [ inl h ↦ ground arith | inr h ↦ ground arith ]

pub first_server :
    (s t : Server) (e d : Option ℕ) (f g : List ℕ)
    → ◌≡◌ {A = Option (Server × Option ℕ × List ℕ)} (some (s, e, f)) (some (t, d, g))
    → s ≡ t
first_server s t e d f g h = ground arith

pub locked_result :
    (answer : ℕ → Option ℕ) (s t : Server) (err : Option ℕ) (hooks : List ℕ)
    → shutdown_locked answer s ≡ some (t, err, hooks)
    → record s { done_chan = closed_chan } ≡ t
locked_result answer s t err hooks e =
    first_server _ t _ err _ hooks (sym (shutdown_locked_lem answer s) ∙ e)

Step-IsClosing : (s t : Server) → Step s t → IsClosing s t
unfolding close_idle_conns register_on_shutdown track_conn
Step-IsClosing s _ (marks _) = record { marked = λ h. refl; shut = λ h. h; fewer = λ h ln m. m }
Step-IsClosing s _ (begins _ answer t err hooks mark e) =
    let eq = locked_result answer s t err hooks e in
    record {
      marked = λ h. ap (λ u. u.in_shutdown) (sym eq) ∙ mark;
      shut = λ h. ap (λ u. u.done_chan) (sym eq);
      fewer = λ h ln m. ap (member ln) (ap (λ u. u.listeners) eq) ∙ m;
    }
Step-IsClosing s _ (listens _ ln) = record {
  marked = λ h. (listens-frame s ln).0 ∙ h;
  shut = λ h. (listens-frame s ln).1 ∙ h;
  fewer = λ h x m. ap (λ u. member x u.listeners) (sym (refuses s ln h)) ∙ m;
}
Step-IsClosing s _ (unlistens _ ln) =
    unfold track_listener in
    record { marked = λ h. h; shut = λ h. h; fewer = λ h x m. member-deleted x ln s.listeners m }
Step-IsClosing s _ (asks _) = record {
  marked = λ h. unfold get_done_chan_locked in h;
  shut = asked s;
  fewer = λ h x m. unfold get_done_chan_locked in m;
}
Step-IsClosing s _ (tracks _ c add) = frame s _ refl refl refl
Step-IsClosing s _ (stores _ now c state) = frame s _ refl refl refl
Step-IsClosing s _ (sweeps _ now) = frame s _ refl refl refl
Step-IsClosing s _ (registers _ f) = frame s _ refl refl refl

reaches-IsClosing : (s t : Server) → Reaches s t → IsClosing s t
reaches-IsClosing s _ (stays _) = frame s s refl refl refl
reaches-IsClosing s u (steps _ t _ h r) =
    let one = Step-IsClosing s t h in
    let rest = reaches-IsClosing t u r in
    record {
      marked = λ m. rest.marked (one.marked m);
      shut = λ m. rest.shut (one.shut m);
      fewer = λ m ln k. one.fewer m ln (rest.fewer (one.marked m) ln k);
    }

pub implies : (a b : Bool) → (a ≡ true → b ≡ true) → (not a || b) ≡ true
implies true b h = h refl
implies false b h = refl

pub open_first : unmade ≢ closed_chan
open_first e = cc

-- The channel is closed only once the server is marked.
unfoldable pub IsOrdered : Server → Type 0
IsOrdered s = s.done_chan ≡ closed_chan → s.in_shutdown ≡ true

made_closed :
    (s : Server) → (get_done_chan_locked s).0.done_chan ≡ closed_chan → s.done_chan ≡ closed_chan
unfolding get_done_chan_locked
made_closed s h = ground arith

Step-IsOrdered : (s t : Server) → Step s t → IsOrdered s → IsOrdered t
unfolding IsOrdered close_idle_conns register_on_shutdown track_conn
Step-IsOrdered s _ (marks _) o h = refl
Step-IsOrdered s _ (begins _ answer t err hooks mark e) o h =
    ap (λ u. u.in_shutdown) (sym (locked_result answer s t err hooks e)) ∙ mark
Step-IsOrdered s _ (listens _ ln) o h = let (p, q) = listens-frame s ln in p ∙ o (sym q ∙ h)
Step-IsOrdered s _ (unlistens _ ln) o h = unfold track_listener in o h
Step-IsOrdered s _ (asks _) o h = unfold get_done_chan_locked in o (made_closed s h)
Step-IsOrdered s _ (tracks _ c add) o h = o h
Step-IsOrdered s _ (stores _ now c state) o h = o h
Step-IsOrdered s _ (sweeps _ now) o h = o h
Step-IsOrdered s _ (registers _ f) o h = o h

pub reaches-IsOrdered : (s t : Server) → Reaches s t → IsOrdered s → IsOrdered t
reaches-IsOrdered s _ (stays _) o = o
reaches-IsOrdered s u (steps _ t _ h r) o = reaches-IsOrdered t u r (Step-IsOrdered s t h o)

-- Whatever the goroutines do, in any order: a server in shutdown whose channel is closed stays so, and
-- it tracks no listener that it did not track before.
pub reaches-shutdown :
    (s t : Server) (ln : ℕ)
    → Reaches s t
    → s.in_shutdown ≡ true
    → s.done_chan ≡ closed_chan
    → (t.in_shutdown ≡ true)
      × (t.done_chan ≡ closed_chan)
      × ((not (member ln t.listeners) || member ln s.listeners) ≡ true)
reaches-shutdown s t ln r h k =
    let closing = reaches-IsClosing s t r in
    (closing.marked h, closing.shut k, implies _ _ (closing.fewer h ln))

-- From a server that has no channel yet, however it came there, a server whose channel is closed is in
-- shutdown: an ErrServerClosed of Serve means a shutdown.
pub reaches-closed :
    (s t : Server)
    → Reaches s t
    → s.done_chan ≡ unmade
    → t.done_chan ≡ closed_chan
    → t.in_shutdown ≡ true
unfolding IsOrdered
reaches-closed s t r h k = reaches-IsOrdered s t r (λ e. absurd (open_first (sym h ∙ e))) k
