-- ===== src/Server/System/Tracked.antt =====
-- The connections of the system: those that the server tracks, those whose goroutine runs, and those
-- that closeIdleConns closed.
use stratumserver.Prelude.{
  ℕ, ◌≡◌, sym, ap, ◌∙◌, ◌==◌, Bool, true, false, not, ◌&&◌, ◌||◌, ◌∷◌, arith,
}
use stratumserver.Server.{member}
use stratumserver.Server.System.{System, Stage, swept, returned, server_of, pending}

-- Shutdown found no connection left when it called closeIdleConns last.
abbrev pub is_settled : Stage → Bool
is_settled (swept err q) = q
is_settled (returned err) = true
is_settled _ = false

-- Serve tracks the connection, or its goroutine runs.
abbrev pub is_running : System → ℕ → Bool
is_running y c = member c (pending y.phase) || member c y.live

pub record IsTracked (y : System) : Type 0 where
  pub tracked_live : (c : ℕ) → member c (server_of y).active_conn ≡ true → is_running y c ≡ true
  pub live_known :
      (c : ℕ)
      → is_running y c ≡ true
      → (member c (server_of y).active_conn || member c y.closed) ≡ true
  pub settled :
      is_settled y.stage ≡ true
      → (c : ℕ) → is_running y c ≡ true
      → (member c y.closed || member c y.late) ≡ true

-- What a step must leave for it to matter to no connection.
pub frame :
    (y z : System)
    → (server_of z).active_conn ≡ (server_of y).active_conn
    → ((c : ℕ) → is_running z c ≡ is_running y c)
    → (z.closed ≡ y.closed) × (z.late ≡ y.late)
    → (is_settled z.stage ≡ true → is_settled y.stage ≡ true)
    → IsTracked y
    → IsTracked z
frame y z conns running (closed, late) stage h = record {
  tracked_live = λ c m. running c ∙ h.tracked_live c (ap (member c) (sym conns) ∙ m);
  live_known = λ c m. rw (conns, closed) (h.live_known c (sym (running c) ∙ m));
  settled = λ q c m. rw (closed, late) (h.settled (stage q) c (sym (running c) ∙ m));
}

-- A connection that Serve tracks.
pub joins :
    (y z : System) (c : ℕ)
    → ((x : ℕ)
        → member x (server_of z).active_conn ≡ (x == c || member x (server_of y).active_conn))
    → ((x : ℕ) → is_running z x ≡ (x == c || is_running y x))
    → (z.closed ≡ y.closed) × (z.late ≡ c ∷ y.late) × (z.stage ≡ y.stage)
    → IsTracked y
    → IsTracked z
joins y z c conns running (closed, late, stage) h = record {
  tracked_live = λ x m. running x ∙ join x _ (h.tracked_live x) (sym (conns x) ∙ m);
  live_known = λ x m. rw (conns x, closed) (known x _ (h.live_known x) (sym (running x) ∙ m));
  settled = λ q x m.
      rw (closed, late)
        (settles x _ (h.settled (ap is_settled (sym stage) ∙ q) x) (sym (running x) ∙ m));
}
  where
    join :
        (x : ℕ) (runs : Bool)
        → (member x (server_of y).active_conn ≡ true → runs ≡ true)
        → (x == c || member x (server_of y).active_conn) ≡ true
        → (x == c || runs) ≡ true
    join x runs k m = ground arith

    known :
        (x : ℕ) (runs : Bool)
        → (runs ≡ true → (member x (server_of y).active_conn || member x y.closed) ≡ true)
        → (x == c || runs) ≡ true
        → ((x == c || member x (server_of y).active_conn) || member x y.closed) ≡ true
    known x runs k m = ground arith

    settles :
        (x : ℕ) (runs : Bool)
        → (runs ≡ true → (member x y.closed || member x y.late) ≡ true)
        → (x == c || runs) ≡ true
        → (member x y.closed || (x == c || member x y.late)) ≡ true
    settles x runs k m = ground arith

-- A connection that ends.
pub parts :
    (y z : System) (c : ℕ)
    → ((x : ℕ)
        → member x (server_of z).active_conn ≡ (member x (server_of y).active_conn && not (x == c)))
    → ((x : ℕ) → is_running z x ≡ (is_running y x && not (x == c)))
    → (z.closed ≡ y.closed) × (z.late ≡ y.late) × (z.stage ≡ y.stage)
    → IsTracked y
    → IsTracked z
parts y z c conns running (closed, late, stage) h = record {
  tracked_live = λ x m. running x ∙ stay x _ (h.tracked_live x) (sym (conns x) ∙ m);
  live_known = λ x m. rw (conns x, closed) (known x _ (h.live_known x) (sym (running x) ∙ m));
  settled = λ q x m.
      rw (closed, late)
        (h.settled (ap is_settled (sym stage) ∙ q) x (fst_true _ _ (sym (running x) ∙ m)));
}
  where
    stay :
        (x : ℕ) (runs : Bool)
        → (member x (server_of y).active_conn ≡ true → runs ≡ true)
        → (member x (server_of y).active_conn && not (x == c)) ≡ true
        → (runs && not (x == c)) ≡ true
    stay x runs k m = ground arith

    known :
        (x : ℕ) (runs : Bool)
        → (runs ≡ true → (member x (server_of y).active_conn || member x y.closed) ≡ true)
        → (runs && not (x == c)) ≡ true
        → ((member x (server_of y).active_conn && not (x == c)) || member x y.closed) ≡ true
    known x runs k m = ground arith

    fst_true : (a b : Bool) → (a && b) ≡ true → a ≡ true
    fst_true a b m = ground arith
