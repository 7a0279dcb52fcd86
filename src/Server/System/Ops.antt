-- ===== src/Server/System/Ops.antt =====
-- What each operation of the server does to the connections that it tracks, to its listeners and to
-- its mark.
use stratumserver.Prelude.{
  ℕ, ◌≡◌, refl, sym, ap, ◌∙◌, ◌==◌, ==_iff, ◌||◌, ◌&&◌, List, [], ◌∷◌, ◌++◌, some, arith,
  Bool-cases, inl, inr, Bool, true, false, not, Option,
}
use stratumserver.Server.{Server, insert, member, track_conn, track_listener, shutting_down}
use stratumserver.Server.Conns.Idle.{member-delete}
use stratumserver.Server.Accept.Returns.{same_number}
use stratumserver.Server.Shutdown.{shutdown_locked}
use stratumserver.Server.Reach.{locked_result}

pub member-insert : (x c : ℕ) (ys : List ℕ) → member x (insert c ys) ≡ (x == c || member x ys)
member-insert x c ys = elim (Bool-cases (member c ys)) [
  | inr out ↦ rw out refl
  | inl mem ↦ rw mem elim (Bool-cases (x == c)) [
    | inr e ↦ rw e refl
    | inl e ↦ rw e (ap (λ z. member z ys) ((==_iff x c).0 e) ∙ mem)
  ]
]

pub member-append : (x : ℕ) (xs ys : List ℕ) → member x (xs ++ ys) ≡ (member x xs || member x ys)
member-append x [] ys = refl
member-append x (z ∷ xs) ys = ground (arith, member-append x xs ys)

-- Nothing but the connections may have changed.
unfoldable pub IsFrame : Server → Server → Type 0
IsFrame s t = (t.in_shutdown ≡ s.in_shutdown) × (t.listeners ≡ s.listeners)

pub track_conn-new :
    (s : Server) (c x : ℕ)
    → member x (track_conn s c true).active_conn ≡ (x == c || member x s.active_conn)
unfolding track_conn
track_conn-new s c x = member-insert x c s.active_conn

pub track_conn-closed :
    (s : Server) (c x : ℕ)
    → member x (track_conn s c false).active_conn ≡ (member x s.active_conn && not (x == c))
unfolding track_conn
track_conn-closed s c x = member-delete x c s.active_conn

pub track_conn-IsFrame : (s : Server) (c : ℕ) (add : Bool) → IsFrame s (track_conn s c add)
unfolding IsFrame track_conn
track_conn-IsFrame s c add = (refl, refl)

module _ (s : Server) (ln : ℕ) where
  pub track_listener-conns : (add : Bool) → (track_listener s ln add).0.active_conn ≡ s.active_conn
  unfolding track_listener shutting_down
  track_listener-conns add = ground arith

  -- If trackListener answers that the server is up, the listener is tracked.
  pub track_listener-up :
      (track_listener s ln true).1 ≡ true → member ln (track_listener s ln true).0.listeners ≡ true
  unfolding track_listener shutting_down
  track_listener-up h = elim (Bool-cases s.in_shutdown) [
    | inl down ↦ ground arith
    | inr up ↦ rw up (member-insert ln ln s.listeners ∙ rw (same_number ln) refl)
  ]

  pub track_listener-down : s.in_shutdown ≡ true → (track_listener s ln true).1 ≡ false
  unfolding track_listener shutting_down
  track_listener-down h = ground arith

-- If it answers that the server is not up, the server is in shutdown.
pub track_listener-refused :
    (s : Server) (ln : ℕ) → (track_listener s ln true).1 ≡ false → s.in_shutdown ≡ true
unfolding track_listener shutting_down
track_listener-refused s ln h = elim (Bool-cases s.in_shutdown) [
  | inl down ↦ down
  | inr up ↦ ground arith
]

-- What the locked section of Shutdown leaves.
pub record IsBegun (s t : Server) : Type 0 where
  pub conns : t.active_conn ≡ s.active_conn
  pub listeners : t.listeners ≡ s.listeners
  pub mark : t.in_shutdown ≡ s.in_shutdown

pub begun :
    (answer : ℕ → Option ℕ) (s t : Server) (err : Option ℕ) (hooks : List ℕ)
    → shutdown_locked answer s ≡ some (t, err, hooks)
    → IsBegun s t
begun answer s t err hooks e =
    let eq = locked_result answer s t err hooks e in
    record {
      conns = ap (λ u. u.active_conn) (sym eq);
      listeners = ap (λ u. u.listeners) (sym eq);
      mark = ap (λ u. u.in_shutdown) (sym eq);
    }
