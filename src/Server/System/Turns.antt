-- ===== src/Server/System/Turns.antt =====
-- A turn of the loop of Serve, by what Accept gave, and the steps that it consists of.
use mathlib.Core.Option.{some-injective}
use stratumserver.Prelude.{
  ℕ, ◌≡◌, refl, sym, Bool, true, false, some, if◌then◌else◌, ◌⊎◌, ◌≢◌, inl, inr,
}
use stratumserver.Prelude.Int.{ℤ}
use stratumserver.Server.{set_state, get_done_chan_locked, is_closed, state_closed}
use stratumserver.Server.{track_conn}
use stratumserver.Server.System.{
  System, accepted_by, new_stored, launched, ended, end_stored, server_of,
}
use stratumserver.Server.Accept.{
  connection, failure, Outcome, server_closed, failed, Accepting, Turn, go_on, leave, take_turn,
}

-- The three steps of Serve for a new connection, without other goroutines between them, are the turn
-- of its loop.
pub accepts-take_turn :
    (y : System) (now : ℤ) (c : ℕ)
    → take_turn y.loop now (connection c)
      ≡ some (go_on (launched (new_stored (accepted_by y c) now c) c).loop)
unfolding take_turn set_state accepted_by new_stored launched track_conn
accepts-take_turn y now c = refl

-- The two steps of the last setState of a connection are that setState.
pub ends-set_state :
    (y : System) (now : ℤ) (c : ℕ)
    → set_state (server_of y) now c state_closed ≡ some (server_of (end_stored (ended y c) now c))
unfolding set_state ended end_stored track_conn
ends-set_state y now c = refl

-- For a failure the loop has asked for the channel, and goes on or leaves.
pub record IsFailure (a : Accepting) (turn : Turn) : Type 0 where
  pub next : Accepting
  pub asked : next.server ≡ (get_done_chan_locked a.server).0
  pub started : next.started ≡ a.started
  pub result :
      (turn ≡ go_on next)
      ⊎ ((o : Outcome) × (turn ≡ leave next o)
          × (o ≡ server_closed → is_closed (get_done_chan_locked a.server).1 ≡ true))

pick :
    (b c : Bool) (x y z turn : Turn)
    → (if b then some x else (if c then some y else some z)) ≡ some turn
    → ((turn ≡ x) × (b ≡ true)) ⊎ ((turn ≡ y) ⊎ (turn ≡ z))
pick true c x y z turn e = inl (sym (some-injective _ _ e), refl)
pick false true x y z turn e = inr (inl (sym (some-injective _ _ e)))
pick false false x y z turn e = inr (inr (sym (some-injective _ _ e)))

failed_open : {e : ℕ} → failed e ≢ server_closed
failed_open q = cc

pub turn_failure :
    (a : Accepting) (now : ℤ) (n : ℕ) (temporary : Bool) (turn : Turn)
    → take_turn a now (failure n temporary) ≡ some turn
    → IsFailure a turn
unfolding take_turn
turn_failure a now n temporary turn e =
    elim (pick (is_closed (get_done_chan_locked a.server).1) temporary _ _ _ turn e) [
      | inl (same, shut) ↦ record {
        next = _;
        asked = refl;
        started = refl;
        result = inr (server_closed, same, λ _. shut);
      }
      | inr (inl same) ↦ record { next = _; asked = refl; started = refl; result = inl same }
      | inr (inr same) ↦ record {
        next = _;
        asked = refl;
        started = refl;
        result = inr (failed n, same, λ q. absurd (failed_open q));
      }
    ]
