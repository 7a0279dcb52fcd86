-- ===== src/Server/Conns/Idle.antt =====
-- What closeIdleConns closes, what it keeps, and what its answer means.
use stratumserver.Prelude.{
  ◌⊎◌, ℕ, ◌≡◌, refl, ap, ◌∙◌, ◌==◌, Bool, true, false, not, ◌&&◌, ◌||◌, List, [], ◌∷◌, arith,
  Bool-cases, inl, inr,
}
use stratumserver.Prelude.Int.{ℤ}
use stratumserver.Prelude.{◌+◌, ◌-◌, ◌≤◌, ◌<◌, ◌^◌, ltb}
use stratumserver.Prelude.Int
use stratumserver.Prelude.Int.{pos}
use stratumserver.Prelude.Int64.{sub64, wrap64}
use stratumserver.Server.{Server, delete, member, get_state, state_new, state_active, state_idle}
use stratumserver.Server.Conns.{is_busy, Sweep, sweep_loop, close_idle_conns}

pub member-delete : (x c : ℕ) (ys : List ℕ) → member x (delete c ys) ≡ (member x ys && not (x == c))
member-delete x c [] = refl
member-delete x c (y ∷ ys) = ground (arith, member-delete x c ys)

pub no_member : (xs : List ℕ) → ((x : ℕ) → member x xs ≡ false) → xs ≡ []
no_member [] h = refl
no_member (x ∷ xs) h = ground (arith, h x)

kept : (m b : Bool) → (m && not (m && not b)) ≡ (m && b)
kept m b = ground arith

module _ (s : Server) (now : ℤ) where
  all_idle : List ℕ → Bool
  all_idle [] = true
  all_idle (c ∷ cs) = not (is_busy s now c) && all_idle cs

  all_idle-member :
      (cs : List ℕ) (x : ℕ) → all_idle cs ≡ true → member x cs ≡ true → is_busy s now x ≡ false
  unfolding all_idle
  all_idle-member [] x h m = cc
  all_idle-member (c ∷ cs) x h m = ground (arith, all_idle-member cs x)

  sweep_busy :
      (c : ℕ) (cs : List ℕ) (w : Sweep)
      → is_busy s now c ≡ true
      → sweep_loop s now (c ∷ cs) w ≡ sweep_loop s now cs (record w { quiescent = false })
  unfolding sweep_loop
  sweep_busy c cs w h = rw h

  sweep_idle :
      (c : ℕ) (cs : List ℕ) (w : Sweep)
      → is_busy s now c ≡ false
      → sweep_loop s now (c ∷ cs) w
        ≡ sweep_loop s now cs (record w { active = delete c w.active; closed = c ∷ w.closed })
  unfolding sweep_loop
  sweep_idle c cs w h = rw h

  abbrev swept : ℕ → List ℕ → Bool
  swept x cs = member x cs && not (is_busy s now x)

  busy_step :
      (c x : ℕ) (cs : List ℕ) (m : Bool)
      → is_busy s now c ≡ true
      → (m && not (swept x cs)) ≡ (m && not (swept x (c ∷ cs)))
  busy_step c x cs m h = ground arith

  idle_step :
      (c x : ℕ) (cs : List ℕ) (m : Bool)
      → is_busy s now c ≡ false
      → ((m && not (x == c)) && not (swept x cs)) ≡ (m && not (swept x (c ∷ cs)))
  idle_step c x cs m h = ground arith

  busy_closed :
      (c x : ℕ) (cs : List ℕ) (m : Bool)
      → is_busy s now c ≡ true
      → (m || swept x cs) ≡ (m || swept x (c ∷ cs))
  busy_closed c x cs m h = ground arith

  idle_closed :
      (c x : ℕ) (cs : List ℕ) (m : Bool)
      → is_busy s now c ≡ false
      → ((x == c || m) || swept x cs) ≡ (m || swept x (c ∷ cs))
  idle_closed c x cs m h = ground arith

  sweep_active :
      (cs : List ℕ) (w : Sweep) (x : ℕ)
      → member x (sweep_loop s now cs w).active
        ≡ (member x w.active && not (member x cs && not (is_busy s now x)))
  unfolding sweep_loop
  sweep_active [] w x = ground arith
  sweep_active (c ∷ cs) w x = elim (Bool-cases (is_busy s now c)) [
    | inl busy ↦
        ap (λ r. member x r.active) (sweep_busy c cs w busy)
        ∙ sweep_active cs (record w { quiescent = false }) x
        ∙ busy_step c x cs (member x w.active) busy
    | inr idle ↦
        ap (λ r. member x r.active) (sweep_idle c cs w idle)
        ∙ sweep_active cs (record w { active = delete c w.active; closed = c ∷ w.closed }) x
        ∙ ap (λ b. b && not (member x cs && not (is_busy s now x))) (member-delete x c w.active)
        ∙ idle_step c x cs (member x w.active) idle
  ]

  sweep_closed :
      (cs : List ℕ) (w : Sweep) (x : ℕ)
      → member x (sweep_loop s now cs w).closed
        ≡ (member x w.closed || (member x cs && not (is_busy s now x)))
  unfolding sweep_loop
  sweep_closed [] w x = ground arith
  sweep_closed (c ∷ cs) w x = elim (Bool-cases (is_busy s now c)) [
    | inl busy ↦
        ap (λ r. member x r.closed) (sweep_busy c cs w busy)
        ∙ sweep_closed cs (record w { quiescent = false }) x
        ∙ busy_closed c x cs (member x w.closed) busy
    | inr idle ↦
        ap (λ r. member x r.closed) (sweep_idle c cs w idle)
        ∙ sweep_closed cs (record w { active = delete c w.active; closed = c ∷ w.closed }) x
        ∙ idle_closed c x cs (member x w.closed) idle
  ]

  sweep_quiescent :
      (cs : List ℕ) (w : Sweep) → (sweep_loop s now cs w).quiescent ≡ (w.quiescent && all_idle cs)
  unfolding sweep_loop all_idle
  sweep_quiescent [] w = ground arith
  sweep_quiescent (c ∷ cs) w = elim (Bool-cases (is_busy s now c)) [
    | inl busy ↦
        ap (λ r. r.quiescent) (sweep_busy c cs w busy)
        ∙ sweep_quiescent cs (record w { quiescent = false })
        ∙ ground arith
    | inr idle ↦
        ap (λ r. r.quiescent) (sweep_idle c cs w idle)
        ∙ sweep_quiescent cs (record w { active = delete c w.active; closed = c ∷ w.closed })
        ∙ ground arith
  ]

  quiescent_empties :
      (xs : List ℕ) (w : Sweep)
      → all_idle xs ≡ true
      → w.active ≡ xs
      → (sweep_loop s now xs w).active ≡ []
  quiescent_empties xs w h e = no_member _ λ x. elim (Bool-cases (member x xs)) [
    | inl mem ↦ sweep_active xs w x ∙ rw (e, mem, all_idle-member xs x h mem)
    | inr out ↦ sweep_active xs w x ∙ rw (e, out)
  ]

  answered : (b q : Bool) (xs : List ℕ) → q ≡ b → (b ≡ true → xs ≡ []) → (q ≡ false) ⊎ (xs ≡ [])
  answered true q xs e h = inr (h refl)
  answered false q xs e h = inl e

  -- What closeIdleConns closes and keeps, by is_busy.
  pub close_idle_conns-busy :
      let (s', w) = close_idle_conns s now in
      ((x : ℕ) → member x w.closed ≡ (member x s.active_conn && not (is_busy s now x)))
      × ((x : ℕ) → member x s'.active_conn ≡ (member x s.active_conn && is_busy s now x))
      × ((w.quiescent ≡ false) ⊎ (s'.active_conn ≡ []))
  unfolding close_idle_conns
  close_idle_conns-busy =
      let start : Sweep = record { active = s.active_conn; closed = []; quiescent = true } in
      (
        λ x. sweep_closed s.active_conn start x,
        λ x. sweep_active s.active_conn start x ∙ kept (member x s.active_conn) (is_busy s now x),
        answered (all_idle s.active_conn) _ _ (sweep_quiescent s.active_conn start)
            (λ q. quiescent_empties s.active_conn start q refl),
      )

-- The states in which a connection can be, but for StateClosed and StateHijacked.
pub data Known : Type 0 where
  fresh active idle : Known

abbrev pub state_of : Known → ℤ
state_of fresh = state_new
state_of active = state_active
state_of idle = state_idle

-- Whether a connection with this state since `since` is to be closed at `now`: it has had a state, and it
-- is idle, or has been new for more than five seconds.
pub is_over : Known → ℕ → ℕ → Bool
is_over fresh since now = ltb 0 since && ltb (since + 5) now
is_over active since now = false
is_over idle since now = ltb 0 since

less_five : (now : ℕ) → 5 ≤ now → now < 2 ^ 62 → sub64 (pos now) (pos 5) ≡ pos (now - 5)
unfolding wrap64 Int.◌-ℤ◌
less_five now h big = ground arith

is_busy-is_over :
    (s : Server) (now since x : ℕ) (k : Known)
    → 5 ≤ now
    → now < 2 ^ 62
    → get_state s x ≡ (state_of k, pos since)
    → is_busy s (pos now) x ≡ not (is_over k since now)
unfolding is_busy is_over
is_busy-is_over s now since x fresh h big e = rw (e, less_five now h big) ground arith
is_busy-is_over s now since x active h big e = rw e refl
is_busy-is_over s now since x idle h big e = rw e ground arith

-- At a time from 5 to 2 ^ 62 seconds: of a connection that the server tracks and that is new, active or
-- idle since a time, closeIdleConns closes exactly one that has had a state set and is idle, or has been
-- new for more than five seconds; it keeps the others tracked. It answers true only if it leaves no
-- connection at all.
pub close_idle_conns_lem :
    (s : Server) (now since x : ℕ) (k : Known)
    → 5 ≤ now
    → now < 2 ^ 62
    → member x s.active_conn ≡ true
    → get_state s x ≡ (state_of k, pos since)
    → let (s', w) = close_idle_conns s (pos now) in
      (member x w.closed ≡ is_over k since now)
      × (member x s'.active_conn ≡ not (is_over k since now))
      × ((w.quiescent ≡ false) ⊎ (s'.active_conn ≡ []))
close_idle_conns_lem s now since x k h big mem e =
    let (closed, kept, left) = close_idle_conns-busy s (pos now) in
    let busy = is_busy-is_over s now since x k h big e in
    (closed x ∙ rw (mem, busy) (twice (is_over k since now)), kept x ∙ rw (mem, busy) refl, left)
  where
    twice : (b : Bool) → (true && not (not b)) ≡ b
    twice b = ground arith
