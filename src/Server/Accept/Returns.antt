-- ===== src/Server/Accept/Returns.antt =====
-- When Serve returns, what it leaves, and how long it sleeps between failures.
use Prim.Native.Nat.{min}
use native.Mathlib.Nat.{pow-suc}
use stratumserver.Prelude.{
  ℕ, zero, suc, ◌*◌, ◌^◌, ◌≤◌, ◌<◌, ◌==◌, ==_iff, ◌≡◌, refl, sym, ap, subst, ◌∙◌, Bool, true, false,
  List, [], ◌∷◌, Option, some, arith, if◌then◌else◌, Bool-cases, inl, inr, ◌⊎◌,
}
use stratumserver.Prelude.Int.{ℤ, pos, ◌*ℤ◌}
use stratumserver.Prelude.Int64.{wrap64}
use stratumserver.Server.{
  Server, track_listener, set_state, insert, member, delete, shutting_down, is_closed,
  get_done_chan_locked,
}
use stratumserver.Server.Conns.Idle.{member-delete}
use stratumserver.Server.Shutdown.{OnceCloseListener, once_close}
use stratumserver.Server.Accept.{
  next_delay, Accepted, connection, failure, Arrival, Outcome, server_closed, failed, serving,
  Accepting, Turn, go_on, leave, arrive, take_turn, accept_loop, defers, accepting, serve,
  fresh_listener,
}

-- The sleep after `suc n` temporary failures in a row.
pub delay_after : ℕ → ℤ
delay_after zero = next_delay (pos 0)
delay_after (suc n) = next_delay (delay_after n)

next_delay_doubles :
    (d : ℕ) → 0 < d → d ≤ 1000000000 → next_delay (pos d) ≡ pos (min (d * 2) 1000000000)
unfolding next_delay wrap64 ◌*ℤ◌
next_delay_doubles d h k = ground arith

capped_doubles :
    (p : ℕ)
    → 0 < p
    → min (min (5000000 * p) 1000000000 * 2) 1000000000 ≡ min (5000000 * (2 * p)) 1000000000
capped_doubles p h = omega arith

pow_pos : (n : ℕ) → 0 < 2 ^ n
pow_pos zero = omega arith
pow_pos (suc n) = omega (arith, pow_pos n, pow-suc 2 n)

-- The sleeps between failures in a row start at five milliseconds and double up to one second.
pub delay_after_lem : (n : ℕ) → delay_after n ≡ pos (min (5000000 * 2 ^ n) 1000000000)
unfolding delay_after
delay_after_lem zero = unfold next_delay in refl
delay_after_lem (suc n) =
    ap next_delay (delay_after_lem n)
    ∙ next_delay_doubles (min (5000000 * 2 ^ n) 1000000000) (omega (arith, pow_pos n)) (omega arith)
    ∙ ap pos (omega (arith, pow-suc 2 n))

-- The listener inside was closed once if the flag is set, and else not at all.
pub IsOnce : OnceCloseListener → Type 0
IsOnce oc = oc.closes ≡ (if oc.done then 1 else 0)

closes-IsOnce :
    (answer : Option ℕ) (oc : OnceCloseListener)
    → IsOnce oc
    → IsOnce (once_close answer oc).0 × ((once_close answer oc).0.closes ≡ 1)
unfolding IsOnce once_close
closes-IsOnce answer oc h = ground arith

arrive-IsOnce :
    (answer : Option ℕ) (a : Accepting) (p : Arrival)
    → IsOnce a.listener
    → IsOnce (arrive answer a p).listener
arrive-IsOnce answer a p h = elim (Bool-cases p.closing) [
  | inl y ↦ rw y (closes-IsOnce answer a.listener h).0
  | inr n ↦ rw n h
]

-- What a turn leaves to the loop.
left_by : Turn → Accepting
left_by (go_on b) = b
left_by (leave b o) = b

choose :
    (b c : Bool) (x y z : Turn) (l : OnceCloseListener)
    → (left_by x).listener ≡ l
    → (left_by y).listener ≡ l
    → (left_by z).listener ≡ l
    → (turn : Turn) × ((if b then some x else (if c then some y else some z)) ≡ some turn)
      × ((left_by turn).listener ≡ l)
choose true c x y z l p q r = (x, refl, p)
choose false true x y z l p q r = (y, refl, q)
choose false false x y z l p q r = (z, refl, r)

turn_total :
    (a : Accepting) (now : ℤ) (r : Accepted)
    → (turn : Turn) × (take_turn a now r ≡ some turn) × ((left_by turn).listener ≡ a.listener)
unfolding take_turn left_by set_state
turn_total a now (connection c) = (_, refl, refl)
turn_total a now (failure e temporary) =
    choose (is_closed (get_done_chan_locked a.server).1) temporary _ _ _ a.listener refl refl refl

-- The loop after a turn.
pub loop_go_on :
    (answer : Option ℕ) (a b : Accepting) (p : Arrival) (ps : List Arrival)
    → take_turn (arrive answer a p) p.now p.accepted ≡ some (go_on b)
    → accept_loop answer a (p ∷ ps) ≡ accept_loop answer b ps
unfolding accept_loop
loop_go_on answer a b p ps h = rw h

pub loop_leave :
    (answer : Option ℕ) (a b : Accepting) (o : Outcome) (p : Arrival) (ps : List Arrival)
    → take_turn (arrive answer a p) p.now p.accepted ≡ some (leave b o)
    → accept_loop answer a (p ∷ ps) ≡ some (b, o)
unfolding accept_loop
loop_leave answer a b o p ps h = rw h

after_turn :
    (answer : Option ℕ) (a : Accepting) (p : Arrival) (ps : List Arrival) (turn : Turn)
    → take_turn (arrive answer a p) p.now p.accepted ≡ some turn
    → (b : Accepting) × (o : Outcome) × (accept_loop answer (left_by turn) ps ≡ some (b, o))
      × IsOnce b.listener
    → IsOnce (left_by turn).listener
    → (b : Accepting) × (o : Outcome) × (accept_loop answer a (p ∷ ps) ≡ some (b, o))
      × IsOnce b.listener
unfolding left_by
after_turn answer a p ps (go_on b) e (b', o, r, k) once =
    (b', o, loop_go_on answer a b p ps e ∙ r, k)
after_turn answer a p ps (leave b o) e r once = (b, o, loop_leave answer a b o p ps e, once)

accept_loop_total :
    (answer : Option ℕ) (a : Accepting) (ps : List Arrival)
    → IsOnce a.listener
    → (b : Accepting) × (o : Outcome) × (accept_loop answer a ps ≡ some (b, o)) × IsOnce b.listener
unfolding left_by
accept_loop_total answer a [] h = (a, serving, unfold accept_loop in refl, h)
accept_loop_total answer a (p ∷ ps) h =
    let (turn, e, same) = turn_total (arrive answer a p) p.now p.accepted in
    let once : IsOnce (left_by turn).listener =
      subst IsOnce (sym same) (arrive-IsOnce answer a p h) in
    after_turn answer a p ps turn e (accept_loop_total answer (left_by turn) ps once) once

-- What is so when Serve has returned.
unfoldable pub IsLeft : ℕ → Accepting × Outcome → Type 0
IsLeft ln r =
    (r.1 ≡ serving) ⊎ ((member ln r.0.server.listeners ≡ false) × (r.0.listener.closes ≡ 1))

pub same_number : (x : ℕ) → (x == x) ≡ true
same_number x = (==_iff x x).1 refl

pub deleted : (ln : ℕ) (xs : List ℕ) → member ln (delete ln xs) ≡ false
deleted ln xs = member-delete ln ln xs ∙ rw (same_number ln) (ground arith)

defers_leave :
    (answer : Option ℕ) (ln : ℕ) (b : Accepting) (o : Outcome)
    → IsOnce b.listener
    → IsLeft ln (defers answer ln (b, o))
unfolding IsLeft track_listener
defers_leave answer ln b serving h = inl refl
defers_leave answer ln b server_closed h =
    inr (deleted ln b.server.listeners, (closes-IsOnce answer b.listener h).1)
defers_leave answer ln b (failed e) h =
    inr (deleted ln b.server.listeners, (closes-IsOnce answer b.listener h).1)

pub serve_down :
    (answer : Option ℕ) (s : Server) (ln : ℕ) (ps : List Arrival)
    → s.in_shutdown ≡ true
    → serve answer s ln ps
      ≡ some
          (record (accepting s) { listener = (once_close answer fresh_listener).0 }, server_closed)
unfolding serve track_listener shutting_down
serve_down answer s ln ps h = rw h

abbrev pub listening : Server → ℕ → Server
listening s ln = record s { listeners = insert ln s.listeners }

pick {ℓ} : {A : Type ℓ} (b : Bool) (x y : A) → b ≡ false → (if b then x else y) ≡ y
pick b x y h = rw h refl

tracked_up :
    (s : Server) (ln : ℕ)
    → s.in_shutdown ≡ false
    → track_listener s ln true ≡ (listening s ln, true)
unfolding track_listener shutting_down
tracked_up s ln h = pick s.in_shutdown _ _ h

pub serve_up :
    (answer : Option ℕ) (s : Server) (ln : ℕ) (ps : List Arrival) (r : Accepting × Outcome)
    → s.in_shutdown ≡ false
    → accept_loop answer (accepting (listening s ln)) ps ≡ some r
    → serve answer s ln ps ≡ some (defers answer ln r)
unfolding serve
serve_up answer s ln ps r h e = rw (tracked_up s ln h, e)

-- Serve never panics, whatever arrives. When it has returned, on a server that did not track the
-- listener before, the listener is not tracked and was closed exactly once.
pub serve_total :
    (answer : Option ℕ) (s : Server) (ln : ℕ) (ps : List Arrival)
    → member ln s.listeners ≡ false
    → (r : Accepting × Outcome) × (serve answer s ln ps ≡ some r) × IsLeft ln r
unfolding IsOnce
serve_total answer s ln ps h = elim (Bool-cases s.in_shutdown) [
  | inl down ↦ (
    (record (accepting s) { listener = (once_close answer fresh_listener).0 }, server_closed),
    serve_down answer s ln ps down,
    unfold IsLeft in inr (h, (closes-IsOnce answer fresh_listener refl).1),
  )
  | inr up ↦
      let (b, o, e, k) = accept_loop_total answer (accepting (listening s ln)) ps refl in
      (defers answer ln (b, o), serve_up answer s ln ps (b, o) up e, defers_leave answer ln b o k)
]
