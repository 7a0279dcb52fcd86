-- ===== src/Server/Shutdown/Graceful.antt =====
-- What it means that Shutdown returns, and what it waits for.
use mathlib.Core.Bool.{false≢true}
use stratumserver.Prelude.{
  ◌++◌, ◌⊎◌, ℕ, ◌≡◌, refl, sym, ap, ◌∙◌, ◌≢◌, ◌==◌, Bool, true, false, ◌&&◌, List, [], ◌∷◌, Option,
  arith, length, Bool-cases, inl, inr, All,
}
use stratumserver.Prelude.Int.{ℤ}
use stratumserver.Server.{Server, num_listeners, member, get_state, state_active}
use stratumserver.Server.Conns.{is_busy, close_idle_conns}
use stratumserver.Server.Conns.Idle.{close_idle_conns-busy}
use stratumserver.Server.Shutdown.{waiting, Poll, quiet, shutdown_loop}

both : (a b : Bool) → (a && b) ≡ true → (a ≡ true) × (b ≡ true)
both a b h = ground arith

drained : (q : Bool) (xs : List ℕ) → (q ≡ false) ⊎ (xs ≡ []) → q ≡ true → xs ≡ []
drained q xs (inl e) h = absurd (false≢true (sym e ∙ h))
drained q xs (inr e) h = e

pub length_zero : (xs : List ℕ) → (length xs == 0) ≡ true → xs ≡ []
length_zero [] h = refl
length_zero (x ∷ xs) h = ground arith

abbrev after_sweep : Server → Poll → Server
after_sweep s p = (close_idle_conns (p.before s) p.now).0

abbrev is_quiet : Server → Poll → Bool
is_quiet s p =
    (close_idle_conns (p.before s) p.now).1.quiescent
    && num_listeners (p.between (after_sweep s p)) == 0

quiet_inj : {s t : Server} {e d : Option ℕ} → quiet s e ≡ quiet t d → (s ≡ t) × (e ≡ d)
quiet_inj h = ground arith

-- The rounds of the loop, by what the test of a round says.
loop_quiet :
    (lnerr : Option ℕ) (s : Server) (p : Poll) (ps : List Poll)
    → is_quiet s p ≡ true
    → shutdown_loop lnerr s (p ∷ ps) ≡ quiet (p.between (after_sweep s p)) lnerr
unfolding shutdown_loop
loop_quiet lnerr s p ps h = rw h

loop_waits :
    (lnerr : Option ℕ) (s : Server) (p : Poll) (ps : List Poll)
    → is_quiet s p ≡ false
    → p.expired ≡ false
    → shutdown_loop lnerr s (p ∷ ps) ≡ shutdown_loop lnerr (p.between (after_sweep s p)) ps
unfolding shutdown_loop
loop_waits lnerr s p ps h k = rw (h, k)

in_time :
    (lnerr e : Option ℕ) (s s' : Server) (p : Poll) (ps : List Poll)
    → is_quiet s p ≡ false
    → shutdown_loop lnerr s (p ∷ ps) ≡ quiet s' e
    → p.expired ≡ false
unfolding shutdown_loop
in_time lnerr e s s' p ps h q = elim (Bool-cases p.expired) [
  | inl late ↦ ground arith
  | inr time ↦ time
]

loop_goes_on :
    (lnerr e : Option ℕ) (s s' : Server) (p : Poll) (ps : List Poll)
    → is_quiet s p ≡ false
    → shutdown_loop lnerr s (p ∷ ps) ≡ quiet s' e
    → shutdown_loop lnerr (p.between (after_sweep s p)) ps ≡ quiet s' e
loop_goes_on lnerr e s s' p ps h q =
    sym (loop_waits lnerr s p ps h (in_time lnerr e s s' p ps h q)) ∙ q

-- The last round: the rounds before it left the loop waiting on the server `before`; the sweep of that
-- round left no connection, and what others did after it gave the server `s'`.
pub record IsLastRound (lnerr : Option ℕ) (s s' : Server) (ps : List Poll) : Type 0 where
  pub earlier : List Poll
  pub last : Poll
  pub later : List Poll
  pub before : Server
  pub rounds : ps ≡ earlier ++ last ∷ later
  pub waited : shutdown_loop lnerr s earlier ≡ waiting before
  pub swept : (close_idle_conns (last.before before) last.now).0.active_conn ≡ []
  pub after : s' ≡ last.between (close_idle_conns (last.before before) last.now).0

one_more :
    (lnerr : Option ℕ) (s s' : Server) (p : Poll) (ps : List Poll)
    → is_quiet s p ≡ false
    → p.expired ≡ false
    → IsLastRound lnerr (p.between (after_sweep s p)) s' ps
    → IsLastRound lnerr s s' (p ∷ ps)
one_more lnerr s s' p ps h k r = record {
  earlier = p ∷ r.earlier;
  last = r.last;
  later = r.later;
  before = r.before;
  rounds = ap (λ qs. p ∷ qs) r.rounds;
  waited = loop_waits lnerr s p r.earlier h k ∙ r.waited;
  swept = r.swept;
  after = r.after;
}

pub record IsEnd (lnerr e : Option ℕ) (s s' : Server) (ps : List Poll) : Type 0 where
  pub error : e ≡ lnerr
  pub unlistened : s'.listeners ≡ []
  pub round : IsLastRound lnerr s s' ps

now_quiet :
    (lnerr e : Option ℕ) (s s' : Server) (p : Poll) (ps : List Poll)
    → is_quiet s p ≡ true
    → shutdown_loop lnerr s (p ∷ ps) ≡ quiet s' e
    → IsEnd lnerr e s s' (p ∷ ps)
unfolding num_listeners
now_quiet lnerr e s s' p ps done h =
    let (same, err) = quiet_inj (sym (loop_quiet lnerr s p ps done) ∙ h) in
    let (swept_all, unlistened) = both _ _ done in
    record {
      error = sym err;
      unlistened = sym (ap (λ t. t.listeners) same) ∙ length_zero _ unlistened;
      round = record {
        earlier = [];
        last = p;
        later = ps;
        before = s;
        rounds = refl;
        waited = unfold shutdown_loop in refl;
        swept = drained _ _ (close_idle_conns-busy (p.before s) p.now).2 swept_all;
        after = sym same;
      };
    }

later_quiet :
    (lnerr e : Option ℕ) (s s' : Server) (p : Poll) (ps : List Poll)
    → is_quiet s p ≡ false
    → p.expired ≡ false
    → IsEnd lnerr e (p.between (after_sweep s p)) s' ps
    → IsEnd lnerr e s s' (p ∷ ps)
later_quiet lnerr e s s' p ps more time r = record {
  error = r.error;
  unlistened = r.unlistened;
  round = one_more lnerr s s' p ps more time r.round;
}

waiting_not_quiet : {s s' : Server} {e : Option ℕ} → waiting s ≢ quiet s' e
waiting_not_quiet h = cc

no_rounds : (lnerr e : Option ℕ) (s s' : Server) → shutdown_loop lnerr s [] ≢ quiet s' e
unfolding shutdown_loop
no_rounds lnerr e s s' h = waiting_not_quiet h

-- If Shutdown returns by itself, it returns the error of the listeners; the sweep of its last round
-- left no connection, and no listener was tracked when they were counted after it.
pub shutdown_loop-quiet :
    (lnerr e : Option ℕ) (s s' : Server) (ps : List Poll)
    → shutdown_loop lnerr s ps ≡ quiet s' e
    → IsEnd lnerr e s s' ps
shutdown_loop-quiet lnerr e s s' [] h = absurd (no_rounds lnerr e s s' h)
shutdown_loop-quiet lnerr e s s' (p ∷ ps) h = elim (Bool-cases (is_quiet s p)) [
  | inl done ↦ now_quiet lnerr e s s' p ps done h
  | inr more ↦ later_quiet lnerr e s s' p ps more (in_time lnerr e s s' p ps more h) (
      shutdown_loop-quiet lnerr e (p.between (after_sweep s p)) s' ps
        (loop_goes_on lnerr e s s' p ps more h))
]

-- The connection `c` is tracked and its state word says active.
abbrev pub IsActive : ℕ → Server → Type 0
IsActive c s = (member c s.active_conn ≡ true) × ((get_state s c).0 ≡ state_active)

-- What the other goroutines do in a round leaves the connection active.
abbrev pub KeepsActive : ℕ → Poll → Type 0
KeepsActive c p =
    ((s : Server) → IsActive c s → IsActive c (p.before s))
    × ((s : Server) → IsActive c s → IsActive c (p.between s))

active_busy :
    (s : Server) (now : ℤ) (c : ℕ) → (get_state s c).0 ≡ state_active → is_busy s now c ≡ true
unfolding is_busy
active_busy s now c h = rw h

empty_member : (c : ℕ) (xs : List ℕ) → xs ≡ [] → member c xs ≡ false
empty_member c xs h = rw h

sweep-IsActive :
    (s : Server) (p : Poll) (c : ℕ) → IsActive c (p.before s) → IsActive c (after_sweep s p)
sweep-IsActive s p c h =
    let (closed, kept, gone) = close_idle_conns-busy (p.before s) p.now in
    (
      kept c ∙ rw (h.0, active_busy (p.before s) p.now c h.1),
      (unfold close_idle_conns get_state in h.1),
    )

active_not_quiet : (s : Server) (p : Poll) (c : ℕ) → IsActive c (p.before s) → is_quiet s p ≡ false
active_not_quiet s p c h = elim (Bool-cases (is_quiet s p)) [
  | inr no_more ↦ no_more
  | inl done ↦
      let (closed, kept, gone) = close_idle_conns-busy (p.before s) p.now in
      absurd (
        false≢true (
          sym (empty_member c _ (drained _ _ gone (both _ _ done).0)) ∙ (sweep-IsActive s p c h).0))
]

-- Shutdown waits for a connection that is active: as long as one stays tracked and active, Shutdown
-- does not return by itself, but only when its context is done.
pub shutdown_loop-active :
    (lnerr e : Option ℕ) (s s' : Server) (ps : List Poll) (c : ℕ)
    → IsActive c s
    → All (KeepsActive c) ps
    → shutdown_loop lnerr s ps ≢ quiet s' e
shutdown_loop-active lnerr e s s' [] c a k h = no_rounds lnerr e s s' h
shutdown_loop-active lnerr e s s' (p ∷ ps) c a k h =
    let before = k.0.0 s a in
    shutdown_loop-active lnerr e (p.between (after_sweep s p)) s' ps c
      (k.0.1 (after_sweep s p) (sweep-IsActive s p c before)) k.1
      (loop_goes_on lnerr e s s' p ps (active_not_quiet s p c before) h)
