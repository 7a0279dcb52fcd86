-- ===== src/Server/System/Apart.antt =====
-- The connection that Serve has not started yet is none of those that it started.
use mathlib.Core.Bool.{false≢true}
use stratumserver.Prelude.{
  ℕ, ◌≡◌, refl, sym, ap, ◌∙◌, Bool, true, false, ◌&&◌, ◌||◌, ◌==◌, ==_iff, Option, some, arith, inl,
  inr, Bool-cases, List,
}
use stratumserver.Prelude.Int.{ℤ}
use stratumserver.Server.{Server, member}
use stratumserver.Server.Conns.Idle.{member-delete}
use stratumserver.Server.Accept.{Turn, take_turn, failure}
use stratumserver.Server.System.{
  System, Step, turned, counted, listened, unlistened, ended, listens, unlistens, activates, ends,
  begins, sweeps, counts, expires, start, pending, looping, fails, accepts, stores_new, launches,
  stores_closed, marks, swept_by, starting, end_stored, accepted_by, new_stored, launched,
}
use stratumserver.Server.System.Turns.{turn_failure}

pub record IsApart (y : System) : Type 0 where
  pub started : (c : ℕ) → member c y.live ≡ true → member c y.loop.started ≡ true
  pub apart : (c : ℕ) → member c (pending y.phase) ≡ true → member c y.loop.started ≡ false

frame :
    (y z : System)
    → (pending z.phase ≡ pending y.phase) × (z.live ≡ y.live) × (z.loop.started ≡ y.loop.started)
    → IsApart y
    → IsApart z
frame y z (wait, live, begun) h = record {
  started = λ c m. ap (member c) begun ∙ h.started c (ap (member c) (sym live) ∙ m);
  apart = λ c m. ap (member c) begun ∙ h.apart c (ap (member c) (sym wait) ∙ m);
}

only :
    (c x : ℕ) (ys : List ℕ) → member c ys ≡ false → (x == c || false) ≡ true → member x ys ≡ false
only c x ys out m = elim (Bool-cases (x == c)) [
  | inl e ↦ ap (λ z. member z ys) ((==_iff x c).0 e) ∙ out
  | inr e ↦ absurd (false≢true (sym (rw e refl) ∙ m))
]

or_mono : (a b d : Bool) → (b ≡ true → d ≡ true) → (a || b) ≡ true → (a || d) ≡ true
or_mono a b d h m = ground arith

fst_and : (a b : Bool) → (a && b) ≡ true → a ≡ true
fst_and a b m = ground arith

heard-pending :
    (ln : ℕ) (y : System) → y.phase ≡ starting → pending (listened ln y).phase ≡ pending y.phase
unfolding listened
heard-pending ln y p = ground arith

fails-IsApart :
    (y : System) (now : ℤ) (n : ℕ) (temporary : Bool) (turn : Turn)
    → y.phase ≡ looping
    → take_turn y.loop now (failure n temporary) ≡ some turn
    → IsApart y
    → IsApart (turned y turn)
unfolding turned
fails-IsApart y now n temporary turn p e h =
    let k = turn_failure y.loop now n temporary turn e in
    elim k.result [
      | inl goes_on ↦ rw goes_on (frame y _ (refl, refl, k.started) h)
      | inr (o, leaves, _) ↦ rw leaves (frame y _ (sym (ap pending p), refl, k.started) h)
    ]

pub Step-IsApart :
    (ln : ℕ) (answer : ℕ → Option ℕ) (y z : System) → Step ln answer y z → IsApart y → IsApart z
unfolding listened unlistened ended end_stored swept_by counted accepted_by new_stored launched
Step-IsApart ln answer y _ (listens _ p) h = frame y _ (heard-pending ln y p, refl, refl) h
Step-IsApart ln answer y _ (fails _ now n temporary turn p e) h =
    fails-IsApart y now n temporary turn p e h
Step-IsApart ln answer y _ (accepts _ c p out) h = record {
  started = h.started;
  apart = λ x m. only c x y.loop.started out m;
}
Step-IsApart ln answer y _ (stores_new _ now c p) h = frame y _ (sym (ap pending p), refl, refl) h
Step-IsApart ln answer y _ (launches _ c p) h = record {
  started = λ x m. or_mono (x == c) (member x y.live) _ (h.started x) m;
  apart = λ x m. absurd (false≢true m);
}
Step-IsApart ln answer y _ (unlistens _ o p) h = frame y _ (sym (ap pending p), refl, refl) h
Step-IsApart ln answer y _ (activates _ now c m) h = frame y _ (refl, refl, refl) h
Step-IsApart ln answer y _ (ends _ c m) h = record {
  started = λ x k. h.started x (fst_and _ _ (sym (member-delete x c y.live) ∙ k));
  apart = h.apart;
}
Step-IsApart ln answer y _ (stores_closed _ now c m) h = frame y _ (refl, refl, refl) h
Step-IsApart ln answer y _ (marks _ q) h = frame y _ (refl, refl, refl) h
Step-IsApart ln answer y _ (begins _ s err hooks q e) h = frame y _ (refl, refl, refl) h
Step-IsApart ln answer y _ (sweeps _ now err q) h = frame y _ (refl, refl, refl) h
Step-IsApart ln answer y _ (counts _ err b q) h = frame y _ (refl, refl, refl) h
Step-IsApart ln answer y _ (expires _ err q) h = frame y _ (refl, refl, refl) h

pub start-IsApart : (s : Server) → IsApart (start s)
unfolding start
start-IsApart s = record {
  started = λ c m. absurd (false≢true m);
  apart = λ c m. absurd (false≢true m);
}

-- A connection that Serve has not started yet has no goroutine.
pub not_live :
    (y : System) (c : ℕ) → IsApart y → member c y.live ≡ true → member c (pending y.phase) ≡ false
not_live y c h m = elim (Bool-cases (member c (pending y.phase))) [
  | inr out ↦ out
  | inl wait ↦ absurd (false≢true (sym (h.apart c wait) ∙ h.started c m))
]
