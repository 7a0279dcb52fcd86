-- ===== src/Server/System/Phases.antt =====
-- Where Serve and Shutdown are, against the listener, the mark and the channel of the server.
use stratumserver.Prelude.{ℕ, ◌≡◌, refl, sym, ap, ◌∙◌, Bool, true, false, if◌then◌else◌}
use stratumserver.Server.{member}
use stratumserver.Server.Accept.{server_closed}
use stratumserver.Server.Reach.{IsOrdered, listens-frame}
use stratumserver.Server.System.{
  System, Stage, Phase, swept, returned, expired, not_called, server_of, polling, listened,
  starting, looping, leaving, gone, storing, marked, launching,
}
use stratumserver.Server.System.Ops.{
  IsFrame, track_listener-up, track_listener-down, track_listener-refused,
}

-- Serve has tracked its listener and not yet given it up.
abbrev pub is_up : Phase → Bool
is_up starting = false
is_up looping = true
is_up (storing c) = true
is_up (launching c) = true
is_up (leaving o) = true
is_up (gone o) = false

abbrev pub is_called : Stage → Bool
is_called not_called = false
is_called _ = true

abbrev pub is_returned : Stage → Bool
is_returned (returned err) = true
is_returned _ = false

-- Serve answers ErrServerClosed.
abbrev pub is_refused : Phase → Bool
is_refused (leaving server_closed) = true
is_refused (gone server_closed) = true
is_refused _ = false

pub record IsOrderly (ln : ℕ) (y : System) : Type 0 where
  pub up : is_up y.phase ≡ true → member ln (server_of y).listeners ≡ true
  pub marked : (server_of y).in_shutdown ≡ is_called y.stage
  pub down : is_returned y.stage ≡ true → is_up y.phase ≡ false
  pub refused : is_refused y.phase ≡ true → (server_of y).in_shutdown ≡ true
  pub chan : IsOrdered (server_of y)

pub frame :
    (ln : ℕ) (y z : System)
    → IsFrame (server_of y) (server_of z)
    → IsOrdered (server_of z)
    → (is_up z.phase ≡ is_up y.phase)
      × (is_refused z.phase ≡ is_refused y.phase)
      × (is_called z.stage ≡ is_called y.stage)
    → (is_returned z.stage ≡ true → is_returned y.stage ≡ true)
    → IsOrderly ln y
    → IsOrderly ln z
unfolding IsFrame
frame ln y z (mark, lns) chan (up, refused, called) back h = record {
  up = λ u. ap (member ln) lns ∙ h.up (sym up ∙ u);
  marked = mark ∙ h.marked ∙ sym called;
  down = λ r. up ∙ h.down (back r);
  refused = λ r. mark ∙ h.refused (sym refused ∙ r);
  chan = chan;
}

heard : Bool → Phase
heard u = if u then looping else gone server_closed

heard-up : (u : Bool) → is_up (heard u) ≡ true → u ≡ true
unfolding heard
heard-up true e = refl
heard-up false e = e

heard-down : (u : Bool) → u ≡ false → is_up (heard u) ≡ false
unfolding heard
heard-down u e = rw e refl

heard-refused : (u : Bool) → is_refused (heard u) ≡ true → u ≡ false
unfolding heard
heard-refused true e = sym e
heard-refused false e = refl

called_if_returned : (st : Stage) → is_returned st ≡ true → is_called st ≡ true
called_if_returned (returned err) e = refl
called_if_returned not_called e = e
called_if_returned marked e = refl
called_if_returned (polling err) e = refl
called_if_returned (swept err q) e = refl
called_if_returned expired e = refl

pub listens-IsOrderly :
    (ln : ℕ) (y : System)
    → IsOrdered (server_of (listened ln y))
    → IsOrderly ln y
    → IsOrderly ln (listened ln y)
unfolding listened heard
listens-IsOrderly ln y chan h =
    let s = server_of y in
    let (mark, _) = listens-frame s ln in
    record {
      up = λ u. track_listener-up s ln (heard-up _ u);
      marked = mark ∙ h.marked;
      down = λ r. heard-down _ (track_listener-down s ln (h.marked ∙ called_if_returned y.stage r));
      refused = λ r. mark ∙ track_listener-refused s ln (heard-refused _ r);
      chan = chan;
    }
