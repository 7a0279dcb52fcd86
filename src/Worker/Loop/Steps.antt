-- ===== src/Worker/Loop/Steps.antt =====
-- The loop of conn.serve in stratum/server/conn.go as the goroutine of a connection in Server/System.
use mathlib.Core.Option.{some-injective}
use stratumserver.Prelude.{
  ℕ, ◌≡◌, refl, sym, ap, ◌∙◌, Bool, true, false, List, [], ◌∷◌, Option, some, subst, Bool-cases,
  inl, inr,
}
use stratumserver.Prelude.Int.{ℤ}
use stratumserver.Server.{Server, set_state, stored, state_active, state_closed, member}
use stratumserver.Server.Accept.Returns.{deleted, same_number}
use stratumserver.Server.System.Turns.{ends-set_state}
use stratumserver.Server.System.{
  System, Runs, Step, stays, steps, activates, ends, ended, end_stored, stores_closed, server_of,
  with_server,
}
use stratumserver.Worker.{Library}
use stratumserver.Worker.Loop.{
  Outside, Serving, Round, Turn, go_on, return_, recovered, crashed, mark, turn, Exit, waiting,
  finished, broken, close_conn, serve_loop, on_reading,
}
use stratumserver.Worker.Loop.Exits.{mark_total}
use stratumserver.Worker.Loop.Kept.{turn_server, closed_state, on_reading-server}

first_member : (c : ℕ) (cs : List ℕ) → member c (c ∷ cs) ≡ true
first_member c cs = rw (same_number c) refl

module _ (lib : Library) (out : Outside) (flows : ℕ → Bool) (c : ℕ) where
  module _ (ln : ℕ) (answer : ℕ → Option ℕ) where
    -- What the other goroutines do before each round, from the system in which that round begins, is
    -- steps to a system in which the goroutine of this connection runs on.
    unfoldable pub Interleaves : System → List Round → Type 0
    Interleaves y [] = Unit
    Interleaves y (r ∷ rs) =
        (z : System) × Runs ln answer y z
        × (server_of z ≡ r.meanwhile (server_of y))
        × (member c z.live ≡ true)
        × ((t : Server)
            → mark lib out flows c r (server_of z) ≡ some t
            → Interleaves (with_server z t) rs)

    -- A run of the system to one with this server, in which the goroutine runs, or not.
    abbrev pub RunsTo : System → Server → Bool → Type 0
    RunsTo y s lives =
        (z : System) × Runs ln answer y z × (server_of z ≡ s) × (member c z.live ≡ lives)

    pub IsRun : System → Exit → Type 0
    IsRun y (waiting s) = RunsTo y s.server true
    IsRun y (finished t) = RunsTo y t false
    IsRun y (broken s) = RunsTo y s.server true

    join_runs : (y z w : System) → Runs ln answer y z → Runs ln answer z w → Runs ln answer y w
    join_runs y _ w (stays _) s = s
    join_runs y z w (steps _ u _ h r) s = steps y u w h (join_runs u z w r s)

    one : (y z : System) → Step ln answer y z → Runs ln answer y z
    one y z h = steps y z z h (stays z)

    marks_run :
        (y : System) (t : Server) (r : Round)
        → member c y.live ≡ true
        → mark lib out flows c r (server_of y) ≡ some t
        → Runs ln answer y (with_server y t)
    unfolding set_state
    marks_run y t r live e = elim (Bool-cases r.read_any) [
      | inl any ↦
          let set : stored (server_of y) r.now c state_active ≡ t =
            some-injective _ t (rw any at e) in
          subst (λ u. Runs ln answer y (with_server y u)) set (one y _ (activates y r.now c live))
      | inr no_byte ↦
          let kept : server_of y ≡ t = some-injective (server_of y) t (rw no_byte at e) in
          subst (λ u. Runs ln answer y (with_server y u)) kept (stays y)
    ]

    -- The goroutine has ended and its last store is done.
    closes :
        (y : System) (end : ℤ) (s : Serving)
        → server_of y ≡ s.server
        → member c y.live ≡ true
        → (t : Server) × (close_conn lib out flows c end s ≡ some (finished t)) × RunsTo y t false
    unfolding close_conn ended end_stored
    closes y end s same live =
        let (t, set) = closed_state s.server end c in
        let z = end_stored (ended y c) end c in
        let there : server_of z ≡ t =
          some-injective _ t
            (sym (ends-set_state y end c) ∙ ap (λ u. set_state u end c state_closed) same ∙ set) in
        (
          t,
          rw set refl,
          (
            z,
            steps y (ended y c) z (ends y c live)
                (one (ended y c) z (stores_closed (ended y c) end c (first_member c y.ending))),
            there,
            deleted c y.live,
          ),
        )

    join-IsRun : (y z : System) (e : Exit) → Runs ln answer y z → IsRun z e → IsRun y e
    unfolding IsRun
    join-IsRun y z (waiting s) r (w, q, same, lives) = (w, join_runs y z w r q, same, lives)
    join-IsRun y z (finished t) r (w, q, same, lives) = (w, join_runs y z w r q, same, lives)
    join-IsRun y z (broken s) r (w, q, same, lives) = (w, join_runs y z w r q, same, lives)

    abbrev Loops : System → ℤ → Serving → List Round → Type 0
    Loops y end s rs = (e : Exit) × (serve_loop lib out flows c end s rs ≡ some e) × IsRun y e

    after_turn :
        (y : System) (end : ℤ) (s : Serving) (r : Round) (rs : List Round) (t : Turn)
        → turn lib out flows c s r ≡ some t
        → server_of y ≡ turn_server t
        → member c y.live ≡ true
        → ((s' : Serving) → server_of y ≡ s'.server → Loops y end s' rs)
        → Loops y end s (r ∷ rs)
    unfolding serve_loop turn_server IsRun
    after_turn y end s r rs (go_on s') h same live later =
        let (e, q, k) = later s' same in (e, rw h q, k)
    after_turn y end s r rs (return_ s') h same live later =
        let (t, q, k) = closes y end s' same live in (finished t, rw h q, k)
    after_turn y end s r rs (recovered s') h same live later =
        let (t, q, k) = closes y end s' same live in (finished t, rw h q, k)
    after_turn y end s r rs (crashed s') h same live later =
        (broken s', rw h refl, (y, stays y, same, live))

    turned_by :
        (s : Serving) (r : Round) (t : Server)
        → mark lib out flows c r (r.meanwhile s.server) ≡ some t
        → turn lib out flows c s r
          ≡ some (on_reading lib out flows c (record s { server = t }) r.now r.reading)
    unfolding turn
    turned_by s r t e = rw e refl

    -- The loop of serve is a goroutine of the system: from any system in which it runs over this server,
    -- if what the others do before each round is steps from the system that the loop has come to, in
    -- which this one runs on, then the loop, which never panics in setState, comes by steps to the
    -- server that it leaves; the goroutine still runs if the loop waits, and is over if it has returned.
    pub serve_loop-IsRun :
        (y : System) (end : ℤ) (s : Serving) (rs : List Round)
        → server_of y ≡ s.server
        → member c y.live ≡ true
        → Interleaves y rs
        → (e : Exit) × (serve_loop lib out flows c end s rs ≡ some e) × IsRun y e
    unfolding IsRun Interleaves
    serve_loop-IsRun y end s [] same live k =
        (waiting s, (unfold serve_loop in refl), (y, stays y, same, live))
    serve_loop-IsRun y end s (r ∷ rs) same live (y1, run1, same1, live1, next) =
        let here : r.meanwhile s.server ≡ server_of y1 = ap r.meanwhile (sym same) ∙ sym same1 in
        let (t, marked) = mark_total lib out flows c r (r.meanwhile s.server) in
        let marked1 = subst (λ u. mark lib out flows c r u ≡ some t) here marked in
        let run2 = marks_run y1 t r live1 marked1 in
        let reads = on_reading-server lib out flows c (record s { server = t }) r.now r.reading in
        let (e, q, rest) =
          after_turn (with_server y1 t) end s r rs _ (turned_by s r t marked) (sym reads) live1
            (λ s' same'.
              serve_loop-IsRun (with_server y1 t) end s' rs same' live1 (next t marked1)) in
        (e, q, join-IsRun y (with_server y1 t) e (join_runs y y1 (with_server y1 t) run1 run2) rest)
