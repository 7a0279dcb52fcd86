-- ===== src/Server/Accept/Closing.antt =====
-- Serve on a server that shuts down, and the connections it starts.
use stratumserver.Prelude.{
  ℕ, ◌≡◌, refl, sym, ap, ◌∙◌, Bool, List, [], ◌∷◌, Option, some, arith, inl, inr, ◌⊎◌, All,
}
use stratumserver.Prelude.Int.{ℤ, pos}
use stratumserver.Server.{Server, closed_chan, get_done_chan_locked, set_state, track_conn}
use stratumserver.Server.Accept.{
  Accepted, connection, failure, Arrival, Outcome, server_closed, serving, Accepting, go_on, leave,
  arrive, take_turn, accept_loop,
}
use stratumserver.Server.Accept.Returns.{loop_go_on, loop_leave}

-- No goroutine makes a new channel while Accept waits: once closed it stays closed.
abbrev pub KeepsClosed : Arrival → Type 0
KeepsClosed p = (s : Server) → s.done_chan ≡ closed_chan → (p.meanwhile s).done_chan ≡ closed_chan

turn_connection :
    (a : Accepting) (now : ℤ) (c : ℕ)
    → (b : Accepting) × (take_turn a now (connection c) ≡ some (go_on b))
      × (b.server.done_chan ≡ a.server.done_chan)
      × (b.slept ≡ a.slept)
      × (b.temp_delay ≡ pos 0)
unfolding take_turn set_state track_conn
turn_connection a now c = (_, refl, refl, refl, refl)

turn_failure :
    (a : Accepting) (now : ℤ) (e : ℕ) (temporary : Bool)
    → a.server.done_chan ≡ closed_chan
    → take_turn a now (failure e temporary)
      ≡ some (leave (record a { server = (get_done_chan_locked a.server).0 }) server_closed)
unfolding take_turn get_done_chan_locked
turn_failure a now e temporary h = rw h refl

result_eq :
    (a b : Accepting) (o q : Outcome)
    → ◌≡◌ {A = Option (Accepting × Outcome)} (some (a, o)) (some (b, q))
    → (o ≡ q) × (a ≡ b)
result_eq a b o q e = ground arith

abbrev Answers : Accepting → Accepting → Outcome → Type 0
Answers a b o = ((o ≡ server_closed) ⊎ (o ≡ serving)) × (b.slept ≡ a.slept)

closed_arrival :
    (answer : Option ℕ) (a b : Accepting) (o : Outcome) (p : Arrival) (ps : List Arrival)
    (r : Accepted)
    → p.accepted ≡ r
    → (p.meanwhile a.server).done_chan ≡ closed_chan
    → ((a' : Accepting)
        → a'.server.done_chan ≡ closed_chan
        → accept_loop answer a' ps ≡ some (b, o)
        → Answers a' b o)
    → accept_loop answer a (p ∷ ps) ≡ some (b, o)
    → Answers a b o
closed_arrival answer a b o p ps (connection c) r h later e =
    let (a', turn, chan, quiet, _) = turn_connection (arrive answer a p) p.now c in
    let (result, slept) =
      later a' (chan ∙ h) (
        sym (loop_go_on answer a a' p ps (ap (take_turn (arrive answer a p) p.now) r ∙ turn))
        ∙ e) in
    (result, slept ∙ quiet)
closed_arrival answer a b o p ps (failure n temporary) r h later e =
    let turn = turn_failure (arrive answer a p) p.now n temporary h in
    let (x, y) = result_eq _ b server_closed o (
      sym (
        loop_leave answer a _ server_closed p ps
          (ap (take_turn (arrive answer a p) p.now) r ∙ turn))
      ∙ e) in
    (inl (sym x), ap (λ t. t.slept) (sym y))

-- Once the channel is closed, and as long as no other goroutine replaces it, the loop never answers
-- with the error of Accept and never sleeps: it answers ErrServerClosed or goes on.
pub accept_loop-closed :
    (answer : Option ℕ) (a b : Accepting) (o : Outcome) (ps : List Arrival)
    → a.server.done_chan ≡ closed_chan
    → All KeepsClosed ps
    → accept_loop answer a ps ≡ some (b, o)
    → ((o ≡ server_closed) ⊎ (o ≡ serving)) × (b.slept ≡ a.slept)
accept_loop-closed answer a b o [] h k e =
    let (x, y) = result_eq a b serving o (unfold accept_loop in e) in
    (inr (sym x), ap (λ t. t.slept) (sym y))
accept_loop-closed answer a b o (p ∷ ps) h k e =
    closed_arrival answer a b o p ps p.accepted refl (k.0 a.server h)
      (λ a' closed e'. accept_loop-closed answer a' b o ps closed k.1 e') e
