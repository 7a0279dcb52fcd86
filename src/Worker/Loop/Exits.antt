-- ===== src/Worker/Loop/Exits.antt =====
-- How conn.serve ends.
use stratumserver.Prelude.{
  ℕ, ◌≡◌, refl, ◌==◌, Bool, true, false, List, [], ◌∷◌, some, if◌then◌else◌,
}
use stratumserver.Prelude.Int.{ℤ}
use stratumserver.Server.{
  Server, set_state, state_closed, pack_state, member, delete, track_conn, tracked,
}
use stratumserver.Server.Accept.Returns.{deleted, same_number}
use stratumserver.Worker.{Library}
use stratumserver.Worker.Loop.{
  Outside, Serving, Round, Turn, go_on, return_, recovered, crashed, mark, turn, Exit, waiting,
  finished, broken, close_conn, serve_loop, on_reading,
}

module _ (lib : Library) (out : Outside) (flows : ℕ → Bool) (c : ℕ) where
  -- What is so of the server when the connection is over: it does not track the connection, whose
  -- state is closed.
  pub IsOver : ℤ → Server → Type 0
  IsOver end t = (member c t.active_conn ≡ false) × (t.cur_state c ≡ pack_state end state_closed)

  choose :
      (b : Bool) (s t : Server) → (server : Server) × ((if b then some s else some t) ≡ some server)
  choose true s t = (s, refl)
  choose false s t = (t, refl)

  pub mark_total :
      (r : Round) (s : Server) → (server : Server) × (mark lib out flows c r s ≡ some server)
  unfolding set_state
  mark_total r s = choose r.read_any _ s

  pub turn_total :
      (s : Serving) (r : Round)
      → (server : Server) × (turn lib out flows c s r
          ≡ some (on_reading lib out flows c (record s { server = server }) r.now r.reading))
  unfolding turn
  turn_total s r = let (server, e) = mark_total r (r.meanwhile s.server) in (server, rw e)

  pub close_conn_lem :
      (end : ℤ) (s : Serving)
      → (t : Server) × (close_conn lib out flows c end s ≡ some (finished t)) × IsOver end t
  unfolding IsOver close_conn set_state track_conn
  close_conn_lem end s = (
    record s.server {
      active_conn = delete c s.server.active_conn;
      cur_state = λ d.
          if d == c
          then pack_state end state_closed
          else (tracked s.server c state_closed).cur_state d;
    },
    refl,
    (deleted c s.server.active_conn, rw (same_number c) refl),
  )

  -- What an exit says: over with the connection untracked, waiting for more, or the process ended.
  unfoldable pub IsSettled : ℤ → Exit → Type 0
  IsSettled end (waiting s) = Unit
  IsSettled end (finished t) = IsOver end t
  IsSettled end (broken s) = Unit

  -- The rounds of the loop, by what a turn says.
  loop_turn :
      (end : ℤ) (s : Serving) (r : Round) (rs : List Round) (t : Turn)
      → turn lib out flows c s r ≡ some t
      → ((s' : Serving)
          → (e : Exit) × (serve_loop lib out flows c end s' rs ≡ some e) × IsSettled end e)
      → (e : Exit) × (serve_loop lib out flows c end s (r ∷ rs) ≡ some e) × IsSettled end e
  unfolding serve_loop IsSettled
  loop_turn end s r rs (go_on s') h later = let (e, q, k) = later s' in (e, rw h q, k)
  loop_turn end s r rs (return_ s') h later =
      let (t, q, k) = close_conn_lem end s' in (finished t, rw h q, k)
  loop_turn end s r rs (recovered s') h later =
      let (t, q, k) = close_conn_lem end s' in (finished t, rw h q, k)
  loop_turn end s r rs (crashed s') h later = (broken s', rw h refl, tt)

  -- Whatever is read, no call of setState in serve panics, and a connection that is over, by a return
  -- or by a panic that is recovered, is not tracked and its state is closed.
  pub serve_loop_total :
      (end : ℤ) (s : Serving) (rs : List Round)
      → (e : Exit) × (serve_loop lib out flows c end s rs ≡ some e) × IsSettled end e
  serve_loop_total end s [] = (waiting s, unfold serve_loop in refl, unfold IsSettled in tt)
  serve_loop_total end s (r ∷ rs) =
      let (server, e) = turn_total s r in
      loop_turn end s r rs _ e (λ s'. serve_loop_total end s' rs)
