-- ===== src/Server/Tests.antt =====
-- Concrete runs of the server.
use stratumserver.Prelude.{
  ◌+◌, ◌*◌, if◌then◌else◌, ◌≡◌, ◌≢◌, refl, ◌==◌, ◌⊎◌, not, ◌||◌, true, false, List, [], ◌∷◌, none,
  some, arith, inl, length, inr,
}
use stratumserver.Prelude.Int
use stratumserver.Prelude.Int.{ℤ, pos}
use stratumserver.Prelude.Int64.{wrap64}
use stratumserver.Server.{
  close_done_chan_locked, Server, unmade, closed_chan, member, get_state, set_state, track_listener,
  get_done_chan_locked, num_listeners, pack_state, state_new,
}
use stratumserver.Server.Packed.{get_state-set_state}
use stratumserver.Server.Conns.{is_busy, sweep_loop, close_idle_conns}
use stratumserver.Server.Conns.Idle.{close_idle_conns_lem, is_over, fresh}
use stratumserver.Server.Shutdown.{
  close_loop, close_listeners_locked, shutdown_begin, Poll, quiet, shutdown_loop,
}
use stratumserver.Server.Shutdown.Graceful.{shutdown_loop-active}
use stratumserver.Server.Tls.{Network}
use stratumserver.Server.Accept.{
  next_delay, Arrival, Accepting, Outcome, failure, connection, server_closed, take_turn,
  accept_loop, serve, accepting,
}
use stratumserver.Server.Accept.Returns.{IsLeft, serve_total}
use stratumserver.Server.Reach.{Reaches, stays, steps, listens, asks, reaches-shutdown}

-- A server that listens on 7 and serves 1, which is active, and 2, which is idle.
abbrev busy : Server
busy = record {
  addr = [];
  read_timeout = pos 3000000000000;
  read_header_timeout = pos 0;
  write_timeout = pos 3000000000000;
  idle_timeout = pos 0;
  max_header_bytes = pos 0;
  in_shutdown = false;
  listeners = 7 ∷ [];
  active_conn = 1 ∷ 2 ∷ [];
  done_chan = unmade;
  on_shutdown = [];
  cur_state = λ c. if c == 1 then 100 * 256 + 1 else 100 * 256 + 2;
}

get_state-set_state_example :
    (s' : Server) × (set_state busy (pos 1700000000) 2 (pos 1) ≡ some s')
    × (get_state s' 2 ≡ (pos 1, pos 1700000000))
    × (get_state s' 1 ≡ get_state busy 1)
get_state-set_state_example =
    get_state-set_state busy 1700000000 2 1 1 (omega arith) (omega arith) (λ e. omega (arith, e))

-- Connection 2 is new since 1700000000.
abbrev waiting : Server
waiting = record busy { cur_state = λ c. pack_state (pos 1700000000) state_new }

waiting_state : get_state waiting 2 ≡ (state_new, pos 1700000000)
unfolding get_state wrap64 pack_state Int.◌*ℤ◌
waiting_state = refl

close_idle_conns_lem_example :
    let (s', w) = close_idle_conns waiting (pos 1700000006) in
    (member 2 w.closed ≡ is_over fresh 1700000000 1700000006)
    × (member 2 s'.active_conn ≡ not (is_over fresh 1700000000 1700000006))
    × ((w.quiescent ≡ false) ⊎ (s'.active_conn ≡ []))
close_idle_conns_lem_example =
    close_idle_conns_lem waiting 1700000006 1700000000 2 fresh (omega arith) (omega arith) refl
      waiting_state

abbrev idle : Server
idle = record busy { listeners = []; active_conn = 2 ∷ [] }

-- Nothing else happens.
abbrev poll : Poll
poll = record { before = λ s. s; between = λ s. s; now = pos 200; expired = false }

abbrev emptied : Server
emptied = record idle { active_conn = [] }

quiet_run : shutdown_loop (some 5) idle (poll ∷ []) ≡ quiet emptied (some 5)
unfolding shutdown_loop close_idle_conns sweep_loop is_busy get_state num_listeners wrap64 Int.◌-ℤ◌
quiet_run = refl

shutdown_loop-active_example : shutdown_loop none busy (poll ∷ poll ∷ []) ≢ quiet emptied none
shutdown_loop-active_example =
    shutdown_loop-active none none busy emptied (poll ∷ poll ∷ []) 1
      (refl, (unfold get_state in refl)) (((λ s h. h), (λ s h. h)), (((λ s h. h), (λ s h. h)), tt))

-- A temporary failure, a connection and a failure for good.
abbrev arrivals : List Arrival
arrivals =
    record { meanwhile = λ s. s; closing = false; now = pos 100; accepted = failure 4 true }
    ∷ record { meanwhile = λ s. s; closing = false; now = pos 101; accepted = connection 3 }
    ∷ record { meanwhile = λ s. s; closing = true; now = pos 102; accepted = failure 5 false }
    ∷ []

serve_total_example : (r : Accepting × Outcome) × (serve none busy 8 arrivals ≡ some r) × IsLeft 8 r
serve_total_example = serve_total none busy 8 arrivals refl

abbrev closing : Server
closing = record busy { in_shutdown = true; done_chan = closed_chan }

closed_run : accept_loop none (accepting closing) arrivals ≡ some (accepting closing, server_closed)
unfolding accept_loop take_turn get_done_chan_locked next_delay
closed_run = refl

abbrev two_steps : Reaches closing (get_done_chan_locked (track_listener closing 9 true).0).0
two_steps =
    steps closing _ _ (listens closing 9)
      (steps _ _ _ (asks (track_listener closing 9 true).0) (stays _))

reaches-shutdown_example :
    ((get_done_chan_locked (track_listener closing 9 true).0).0.in_shutdown ≡ true)
    × ((get_done_chan_locked (track_listener closing 9 true).0).0.done_chan ≡ closed_chan)
    × ((not (member 9 (get_done_chan_locked (track_listener closing 9 true).0).0.listeners)
          || false)
        ≡ true)
reaches-shutdown_example =
    reaches-shutdown closing (get_done_chan_locked (track_listener closing 9 true).0).0 9 two_steps
      refl refl

abbrev shut : Server
shut = record busy { in_shutdown = true; done_chan = closed_chan }

begins_busy : shutdown_begin (λ ln. none) busy ≡ some (shut, none, [])
unfolding shutdown_begin close_done_chan_locked get_done_chan_locked close_listeners_locked
    close_loop
begins_busy = refl

-- The certificate does not load when no file is named.
abbrev network : Network
network = record {
  listen = λ address. inl 9;
  load_x509_key_pair = λ cert key. if length cert == 0 then inr 5 else inl 3;
  tls_listener = λ ln config. ln + 100;
  close_answer = none;
  meanwhile = λ s. s;
}
