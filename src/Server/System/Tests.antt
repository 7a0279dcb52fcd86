-- ===== src/Server/System/Tests.antt =====
-- Concrete runs of the goroutines of the server together.
use stratumserver.Prelude.{
  ℕ, ◌≡◌, refl, true, false, ◌||◌, not, ◌⊎◌, [], ◌∷◌, Option, none, if◌then◌else◌, ◌==◌,
}
use stratumserver.Prelude.Int.{pos}
use stratumserver.Server.{
  Server, member, unmade, closed_chan, track_listener, get_done_chan_locked, close_done_chan_locked,
  num_listeners, track_conn, shutting_down, state_new, pack_state,
}
use stratumserver.Server.Conns.{close_idle_conns, sweep_loop}
use stratumserver.Server.Shutdown.{shutdown_begin, close_listeners_locked, close_loop}
use stratumserver.Server.Accept.{leave, server_closed, take_turn, accepting}
use stratumserver.Server.System.{
  System, swept, returned, polling, not_called, server_of, with_server, swept_by, turned, counted,
  listened, unlistened, listens, fails, accepts, stores_new, launches, storing, launching, marked,
  marks, accepted_by, new_stored, launched, unlistens, begins, sweeps, counts, Runs, stays, ends,
  ended, steps, start, looping, leaving, gone,
}
use stratumserver.Server.System.Returned.{IsFresh, system_tracked, system_returned, system_refused}
use stratumserver.Server.System.Phases.{is_up, is_called}
use stratumserver.Server.System.Stops.{system_stops}
use stratumserver.Server.System.Tracked.{is_running}
use stratumserver.Server.System.Still.{returned_stays}

abbrev fresh : Server
fresh = record {
  addr = [];
  read_timeout = pos 3000000000000;
  read_header_timeout = pos 0;
  write_timeout = pos 3000000000000;
  idle_timeout = pos 0;
  max_header_bytes = pos 0;
  in_shutdown = false;
  listeners = [];
  active_conn = [];
  done_chan = unmade;
  on_shutdown = [];
  cur_state = λ c. 0;
}

abbrev answer : ℕ → Option ℕ
answer ln = none

abbrev listening : Server
listening = record fresh { listeners = 9 ∷ [] }

abbrev shut : Server
shut = record listening { in_shutdown = true; done_chan = closed_chan }

-- Connection 3 is new at the time 1700000000.
abbrev late_server : Server
late_server = record shut {
  active_conn = 3 ∷ [];
  cur_state = λ c. if c == 3 then pack_state (pos 1700000000) state_new else 0;
}

abbrev heard : System
heard = record {
  loop = accepting listening;
  phase = looping;
  live = [];
  ending = [];
  closed = [];
  late = [];
  stage = not_called;
}

abbrev marking : System
marking = record (with_server heard (record listening { in_shutdown = true })) { stage = marked }

abbrev told : System
told = record (with_server heard shut) { stage = polling none }

abbrev swept_once : System
swept_once = record told { stage = swept none true }

-- Serve tracks connection 3, and has stored no state of it.
abbrev tracked_late : System
tracked_late = record (with_server swept_once (record shut { active_conn = 3 ∷ [] })) {
  phase = storing 3;
  late = 3 ∷ [];
}

abbrev stored_late : System
stored_late = record (with_server tracked_late late_server) { phase = launching 3 }

abbrev joined_late : System
joined_late = record swept_once {
  loop = record (accepting late_server) { started = 3 ∷ [] };
  live = 3 ∷ [];
  late = 3 ∷ [];
}

abbrev left : System
left = record joined_late { phase = leaving server_closed }

abbrev without : System
without = record (with_server left (record late_server { listeners = [] })) {
  phase = gone server_closed;
}

abbrev over : System
over = record without { stage = returned none }

first_steps : Runs 9 answer (start fresh) swept_once
unfolding start listened track_listener shutting_down swept_by close_idle_conns sweep_loop
    shutdown_begin close_done_chan_locked get_done_chan_locked close_listeners_locked close_loop
first_steps = steps (start fresh) heard swept_once (listens (start fresh) refl) (
    steps heard marking swept_once (marks heard refl) (
      steps marking told swept_once (begins marking shut none [] refl refl) (
        steps told swept_once swept_once (sweeps told (pos 1700000000) none refl)
          (stays swept_once))))

late_steps : Runs 9 answer swept_once over
unfolding turned take_turn accepted_by new_stored launched track_conn get_done_chan_locked
    unlistened track_listener counted num_listeners
late_steps = steps swept_once tracked_late over (accepts swept_once 3 refl refl) (
    steps tracked_late stored_late over (stores_new tracked_late (pos 1700000000) 3 refl) (
      steps stored_late joined_late over (launches stored_late 3 refl) (
        steps joined_late left over
          (fails joined_late (pos 1700000000) 5 false (leave left.loop server_closed) refl refl)
          (steps left without over (unlistens left server_closed refl)
            (steps without over over (counts without none true refl) (stays over))))))

-- Serve leaves, and no connection was started.
abbrev alone : System
alone = record (with_server told (record shut { listeners = [] })) { phase = gone server_closed }

alone_steps : Runs 9 answer told alone
unfolding turned take_turn get_done_chan_locked unlistened track_listener
alone_steps =
    steps told (record told { phase = leaving server_closed }) alone
      (fails told (pos 1700000000) 5 false (leave told.loop server_closed) refl refl)
      (steps (record told { phase = leaving server_closed }) alone alone
        (unlistens (record told { phase = leaving server_closed }) server_closed refl)
        (stays alone))

told_steps : Runs 9 answer (start fresh) told
unfolding start listened track_listener shutting_down shutdown_begin close_done_chan_locked
    get_done_chan_locked close_listeners_locked close_loop
told_steps = steps (start fresh) heard told (listens (start fresh) refl) (
    steps heard marking told (marks heard refl)
      (steps marking told told (begins marking shut none [] refl refl) (stays told)))

join_runs :
    (ln : ℕ) (a : ℕ → Option ℕ) (y z w : System) → Runs ln a y z → Runs ln a z w → Runs ln a y w
join_runs ln a y _ w (stays _) s = s
join_runs ln a y z w (steps _ u _ h r) s = steps y u w h (join_runs ln a u z w r s)

first_window : Runs 9 answer swept_once tracked_late
unfolding accepted_by track_conn
first_window =
    steps swept_once tracked_late tracked_late (accepts swept_once 3 refl refl) (stays tracked_late)

-- Up to the place where the server tracks connection 3, whose goroutine does not run yet.
abbrev window_run : Runs 9 answer (start fresh) tracked_late
window_run = join_runs 9 answer (start fresh) swept_once tracked_late first_steps first_window

abbrev whole_run : Runs 9 answer (start fresh) over
whole_run = join_runs 9 answer (start fresh) swept_once over first_steps late_steps

fresh-IsFresh : IsFresh fresh
fresh-IsFresh = record { no_conns = refl; running = refl; no_chan = refl }

-- Shutdown has returned without an error, and connection 3 is served, tracked and open.
late_is_open :
    (over.stage ≡ returned none)
    × (over.live ≡ 3 ∷ [])
    × (over.closed ≡ [])
    × ((server_of over).active_conn ≡ 3 ∷ [])
late_is_open = (refl, refl, refl, refl)

system_tracked_example :
    ((not (member 3 (server_of tracked_late).active_conn) || is_running tracked_late 3) ≡ true)
    × ((not (is_running tracked_late 3)
          || (member 3 (server_of tracked_late).active_conn || member 3 tracked_late.closed))
        ≡ true)
system_tracked_example = system_tracked 9 answer fresh tracked_late fresh-IsFresh window_run 3

system_returned_example :
    (is_up over.phase ≡ false)
    × ((c : ℕ) → member c over.live ≡ true → (member c over.closed || member c over.late) ≡ true)
system_returned_example = system_returned 9 answer fresh over fresh-IsFresh whole_run refl

system_refused_example : is_called over.stage ≡ true
system_refused_example = system_refused 9 answer fresh over fresh-IsFresh whole_run refl

-- The goroutine of connection 3 ends, up to the store of its last setState.
abbrev ended_late : System
ended_late = record (with_server over (record (server_of over) { active_conn = [] })) {
  live = [];
  ending = 3 ∷ [];
}

last_step : Runs 9 answer over ended_late
unfolding ended track_conn
last_step = steps over ended_late ended_late (ends over 3 refl) (stays ended_late)

returned_stays_example :
    (ended_late.stage ≡ over.stage)
    × (ended_late.loop.started ≡ over.loop.started)
    × ((c : ℕ) → (not (member c ended_late.live) || member c over.live) ≡ true)
returned_stays_example =
    returned_stays 9 answer fresh over ended_late fresh-IsFresh whole_run refl last_step

-- The last round of Shutdown.
abbrev swept_alone : System
swept_alone = record alone { stage = swept none true }

abbrev over_alone : System
over_alone = record alone { stage = returned none }

last_round : Runs 9 answer (swept_by alone (pos 1700000001) none) over_alone
unfolding swept_by close_idle_conns sweep_loop counted num_listeners
last_round =
    steps swept_alone over_alone over_alone (counts swept_alone none true refl) (stays over_alone)

system_stops_example :
    ((over_alone.stage ≡ swept none true) × ((counted over_alone none true).stage ≡ returned none))
    ⊎ (over_alone.stage ≡ returned none)
system_stops_example =
    system_stops 9 answer fresh alone over_alone (pos 1700000001) none fresh-IsFresh refl
      (join_runs 9 answer (start fresh) told alone told_steps alone_steps) refl refl refl last_round
