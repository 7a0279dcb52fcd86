-- ===== src/Server/System.antt =====
-- The goroutines of stratum/server/server.go together: one ListenAndServe, the serve of each connection
-- that it starts (stratum/server/conn.go), and one Shutdown, over one server. A step is what one of
-- them does under `s.mu` or by itself; they interleave in any order.
pub mod Ops
pub mod Turns
pub mod Apart
pub mod Tracked
pub mod Live
pub mod Refines
pub mod Phases
pub mod Orderly
pub mod Returned
pub mod Still
pub mod Listed
pub mod Stops
mod Tests
use stratumserver.Prelude.{
  ℕ, ◌==◌, ◌≡◌, Bool, true, false, ◌&&◌, List, [], ◌∷◌, ◌++◌, Option, some, if◌then◌else◌,
}
use stratumserver.Prelude.Int.{ℤ, pos}
use stratumserver.Server.{
  Server, track_listener, track_conn, stored, state_new, num_listeners, member, delete,
  state_active, state_closed,
}
use stratumserver.Server.Conns.{close_idle_conns}
use stratumserver.Server.Shutdown.{shutdown_mark, shutdown_locked}
use stratumserver.Server.Accept.{
  failure, Outcome, server_closed, Accepting, Turn, go_on, leave, take_turn, accepting,
}

-- Where Serve is: before its trackListener, at Accept, between trackConn and the store of setState for
-- a new connection, between that and the go statement, on its way out, or returned.
pub data Phase : Type 0 where
  starting looping : Phase
  storing launching : ℕ → Phase
  leaving gone : Outcome → Phase

-- Where Shutdown is: between its mark and `s.mu.Lock()`, in its loop before closeIdleConns or after it, with the error of the listeners, or
-- returned, with it or with the error of the context.
pub data Stage : Type 0 where
  not_called marked : Stage
  polling : Option ℕ → Stage
  swept : Option ℕ → Bool → Stage
  returned : Option ℕ → Stage
  expired : Stage

-- The server is that of the loop of Serve. `live` are the connections whose goroutine runs, up to the
-- trackConn of its last setState, `ending` those whose goroutine has the store of that setState to do,
-- `closed` those that closeIdleConns closed, and `late` those that Serve tracked after its last call.
pub record System : Type 0 where
  pub loop : Accepting
  pub phase : Phase
  pub live : List ℕ
  pub ending : List ℕ
  pub closed : List ℕ
  pub late : List ℕ
  pub stage : Stage

abbrev pub server_of : System → Server
server_of y = y.loop.server

abbrev pub with_server : System → Server → System
with_server y s = record y { loop = record y.loop { server = s } }

-- The connection that Serve tracks and has not started yet.
abbrev pub pending : Phase → List ℕ
pending (storing c) = c ∷ []
pending (launching c) = c ∷ []
pending _ = []

-- trackListener at the begin of Serve, which returns if the server is in shutdown.
unfoldable pub listened : ℕ → System → System
unfolding track_listener
listened ln y =
    let (s, up) = track_listener (server_of y) ln true in
    record (with_server y s) { phase = if up then looping else gone server_closed }

-- A turn of the loop of Serve after an error of Accept.
unfoldable pub turned : System → Turn → System
turned y (go_on a) = record y { loop = a }
turned y (leave a o) = record y { loop = a; phase = leaving o }

-- A turn for a new connection, up to the trackConn of setState.
unfoldable pub accepted_by : System → ℕ → System
unfolding track_conn
accepted_by y c = record y {
  loop = record y.loop { server = track_conn (server_of y) c true; temp_delay = pos 0 };
  phase = storing c;
  late = c ∷ y.late;
}

-- The store of that setState.
unfoldable pub new_stored : System → ℤ → ℕ → System
new_stored y now c = record (with_server y (stored (server_of y) now c state_new)) {
  phase = launching c;
}

-- `go c.serve(connCtx)`
unfoldable pub launched : System → ℕ → System
launched y c = record y {
  loop = record y.loop { started = c ∷ y.loop.started };
  phase = looping;
  live = c ∷ y.live;
}

-- The deferred trackListener.
unfoldable pub unlistened : ℕ → System → Outcome → System
unlistened ln y o = record (with_server y (track_listener (server_of y) ln false).0) {
  phase = gone o;
}

-- The last setState of serve, in its deferred call: trackConn and the store, after which the goroutine
-- is over.
unfoldable pub ended : System → ℕ → System
unfolding track_conn
ended y c = record (with_server y (track_conn (server_of y) c false)) {
  live = delete c y.live;
  ending = c ∷ y.ending;
}

unfoldable pub end_stored : System → ℤ → ℕ → System
end_stored y now c = record (with_server y (stored (server_of y) now c state_closed)) {
  ending = delete c y.ending;
}

-- The call of closeIdleConns in Shutdown, and that of numListeners.
unfoldable pub swept_by : System → ℤ → Option ℕ → System
swept_by y now err =
    let (s, w) = close_idle_conns (server_of y) now in
    record (with_server y s) {
      closed = w.closed ++ y.closed;
      late = [];
      stage = swept err w.quiescent;
    }

unfoldable pub counted : System → Option ℕ → Bool → System
counted y err q = record y {
  stage = if q && num_listeners (server_of y) == 0 then returned err else polling err;
}

-- closeIdleConns holds `s.mu` and is one step: a store, which takes no lock, in the middle of it concerns
-- one connection and comes before or after its getState. For the listener `ln`, and the answers of the listeners to Close.
pub data Step (ln : ℕ) (answer : ℕ → Option ℕ) : System → System → Type 0 where
  listens : (y : System) → y.phase ≡ starting → Step ln answer y (listened ln y)
  fails :
      (y : System) (now : ℤ) (n : ℕ) (temporary : Bool) (turn : Turn)
      → y.phase ≡ looping
      → take_turn y.loop now (failure n temporary) ≡ some turn
      → Step ln answer y (turned y turn)
  -- Accept gives a connection that it did not give before.
  accepts :
      (y : System) (c : ℕ)
      → y.phase ≡ looping
      → member c y.loop.started ≡ false
      → Step ln answer y (accepted_by y c)
  stores_new :
      (y : System) (now : ℤ) (c : ℕ) → y.phase ≡ storing c → Step ln answer y (new_stored y now c)
  launches : (y : System) (c : ℕ) → y.phase ≡ launching c → Step ln answer y (launched y c)
  unlistens :
      (y : System) (o : Outcome) → y.phase ≡ leaving o → Step ln answer y (unlistened ln y o)
  activates :
      (y : System) (now : ℤ) (c : ℕ)
      → member c y.live ≡ true
      → Step ln answer y (with_server y (stored (server_of y) now c state_active))
  ends : (y : System) (c : ℕ) → member c y.live ≡ true → Step ln answer y (ended y c)
  stores_closed :
      (y : System) (now : ℤ) (c : ℕ)
      → member c y.ending ≡ true
      → Step ln answer y (end_stored y now c)
  marks :
      (y : System)
      → y.stage ≡ not_called
      → Step ln answer y (record (with_server y (shutdown_mark (server_of y))) { stage = marked })
  begins :
      (y : System) (s : Server) (err : Option ℕ) (hooks : List ℕ)
      → y.stage ≡ marked
      → shutdown_locked answer (server_of y) ≡ some (s, err, hooks)
      → Step ln answer y (record (with_server y s) { stage = polling err })
  sweeps :
      (y : System) (now : ℤ) (err : Option ℕ)
      → y.stage ≡ polling err
      → Step ln answer y (swept_by y now err)
  counts :
      (y : System) (err : Option ℕ) (q : Bool)
      → y.stage ≡ swept err q
      → Step ln answer y (counted y err q)
  expires :
      (y : System) (err : Option ℕ)
      → y.stage ≡ polling err
      → Step ln answer y (record y { stage = expired })

pub data Runs (ln : ℕ) (answer : ℕ → Option ℕ) : System → System → Type 0 where
  stays : (y : System) → Runs ln answer y y
  steps : (y z w : System) → Step ln answer y z → Runs ln answer z w → Runs ln answer y w

-- Before anything was called.
unfoldable pub start : Server → System
start s = record {
  loop = accepting s;
  phase = starting;
  live = [];
  ending = [];
  closed = [];
  late = [];
  stage = not_called;
}
