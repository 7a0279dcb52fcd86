-- ===== src/Server/Accept.antt =====
-- ListenAndServe and Serve of stratum/server/server.go. The hooks testHookServerServe, BaseContext and
-- ConnContext are nil in the program and are left out. An error is a number.
pub mod Returns
pub mod Closing
use stratumserver.Prelude.{
  ℕ, ◌==◌, Bool, true, false, List, [], ◌∷◌, ◌++◌, Option, none, some, if◌then◌else◌, ◌>>=◌, ◌⊎◌,
  inl, inr, ◌*◌,
}
use stratumserver.Prelude.Int.{ℤ, pos, ltb_ℤ}
use stratumserver.Prelude.Int64.{mul64}
use stratumserver.Vardiff.Ring.{eqb_ℤ}
use stratumserver.Server.{
  Server, DoneChan, shutting_down, track_listener, get_done_chan_locked, is_closed, set_state,
  state_new,
}
use stratumserver.Server.Shutdown.{OnceCloseListener, once_close}

-- How long to sleep after one more temporary failure, in nanoseconds.
unfoldable pub next_delay : ℤ → ℤ
next_delay delay =
    let longer : ℤ = if eqb_ℤ delay (pos 0) then pos (5 * 1000000) else mul64 delay (pos 2) in
    if ltb_ℤ (pos 1000000000) longer then pos 1000000000 else longer

-- What Accept gives: a connection, or an error and whether it is temporary.
pub data Accepted : Type 0 where
  connection : ℕ → Accepted
  failure : ℕ → Bool → Accepted

-- A call of Accept: what other goroutines did to the server meanwhile, whether one of them closed the
-- listener, the time, and the answer.
pub record Arrival : Type 0 where
  pub meanwhile : Server → Server
  pub closing : Bool
  pub now : ℤ
  pub accepted : Accepted

pub data Outcome : Type 0 where
  server_closed : Outcome
  failed : ℕ → Outcome
  serving : Outcome

-- The server, the listener, tempDelay, the sleeps so far, latest first, and the connections that a
-- goroutine was started for, latest first.
pub record Accepting : Type 0 where
  pub server : Server
  pub listener : OnceCloseListener
  pub temp_delay : ℤ
  pub slept : List ℤ
  pub started : List ℕ

pub data Turn : Type 0 where
  go_on : Accepting → Turn
  leave : Accepting → Outcome → Turn

abbrev arrive : Option ℕ → Accepting → Arrival → Accepting
arrive answer a p = record a {
  server = p.meanwhile a.server;
  listener = if p.closing then (once_close answer a.listener).0 else a.listener;
}

-- The body of the loop after Accept; `none` is a panic.
unfoldable pub take_turn : Accepting → ℤ → Accepted → Option Turn
unfolding get_done_chan_locked
take_turn a now (connection c) = do
  s ← set_state a.server now c state_new
  some (go_on (record a { server = s; temp_delay = pos 0; started = c ∷ a.started }))
take_turn a now (failure e temporary) =
    let (s, ch) = get_done_chan_locked a.server in
    let a' = record a { server = s } in
    let d = next_delay a.temp_delay in
    if is_closed ch
    then some (leave a' server_closed)
    else if temporary
    then some (go_on (record a' { temp_delay = d; slept = d ∷ a.slept }))
    else some (leave a' (failed e))

unfoldable pub accept_loop : Option ℕ → Accepting → List Arrival → Option (Accepting × Outcome)
accept_loop answer a [] = some (a, serving)
accept_loop answer a (p ∷ ps) = do
  turn ← take_turn (arrive answer a p) p.now p.accepted
  elim turn [ go_on a' ↦ accept_loop answer a' ps | leave a' o ↦ some (a', o) ]

-- The deferred calls, last first.
abbrev defers : Option ℕ → ℕ → Accepting × Outcome → Accepting × Outcome
defers answer ln (a, serving) = (a, serving)
defers answer ln (a, o) = (
  record a {
    server = (track_listener a.server ln false).0;
    listener = (once_close answer a.listener).0;
  },
  o,
)

abbrev pub fresh_listener : OnceCloseListener
fresh_listener = record { done = false; close_err = none; closes = 0 }

-- Serve before its first Accept.
abbrev pub accepting : Server → Accepting
accepting s = record {
  server = s;
  listener = fresh_listener;
  temp_delay = pos 0;
  slept = [];
  started = [];
}

-- Serve on the listener `ln`, which answers `answer` to Close.
unfoldable pub serve : Option ℕ → Server → ℕ → List Arrival → Option (Accepting × Outcome)
serve answer s ln ps =
    let (s', up) = track_listener s ln true in
    if up
    then (do r ← accept_loop answer (accepting s') ps; some (defers answer ln r))
    else some
        (record (accepting s') { listener = (once_close answer fresh_listener).0 }, server_closed)

-- What Serve or ListenAndServe answers, and what Serve left, if it was called.
pub data Answer : Type 0 where
  refused : Outcome → Answer
  served : Accepting × Outcome → Answer

-- `":http"`
abbrev pub default_addr : List ℕ
default_addr = 58 ∷ 104 ∷ 116 ∷ 116 ∷ 112 ∷ []

abbrev pub addr_or_default : List ℕ → List ℕ
addr_or_default [] = default_addr
addr_or_default (c ∷ cs) = c ∷ cs

-- net.Listen, as a parameter: the listener or an error; and what other goroutines do to the server
-- meanwhile.
unfoldable pub listen_and_serve :
    (List ℕ → ℕ ⊎ ℕ) → Option ℕ → (Server → Server) → Server → List Arrival → Option Answer
listen_and_serve listen answer meanwhile s ps =
    if shutting_down s
    then some (refused server_closed)
    else elim (listen (addr_or_default s.addr)) [
      | inl ln ↦ (do r ← serve answer (meanwhile s) ln ps; some (served r))
      | inr e ↦ some (refused (failed e))
    ]
