-- ===== src/Io/Conn/Session.antt =====
-- conn.serve of stratum/server/conn.go with what readMessage and Close do to the connection, and how
-- it implements the loop of Worker/Loop.
pub mod Closes
pub mod Serve
use stratumserver.Prelude.{
  ℕ, ◌≡◌, refl, sym, ap, ◌∙◌, Bool, true, false, not, ◌&&◌, ◌||◌, List, [], ◌∷◌, Option, none, some,
  if◌then◌else◌, ◌>>=◌, arith,
}
use stratumserver.Prelude.Int.{ℤ}
use stratumserver.Vardiff.Ring.{eqb_ℤ}
use stratumserver.Server.{Server, initial_read_limit_size, set_state, state_closed}
use stratumserver.Worker.{Library}
use stratumserver.Worker.Loop.{
  Outside, Serving, Round, Reading, Turn, go_on, return_, recovered, crashed, turn, Exit, waiting,
  finished, broken, close_conn, serve_loop, message, no_message, end_of_file, other_error,
  net_error,
}
use stratumserver.Io.Reader.{ConnReader}
use stratumserver.Io.Conn.{
  Conn, Unmarshal, Line, line, line_eof, line_net_error, line_error, read_message, read_line,
  unmarshalled, close,
}

-- A round: what other goroutines did to the server before it, the times around the read, the time in
-- seconds after it, what the reads did to the connection's reader, and what ReadBytes gave.
pub record RawRound : Type 0 where
  pub meanwhile : Server → Server
  pub begins : ℤ
  pub ends : ℤ
  pub now : ℤ
  pub took : ConnReader → ConnReader
  pub raw : Line

pub data Ended : Type 0 where
  still_open : Conn → Serving → Ended
  over : Conn → Server → Ended
  crash : Conn → Serving → Ended

module _ (lib : Library) (out : Outside) (flows : ℕ → Bool) (c : ℕ) (unmarshal : Unmarshal)
    (is_tcp : Bool) where
  abbrev pub read_round : Conn → Serving → RawRound → Conn × Reading
  read_round conn s r =
      read_message unmarshal is_tcp (r.meanwhile s.server) r.begins r.ends r.took r.raw conn

  -- The round as the loop sees it.
  abbrev pub round_of : Conn → Serving → RawRound → Round
  round_of conn s r = record {
    meanwhile = r.meanwhile;
    read_any = not (
        eqb_ℤ (read_round conn s r).0.reader.remain
          (initial_read_limit_size (r.meanwhile s.server)));
    now = r.now;
    reading = (read_round conn s r).1;
  }

  -- The deferred function: Close and setState.
  unfoldable pub hang_up : ℤ → Conn → Server → Option Ended
  hang_up end conn s = do server ← set_state s end c state_closed; some (over (close conn) server)

  abbrev leave : ℤ → Conn → Serving → Option Ended
  leave end conn s = hang_up end conn s.server

  -- A read through a nil `bufr` is a panic that is recovered.
  pub session : ℤ → Conn → Serving → List RawRound → Option Ended
  session end conn s [] = some (still_open conn s)
  session end conn s (r ∷ rs) =
      let conn' = (read_round conn s r).0 in
      let rest : Option Ended = (do
        t ← turn lib out flows c s (round_of conn s r)
        elim t [
          | go_on s' ↦ session end conn' s' rs
          | return_ s' ↦ leave end conn' s'
          | recovered s' ↦ leave end conn' s'
          | crashed s' ↦ some (crash conn' s')
        ]) in
      if conn.has_bufr && conn.has_bufw then rest else leave end conn s
