-- ===== src/Io/Conn/Session/Serve.antt =====
-- conn.serve of stratum/server/conn.go from its begin: the TLS handshake, the buffers, the worker, the
-- session, and the deferred calls.
use stratumserver.Prelude.{
  subst, ℕ, ◌≡◌, refl, sym, ◌∙◌, Bool, true, false, not, List, [], Option, none, some,
  if◌then◌else◌, ◌>>=◌, subst,
}
use stratumserver.Prelude.Int.{ℤ, pos}
use stratumserver.Prelude.Int64.{add64}
use stratumserver.Server.{Server}
use stratumserver.Worker.{Library, new_stratum_client, ClientOptions, Made}
use stratumserver.Worker.Loop.{Outside, Serving, Exit, finished}
use stratumserver.Worker.Loop.Exits.{close_conn_lem, serve_loop_total, IsSettled}
use stratumserver.Io.Reader.{no_deadline, deadline_at}
use stratumserver.Io.Conn.{Conn, Unmarshal, is_zero, close}
use stratumserver.Io.Conn.Session.{RawRound, Ended, still_open, over, crash, hang_up, session}
use stratumserver.Io.Conn.Session.Closes.{IsShut, exit_of, session_total, left}

-- The network connection: not a TLS one, or one with the error of its handshake.
pub data Transport : Type 0 where
  plain : Transport
  over_tls : Option ℕ → Transport

-- newConn; the reader is the one that serve makes.
unfoldable pub new_conn : Conn
new_conn = record {
  reader = record {
    has_byte = false;
    byte_buf = 0;
    in_read = false;
    aborted = false;
    remain = pos 0;
    read_deadline = no_deadline;
    cancelled = false;
  };
  write_deadline = no_deadline;
  werr = none;
  has_bufr = false;
  has_bufw = false;
  write_shut = false;
  closed = false;
}

-- The deadlines of the handshake, at the time `t`.
unfoldable pub handshake_deadlines : Server → ℤ → Conn → Conn
handshake_deadlines s t c = record c {
  reader = record c.reader {
    read_deadline =
        if not (is_zero s.read_timeout)
        then deadline_at (add64 t s.read_timeout)
        else c.reader.read_deadline;
  };
  write_deadline =
      if not (is_zero s.write_timeout)
      then deadline_at (add64 t s.write_timeout)
      else c.write_deadline;
}

-- `c.bufr` and `c.bufw` are made.
abbrev with_buffers : Conn → Conn
with_buffers c = record c { has_bufr = true; has_bufw = true }

-- `defer cancelCtx()`
abbrev cancel : Ended → Ended
cancel (still_open c s) = still_open c s
cancel (over c t) = over (record c { reader = record c.reader { cancelled = true } }) t
cancel (crash c s) = crash c s

module _ (lib : Library) (out : Outside) (flows : ℕ → Bool) (c : ℕ) (unmarshal : Unmarshal)
    (is_tcp : Bool) where
  -- The worker of a connection; the difficulties and the variance are the bits of 2, 2, 5 and 30.
  abbrev options : ClientOptions
  options = record {
    initial_difficulty = 0x4000000000000000;
    connection_timeout = pos 600;
    tcp_proxy_protocol = false;
    min_diff = 0x4000000000000000;
    max_diff = 0x4014000000000000;
    target_time = pos 15;
    retarget_time = pos 90;
    variance_percent = 0x403e000000000000;
    x2_mode = false;
  }

  abbrev first_serving : Made → Server → Serving
  first_serving made s = record {
    server = s;
    worker = new_stratum_client lib made options;
    sent = [];
    tries = 0;
  }

  unfoldable pub connected : ℤ → Made → Conn → Server → List RawRound → Option Ended
  connected end made conn s rs = do
    e ← session lib out flows c unmarshal is_tcp end (with_buffers conn) (first_serving made s) rs
    some (cancel e)

  unfoldable pub serve_conn : Transport → ℤ → ℤ → Made → Server → List RawRound → Option Ended
  unfolding handshake_deadlines connected new_conn
  serve_conn plain t end made s rs = connected end made new_conn s rs
  serve_conn (over_tls none) t end made s rs =
      connected end made (handshake_deadlines s t new_conn) s rs
  serve_conn (over_tls (some e)) t end made s rs =
      hang_up lib out flows c unmarshal is_tcp end
        (record (handshake_deadlines s t new_conn) { closed = true }) s

  -- When serve is over the connection is closed without buffers, and not tracked.
  Ends : ℤ → Option Ended → Type 0
  Ends end o = (e : Ended) × (o ≡ some e) × IsShut e × IsSettled lib out flows c end (exit_of e)

  cancel-IsShut : (e : Ended) → IsShut e → IsShut (cancel e)
  unfolding IsShut
  cancel-IsShut (still_open conn s) h = h
  cancel-IsShut (over conn t) h = h
  cancel-IsShut (crash conn s) h = h

  exit_of-cancel : (e : Ended) → exit_of (cancel e) ≡ exit_of e
  unfolding exit_of
  exit_of-cancel (still_open conn s) = refl
  exit_of-cancel (over conn t) = refl
  exit_of-cancel (crash conn s) = refl

  same_exit : {a b : Exit} → some a ≡ some b → a ≡ b
  same_exit e = cc

  ended :
      (end : ℤ) (u v : Server)
      → finished v ≡ finished u
      → IsSettled lib out flows c end (finished v)
      → IsSettled lib out flows c end (finished u)
  ended end u v same settled = subst (IsSettled lib out flows c end) same settled

  connected-Ends :
      (end : ℤ) (made : Made) (conn : Conn) (s : Server) (rs : List RawRound)
      → Ends end (connected end made conn s rs)
  unfolding Ends connected
  connected-Ends end made conn s rs =
      let (e, q, rounds, seen, k, shut) =
        session_total lib out flows c unmarshal is_tcp end (with_buffers conn)
          (first_serving made s) rs (refl, refl) in
      let (x, l, settled) = serve_loop_total lib out flows c end (first_serving made s) rounds in
      (
        cancel e,
        rw q refl,
        cancel-IsShut e shut,
        subst (IsSettled lib out flows c end) (same_exit (sym l ∙ k) ∙ sym (exit_of-cancel e))
            settled,
      )

  -- Whatever the handshake gives and whatever the client sends, serve is still open, with both its
  -- buffers, or it is over: the connection is closed and has given up its buffers, the server does not
  -- track it, and its state is closed; or a panic that is not recovered has ended the process.
  pub serve_conn_total :
      (tr : Transport) (t end : ℤ) (made : Made) (s : Server) (rs : List RawRound)
      → (e : Ended) × (serve_conn tr t end made s rs ≡ some e)
        × IsShut e
        × IsSettled lib out flows c end (exit_of e)
  unfolding serve_conn Ends IsShut close exit_of IsSettled
  serve_conn_total plain t end made s rs = connected-Ends end made new_conn s rs
  serve_conn_total (over_tls none) t end made s rs =
      connected-Ends end made (handshake_deadlines s t new_conn) s rs
  serve_conn_total (over_tls (some err)) t end made s rs =
      let conn = record (handshake_deadlines s t new_conn) { closed = true } in
      let (u, q, k) = left lib out flows c unmarshal is_tcp end conn (first_serving made s) in
      let (v, l, settled) = close_conn_lem lib out flows c end (first_serving made s) in
      (over _ u, q, (refl, refl, refl), ended end u v (same_exit (sym l ∙ k)) settled)
