-- ===== src/Io/Tests.antt =====
-- Concrete runs of a reader, of the pools and of a session.
use stratumserver.Prelude.{
  ℕ, ◌≤◌, ◌+◌, ◌-◌, ◌≡◌, refl, true, false, All, List, [], ◌∷◌, ◌++◌, Option, none, some, arith,
}
use stratumserver.Prelude.Int.{pos}
use stratumserver.Server.{Server, unmade}
use stratumserver.Worker.{Library, JsonRpcRequest, null_id, new_stratum_client, Made, ClientOptions}
use stratumserver.Worker.Loop.{Outside, Serving, Round, serve_loop, mining_subscribe}
use stratumserver.Io.Reader.{
  no_deadline, no_error, waiting, answered, set_read_limit, hit_read_limit, begin_read, end_read,
  start_background_read, background_read,
}
use stratumserver.Io.Reader.Stream.{
  Stream, nobody, watcher, reader_for, connected, limits, answers, waits, receives, watches, sees,
  Reaches, here, next,
}
use stratumserver.Io.Reader.Kept.{pending}
use stratumserver.Io.Reader.Whole.{Reaches-delivered, Reaches-limit}
use stratumserver.Io.Buffers.{Use, opens, flushes, run, no_buffers}
use stratumserver.Io.Buffers.Owned.{total}
use stratumserver.Io.Buffers.Runs.{run_once, run-flushed}
use stratumserver.Io.Conn.{Conn, line, line_net_error}
use stratumserver.Io.Conn.Session.{RawRound, Ended, session}
use stratumserver.Worker.Loop.Exits.{IsSettled}
use stratumserver.Io.Conn.Session.Serve.{over_tls, serve_conn, serve_conn_total}
use stratumserver.Io.Conn.Session.Closes.{Seen, session_total, exit_of, IsShut}

-- The client sends `AB`; the background read takes the first byte, a Read gives it, and another Read
-- waits for the second.
abbrev sent : List ℕ
sent = 65 ∷ 66 ∷ []

abbrev limited : Stream
limited = record (connected sent) {
  reader = set_read_limit (pos 10) (connected sent).reader;
  limit = 10;
  taken = 0;
}

abbrev watching : Stream
watching = record limited { reader = record limited.reader { in_read = true }; doing = watcher }

abbrev seen : Stream
seen = record watching {
  reader = background_read watching.reader (some 65) no_error;
  doing = nobody;
  incoming = 66 ∷ [];
}

abbrev given : Stream
given = record seen { reader = (begin_read seen.reader 4).0; delivered = [] ++ 65 ∷ [] }

abbrev asking : Stream
asking = record given { reader = (begin_read given.reader 4).0; doing = reader_for 4 }

abbrev received : Stream
received = record asking {
  reader = end_read asking.reader 1 no_error;
  doing = nobody;
  incoming = [];
  delivered = asking.delivered ++ 66 ∷ [];
  taken = 0 + 1;
}

starts : start_background_read limited.reader ≡ some (watching.reader, true)
unfolding start_background_read set_read_limit
starts = refl

gives : begin_read seen.reader 4 ≡ (given.reader, answered (65 ∷ []) false)
unfolding begin_read hit_read_limit background_read set_read_limit
gives = refl

asks : begin_read given.reader 4 ≡ (asking.reader, waiting 4)
unfolding begin_read hit_read_limit background_read set_read_limit
asks = refl

reaches_received : Reaches (connected sent) received
reaches_received =
    next
      (next
        (next
          (next (next (next here (limits 10 (omega arith) refl)) (watches watching.reader starts))
            (sees 65 (66 ∷ []) no_error refl refl))
          (answers 4 given.reader (65 ∷ []) false gives))
        (waits 4 4 asking.reader asks))
      (receives 4 (66 ∷ []) [] no_error refl refl (omega arith))

Reaches-delivered_example :
    received.delivered ++ (pending received.reader ++ received.incoming) ≡ sent
Reaches-delivered_example = Reaches-delivered sent received reaches_received

Reaches-limit_example :
    (received.taken ≤ received.limit)
    × (received.reader.remain ≡ pos (received.limit - received.taken))
Reaches-limit_example = Reaches-limit sent received reaches_received

-- Two connections of which the second takes the buffers that the first gave back.
abbrev uses : List Use
uses = opens 0 0 ∷ flushes 0 ∷ flushes 0 ∷ opens 0 0 ∷ flushes 0 ∷ flushes 1 ∷ []

run_once_example : total 0 (run no_buffers uses) ≤ 1
run_once_example = run_once uses 0

run-flushed_example : All (λ f. f.1 ≡ some f.0) (run no_buffers uses).flushed
run-flushed_example = run-flushed uses

abbrev library : Library
library = record { jsonify = λ j. 123 ∷ []; marshal_text = λ n. n ∷ []; parses_uuid = λ m. true }

abbrev outside : Outside
outside = record {
  split_coinbase = λ raw. (raw, raw);
  reverse_byte_order = λ b. b;
  pack_int32_be = λ n. n ∷ [];
  pack_uint32_be = λ n. n ∷ [];
  coinbase = 1 ∷ [];
  prev_block = 2 ∷ [];
  version = 1;
  json = λ m. 110 ∷ [];
}

abbrev server : Server
server = record {
  addr = [];
  read_timeout = pos 3000000000000;
  read_header_timeout = pos 0;
  write_timeout = pos 3000000000000;
  idle_timeout = pos 0;
  max_header_bytes = pos 0;
  in_shutdown = false;
  listeners = 7 ∷ [];
  active_conn = 2 ∷ [];
  done_chan = unmade;
  on_shutdown = [];
  cur_state = λ c. 0;
}

-- What a client is made of.
abbrev made : Made
made = record { uuid = 7 ∷ []; now = pos 5; new_var_diff = λ lo hi t r v x2. 11; new_shares = 12 }

abbrev client_options : ClientOptions
client_options = record {
  initial_difficulty = 2;
  connection_timeout = pos 600;
  tcp_proxy_protocol = false;
  min_diff = 2;
  max_diff = 5;
  target_time = pos 15;
  retarget_time = pos 90;
  variance_percent = 30;
  x2_mode = false;
}

abbrev serving : Serving
serving = record {
  server = server;
  worker = new_stratum_client library made client_options;
  sent = [];
  tries = 0;
}

abbrev conn : Conn
conn = record {
  reader = (connected []).reader;
  write_deadline = no_deadline;
  werr = none;
  has_bufr = true;
  has_bufw = true;
  write_shut = false;
  closed = false;
}

-- A line that is a request to subscribe, and any other, which does not parse.
abbrev unmarshal : List ℕ → Option (Option JsonRpcRequest)
unmarshal [] = none
unmarshal (c ∷ cs) = some (some (record { id = null_id; method = mining_subscribe; params = [] }))

abbrev rounds : List RawRound
rounds =
    record {
      meanwhile = λ s. s;
      begins = pos 1;
      ends = pos 2;
      now = pos 10;
      took = λ r. record r { remain = pos 5 };
      raw = line (123 ∷ []);
    }
    ∷ record {
      meanwhile = λ s. s;
      begins = pos 3;
      ends = pos 4;
      now = pos 11;
      took = λ r. r;
      raw = line_net_error false true;
    }
    ∷ record {
      meanwhile = λ s. s;
      begins = pos 5;
      ends = pos 6;
      now = pos 12;
      took = λ r. r;
      raw = line [];
    }
    ∷ []

session_total_example :
    (e : Ended) × (session library outside (λ n. true) 2 unmarshal true (pos 40) conn serving rounds
      ≡ some e)
    × (seen_rounds : List Round) × Seen library outside
        (λ n. true)
        2
        unmarshal
        true
        conn
        serving
        rounds
        seen_rounds
    × (serve_loop library outside (λ n. true) 2 (pos 40) serving seen_rounds ≡ some (exit_of e))
    × IsShut e
session_total_example =
    session_total library outside (λ n. true) 2 unmarshal true (pos 40) conn serving rounds
      (refl, refl)

serve_conn_total_example :
    (e : Ended) × (serve_conn library outside
        (λ n. true)
        2
        unmarshal
        true
        (over_tls none)
        (pos 0)
        (pos 40)
        made
        server
        rounds
      ≡ some e)
    × IsShut e
    × IsSettled library outside (λ n. true) 2 (pos 40) (exit_of e)
serve_conn_total_example =
    serve_conn_total library outside (λ n. true) 2 unmarshal true (over_tls none) (pos 0) (pos 40)
      made server rounds
