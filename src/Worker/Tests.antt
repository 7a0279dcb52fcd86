-- ===== src/Worker/Tests.antt =====
-- Concrete runs of a worker's connection.
use stratumserver.Server.System.{System, looping, not_called, stays, Runs}
use stratumserver.Server.Accept.{accepting}
use stratumserver.Worker.Loop.Steps.{Interleaves, IsRun, serve_loop-IsRun}
use stratumserver.Worker.Loop.{Exit, serve_loop}
use stratumserver.Prelude.{
  ℕ, ◌≡◌, refl, ◌==◌, true, false, List, [], ◌∷◌, ◌++◌, none, some, length, if◌then◌else◌,
}
use stratumserver.Prelude.Int.{pos}
use stratumserver.Server.{Server, unmade}
use stratumserver.Utils.Reverse.{reverse_bytes}
use stratumserver.Utils.Pack.{pack_int32_be, pack_uint32_be}
use stratumserver.Worker.{
  Library, Json, j_string, j_strings, j_bool, j_error, j_subscription, decoded_id, JsonRpcRequest,
  JsonRpcResponse, WorkerConnection, new_stratum_client, authorize_fn, handle_authorize,
  difficuly_json_message, job_json_message,
}
use stratumserver.Worker.Codes.{err_miner_invalid_format}
use stratumserver.Worker.Names.{split, worker_names, contains_alnum}
use stratumserver.Worker.Names.Parts.{quoted}
use stratumserver.Worker.Loop.{
  Outside, Message, request, response, nil_response, Serving, Round, message, net_error,
  end_of_file, go_on, handle, mining_authorize, first_job,
}
use stratumserver.Worker.Message.{Branch, handle_message}
use stratumserver.Worker.Message.Reports.{IsReported, handle_message-IsReported}
use stratumserver.Worker.Message.Lines.{IsAuthorized, message_authorize}
use stratumserver.Server.Shutdown.{close_listeners_locked}
use stratumserver.Server.Shutdown.Begin.{shutdown_locked_lem}
use stratumserver.Server.{closed_chan, track_conn}
use stratumserver.Server.System.{
  Step, steps, with_server, marked, polling, ended, marks, begins, ends,
}
use stratumserver.Worker.{Made, ClientOptions}
use stratumserver.Prelude.{replicate, length, if◌then◌else◌}
use stratumserver.Worker.Loop.{mining_submit}
use stratumserver.Worker.Loop.Answers.{authorize_lines}

-- A marshaller that keeps what tells values apart, and a check that only looks at the length.
abbrev marshal : Json → List ℕ
marshal (j_string s) = quoted s
marshal (j_strings ss) = 91 ∷ 93 ∷ []
marshal (j_bool b) = if b then 116 ∷ [] else 102 ∷ []
marshal (j_error e) = 123 ∷ 125 ∷ []
marshal (j_subscription id extra size) = id ++ extra ++ size ∷ []

abbrev library : Library
library = record { jsonify = marshal; marshal_text = λ n. n ∷ []; parses_uuid = λ m. length m == 4 }

abbrev of_message : Message → List ℕ
of_message (request m) = m.method
of_message (response r) = r.result
of_message nil_response = 110 ∷ 117 ∷ 108 ∷ 108 ∷ []

abbrev outside : Outside
outside = record {
  split_coinbase = λ raw. (raw, raw);
  reverse_byte_order = reverse_bytes;
  pack_int32_be = pack_int32_be;
  pack_uint32_be = pack_uint32_be;
  coinbase = 1 ∷ [];
  prev_block = 2 ∷ [];
  version = 1;
  json = of_message;
}

-- `abcd` and `rig1`
abbrev a_miner : List ℕ
a_miner = 97 ∷ 98 ∷ 99 ∷ 100 ∷ []

abbrev a_rig : List ℕ
a_rig = 114 ∷ 105 ∷ 103 ∷ 49 ∷ []

abbrev authorizing : JsonRpcRequest
authorizing = record {
  id = decoded_id (49 ∷ []);
  method = mining_authorize;
  params = quoted (a_miner ++ 46 ∷ a_rig) ∷ quoted [] ∷ [];
}

-- What a client is made of.
abbrev made : Made
made = record { uuid = 7 ∷ []; now = pos 5; new_var_diff = λ lo hi t r v x2. 11; new_shares = 12 }

abbrev client_options : ClientOptions
client_options = record {
  initial_difficulty = 2;
  connection_timeout = pos 600;
  tcp_proxy_protocol = false;
  min_diff = 2;
  max_diff = 5;
  target_time = pos 15;
  retarget_time = pos 90;
  variance_percent = 30;
  x2_mode = false;
}

abbrev client : WorkerConnection
client = new_stratum_client library made client_options

abbrev server : Server
server = record {
  addr = [];
  read_timeout = pos 3000000000000;
  read_header_timeout = pos 0;
  write_timeout = pos 3000000000000;
  idle_timeout = pos 0;
  max_header_bytes = pos 0;
  in_shutdown = false;
  listeners = 7 ∷ [];
  active_conn = 1 ∷ 2 ∷ [];
  done_chan = unmade;
  on_shutdown = [];
  cur_state = λ c. 0;
}

abbrev serving : Serving
serving = record { server = server; worker = client; sent = []; tries = 0 }

abbrev rounds : List Round
rounds =
    record { meanwhile = λ s. s; read_any = true; now = pos 10; reading = message authorizing }
    ∷ record { meanwhile = λ s. s; read_any = false; now = pos 20; reading = net_error false true }
    ∷ record { meanwhile = λ s. s; read_any = false; now = pos 30; reading = end_of_file }
    ∷ []

abbrev accepted : JsonRpcResponse
accepted = record { id = decoded_id (49 ∷ []); result = 116 ∷ []; error = none }

abbrev authorized : WorkerConnection
authorized = record client {
  worker_name = quoted (a_miner ++ 46 ∷ a_rig);
  worker_pass = quoted [];
  is_authorized = true;
}

authorizes : handle_authorize library client authorizing ≡ some (authorized, accepted, none)
unfolding handle_authorize authorize_fn worker_names new_stratum_client contains_alnum split
authorizes = refl

authorize_lines_example :
    (s' : Serving) × (handle library outside (λ n. true) 2 serving (pos 10) authorizing ≡ go_on s')
    × (s'.sent
        ≡ []
          ++ (of_message (response accepted) ++ 10 ∷ [])
            ∷ (of_message (request (difficuly_json_message library authorized.initial_difficulty))
                ++ 10 ∷ [])
            ∷ (of_message (
                  request (
                    job_json_message library
                      (first_job library outside (λ n. true) 2 (pos 10))
                      true))
                ++ 10 ∷ [])
            ∷ (of_message (response accepted) ++ 10 ∷ [])
            ∷ [])
authorize_lines_example =
    authorize_lines library outside (λ n. true) 2 serving (pos 10) authorizing authorized accepted
      none (λ n. refl) refl authorizes

-- The store of the merkle tree has a hash and a nil.
abbrev branch : Branch
branch = record { merkle_path = none ∷ some (1 ∷ 2 ∷ []) ∷ []; hash_string = λ h. h }

handle_message-IsReported_example :
    IsReported serving
      (handle_message library outside branch (λ n. n == 0) 2 serving (pos 10) authorizing)
handle_message-IsReported_example =
    handle_message-IsReported library outside branch (λ n. n == 0) 2 serving (pos 10) authorizing

-- `12.rig1`, whose miner is no UUID for the check above.
abbrev rejected : JsonRpcRequest
rejected = record authorizing { params = quoted (49 ∷ 50 ∷ 46 ∷ a_rig) ∷ quoted [] ∷ [] }

abbrev unnamed : WorkerConnection
unnamed = record client { worker_name = quoted (49 ∷ 50 ∷ 46 ∷ a_rig); worker_pass = quoted [] }

abbrev refusal : JsonRpcResponse
refusal = record {
  id = decoded_id (49 ∷ []);
  result = 102 ∷ [];
  error = some (record { code = 20; message = 123 ∷ 125 ∷ [] });
}

rejects :
    handle_authorize library client rejected
    ≡ some (unnamed, refusal, some err_miner_invalid_format)
unfolding handle_authorize authorize_fn worker_names new_stratum_client contains_alnum split
rejects = refl

message_authorize_example :
    IsAuthorized library outside branch
      (λ n. true)
      2
      serving
      (pos 10)
      unnamed
      refusal
      (some err_miner_invalid_format)
      (handle_message library outside branch (λ n. true) 2 serving (pos 10) rejected)
message_authorize_example =
    message_authorize library outside branch (λ n. true) 2 serving (pos 10) rejected unnamed refusal
      (some err_miner_invalid_format) (λ n. refl) refl rejects

-- The connections 1 and 2 run, and Serve waits for the next.
abbrev system : System
system = record {
  loop = accepting server;
  phase = looping;
  live = 1 ∷ 2 ∷ [];
  ending = [];
  closed = [];
  late = [];
  stage = not_called;
}

-- Shutdown marks the server, then closes the channel; then connection 1 ends.
abbrev shared_rounds : List Round
shared_rounds =
    record {
      meanwhile = λ s. record s { in_shutdown = true };
      read_any = true;
      now = pos 10;
      reading = message authorizing;
    }
    ∷ record {
      meanwhile = λ s. record s { done_chan = closed_chan };
      read_any = false;
      now = pos 20;
      reading = net_error false true;
    }
    ∷ record {
      meanwhile = λ s. track_conn s 1 false;
      read_any = false;
      now = pos 30;
      reading = end_of_file;
    }
    ∷ []

one : (y z : System) → Step 9 (λ ln. none) y z → Runs 9 (λ ln. none) y z
one y z h = steps y z z h (stays z)

abbrev marked_system : System
marked_system = record (with_server system (record server { in_shutdown = true })) {
  stage = marked;
}

-- After the second round's Shutdown, on the server that the first round left.
abbrev shut_system : Server → System
shut_system t = record (with_server marked_system (record t { done_chan = closed_chan })) {
  stage = polling (close_listeners_locked (λ ln. none) t);
}

interleaved : Interleaves library outside (λ n. true) 2 9 (λ ln. none) system shared_rounds
unfolding Interleaves ended
interleaved = (
  marked_system,
  one system marked_system (marks system refl),
  refl,
  refl,
  λ t e. (
    shut_system t,
    one (with_server marked_system t) (shut_system t)
        (begins (with_server marked_system t) _ _ _ refl (shutdown_locked_lem (λ ln. none) t)),
    refl,
    refl,
    λ u e'. (
      ended (with_server (shut_system t) u) 1,
      one (with_server (shut_system t) u) (ended (with_server (shut_system t) u) 1)
          (ends (with_server (shut_system t) u) 1 refl),
      refl,
      refl,
      λ v e''. tt,
    ),
  ),
)

serve_loop-IsRun_example :
    (e : Exit) × (serve_loop library outside (λ n. true) 2 (pos 40) serving shared_rounds ≡ some e)
    × IsRun library outside (λ n. true) 2 9 (λ ln. none) system e
serve_loop-IsRun_example =
    serve_loop-IsRun library outside (λ n. true) 2 9 (λ ln. none) system (pos 40) serving
      shared_rounds refl refl interleaved

-- A submission of five parameters, after connection 1 ended.
abbrev submitting : JsonRpcRequest
submitting = record { id = decoded_id (50 ∷ []); method = mining_submit; params = replicate 5 [] }

abbrev submit_round : Round
submit_round = record {
  meanwhile = λ s. track_conn s 1 false;
  read_any = true;
  now = pos 10;
  reading = message submitting;
}
