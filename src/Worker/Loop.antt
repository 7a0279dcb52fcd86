-- ===== src/Worker/Loop.antt =====
-- The loop of conn.serve in stratum/server/conn.go. The functions that it takes from server2/utils and
-- the block of the package miner are not in the repository; they are parameters.
pub mod Exits
pub mod Answers
pub mod Kept
pub mod Steps
use stratumserver.Prelude.{
  ℕ, suc, ◌+◌, ◌%◌, ◌^◌, Bool, true, false, not, ◌&&◌, ◌||◌, List, [], ◌∷◌, ◌++◌, Option, none,
  some, if◌then◌else◌, ◌>>=◌, bytes_eq,
}
use stratumserver.Prelude.Int.{ℤ}
use stratumserver.Prelude.Int64.{bits64}
use stratumserver.Prelude.Hex.{encode_to_string}
use stratumserver.Server.{Server, set_state, state_active, state_closed}
use stratumserver.Worker.{
  JsonRpcRequest, JsonRpcResponse, Job, new_job, WorkerConnection, Library, new_stratum_client,
  job_json_message, difficuly_json_message, handle_authorize, handle_subscribe, handle_submit,
}
use stratumserver.Worker.Codes.{ErrorWrap}

-- What readMessage gives. A message `null` leaves the pointer nil; an error is io.EOF, one that is no
-- net.Error, as that of a malformed message, or a net.Error with its Timeout and Temporary.
pub data Reading : Type 0 where
  message : JsonRpcRequest → Reading
  no_message : Reading
  end_of_file : Reading
  other_error : Reading
  net_error : Bool → Bool → Reading

-- A round: what other goroutines did to the server before it, whether a byte was read, the time in
-- seconds, and what was read.
pub record Round : Type 0 where
  pub meanwhile : Server → Server
  pub read_any : Bool
  pub now : ℤ
  pub reading : Reading

pub data Message : Type 0 where
  request : JsonRpcRequest → Message
  response : JsonRpcResponse → Message
  -- a nil *JsonRpcResponse, which json.Marshal takes too
  nil_response : Message

-- server2/utils, miner.Block100000 and json.Marshal of a message.
pub record Outside : Type 0 where
  pub split_coinbase : List ℕ → List ℕ × List ℕ
  pub reverse_byte_order : List ℕ → List ℕ
  pub pack_int32_be : ℕ → List ℕ
  pub pack_uint32_be : ℕ → List ℕ
  pub coinbase : List ℕ
  pub prev_block : List ℕ
  pub version : ℕ
  pub json : Message → List ℕ

-- The server, the worker, the lines that were flushed, and how many sends were tried.
pub record Serving : Type 0 where
  pub server : Server
  pub worker : WorkerConnection
  pub sent : List (List ℕ)
  pub tries : ℕ

-- The value of a panic: an error of the runtime, ErrAbortHandler, or a string.
pub data PanicValue : Type 0 where
  runtime_error abort_handler : PanicValue
  text : List ℕ → PanicValue

-- `err.(error)`: a string has no method Error, and the assertion panics.
abbrev pub is_error : PanicValue → Bool
is_error runtime_error = true
is_error abort_handler = true
is_error (text s) = false

abbrev pub is_abort : PanicValue → Bool
is_abort abort_handler = true
is_abort _ = false

-- Where a round ends: in the next, in a return, in a panic that the deferred function logs, or in one
-- that it panics on again, which ends the process.
pub data Turn : Type 0 where
  go_on : Serving → Turn
  return_ : Serving → Turn
  recovered : Serving → Turn
  crashed : Serving → Turn

pub data Exit : Type 0 where
  waiting : Serving → Exit
  finished : Server → Exit
  broken : Serving → Exit

-- The deferred function on a panic, up to Close: it logs the value as an error, unless it is
-- ErrAbortHandler. A panic in it is not recovered.
abbrev pub on_panic : Serving → PanicValue → Turn
on_panic s v = if is_abort v then recovered s else if is_error v then recovered s else crashed s

-- `Got submit !!!`
abbrev got_submit : List ℕ
got_submit = 71 ∷ 111 ∷ 116 ∷ 32 ∷ 115 ∷ 117 ∷ 98 ∷ 109 ∷ 105 ∷ 116 ∷ 32 ∷ 33 ∷ 33 ∷ 33 ∷ []

abbrev pub mining_subscribe : List ℕ
mining_subscribe =
    109 ∷ 105 ∷ 110 ∷ 105 ∷ 110 ∷ 103 ∷ 46 ∷ 115 ∷ 117 ∷ 98 ∷ 115 ∷ 99 ∷ 114 ∷ 105 ∷ 98 ∷ 101 ∷ []

abbrev pub mining_submit : List ℕ
mining_submit = 109 ∷ 105 ∷ 110 ∷ 105 ∷ 110 ∷ 103 ∷ 46 ∷ 115 ∷ 117 ∷ 98 ∷ 109 ∷ 105 ∷ 116 ∷ []

abbrev pub mining_authorize : List ℕ
mining_authorize =
    109 ∷ 105 ∷ 110 ∷ 105 ∷ 110 ∷ 103 ∷ 46 ∷ 97 ∷ 117 ∷ 116 ∷ 104 ∷ 111 ∷ 114 ∷ 105 ∷ 122 ∷ 101 ∷ []

-- The program's parts that the loop uses, whether the n-th send succeeds, and the connection.
module _ (lib : Library) (out : Outside) (flows : ℕ → Bool) (c : ℕ) where
  -- SendJsonRPC, and whether it had no error.
  unfoldable pub send_json_rpc : Serving → Message → Serving × Bool
  send_json_rpc s m =
      let ok : Bool = flows s.tries in
      let line : List ℕ = out.json m ++ 10 ∷ [] in
      (record s { sent = if ok then s.sent ++ line ∷ [] else s.sent; tries = suc s.tries }, ok)

  -- The job that an authorization is answered with: `"XXX-1"`, for the time given.
  unfoldable pub first_job : ℤ → Job
  first_job now =
      let (part1, part2) = out.split_coinbase out.coinbase in
      new_job (88 ∷ 88 ∷ 88 ∷ 45 ∷ 49 ∷ [])
        (encode_to_string (out.reverse_byte_order out.prev_block)) (encode_to_string part1)
        (encode_to_string part2) [] (encode_to_string (out.pack_int32_be out.version))
        (encode_to_string (out.pack_uint32_be 486604799))
        (encode_to_string (out.pack_uint32_be (bits64 now % 2 ^ 32)))

  -- The last lines of the loop's body: the error ends the connection, else the response is sent.
  unfoldable pub close_round : Serving → Bool → JsonRpcResponse → Turn
  close_round s ok resp =
      let (s', ok') = send_json_rpc s (response resp) in
      if not ok then return_ s else if ok' then go_on s' else return_ s'

  unfoldable pub on_authorize :
      Serving → ℤ → Option (WorkerConnection × JsonRpcResponse × Option ErrorWrap) → Turn
  on_authorize s now none = on_panic s runtime_error
  on_authorize s now (some (worker, resp, err)) =
      let (s1, ok) = send_json_rpc (record s { worker = worker }) (response resp) in
      let difficulty = difficuly_json_message lib worker.initial_difficulty in
      let (s2, ok2) = send_json_rpc s1 (request difficulty) in
      let (s3, ok3) = send_json_rpc s2 (request (job_json_message lib (first_job now) true)) in
      close_round s3 ok resp

  -- HandleSubmit, which indexes the parameters, and then a panic.
  unfoldable pub on_submit : Serving → Option (Option JsonRpcResponse) → Turn
  on_submit s none = on_panic s runtime_error
  on_submit s (some resp) = on_panic s (text got_submit)

  unfoldable pub handle : Serving → ℤ → JsonRpcRequest → Turn
  unfolding on_authorize on_submit
  handle s now m =
      if bytes_eq m.method mining_subscribe
      then close_round s true (handle_subscribe lib s.worker m)
      else if bytes_eq m.method mining_submit
      then on_submit s (handle_submit lib m)
      else if bytes_eq m.method mining_authorize
      then on_authorize s now (handle_authorize lib s.worker m)
      else go_on s

  unfoldable pub on_reading : Serving → ℤ → Reading → Turn
  unfolding handle
  on_reading s now (message m) = handle s now m
  on_reading s now no_message = on_panic s runtime_error
  on_reading s now end_of_file = return_ s
  on_reading s now other_error = return_ s
  on_reading s now (net_error timeout temporary) =
      if timeout then return_ s else if temporary then go_on s else return_ s

  abbrev mark : Round → Server → Option Server
  mark r s = if r.read_any then set_state s r.now c state_active else some s

  -- A round; `none` is a panic of setState.
  unfoldable pub turn : Serving → Round → Option Turn
  unfolding on_reading
  turn s r = do
    server ← mark r (r.meanwhile s.server)
    some (on_reading (record s { server = server }) r.now r.reading)

  -- The deferred call: setState(StateClosed), after Close.
  unfoldable pub close_conn : ℤ → Serving → Option Exit
  close_conn now s = do server ← set_state s.server now c state_closed; some (finished server)

  unfoldable pub serve_loop : ℤ → Serving → List Round → Option Exit
  serve_loop end s [] = some (waiting s)
  serve_loop end s (r ∷ rs) = do
    t ← turn s r
    elim t [
      | go_on s' ↦ serve_loop end s' rs
      | return_ s' ↦ close_conn end s'
      | recovered s' ↦ close_conn end s'
      | crashed s' ↦ some (broken s')
    ]
