-- ===== src/Worker.antt =====
-- WorkerConnection of stratum/server/client.go, Job of stratum/server/job.go, the messages of
-- stratum/server/jsonrpc.go and the codes of stratum/types/types.go. A string is a list of bytes;
-- `none` is a panic.
pub mod Codes
pub mod Names
pub mod Authorize
pub mod Loop
pub mod Message
pub mod Twins
pub mod Marshal
mod Tests
use stratumserver.Prelude.{
  ℕ, ◌+◌, Bool, true, false, not, ◌&&◌, ◌||◌, List, [], ◌∷◌, ◌++◌, Option, none, some, ltb, leb,
  ◌==◌, get_elem?, if◌then◌else◌, ◌>>=◌, ◌⊎◌, inl, inr,
}
use stratumserver.Prelude.Int.{ℤ, pos}
use stratumserver.Prelude.Hex.{encode_to_string}
use stratumserver.Worker.Codes.{ErrorWrap, err_miner_invalid_format, err_rig_invalid_format, code}
use stratumserver.Worker.Names.{worker_names, contains_alnum}

-- What an `Id interface{}` holds: nothing, an int64, an int, or what json.Unmarshal makes of a client's
-- id, which is a float64 for a number.
pub data RpcId : Type 0 where
  null_id : RpcId
  int64_id : ℤ → RpcId
  int_id : ℤ → RpcId
  decoded_id : List ℕ → RpcId

pub record JsonRpcError : Type 0 where
  pub code : ℕ
  pub message : List ℕ

pub record JsonRpcRequest : Type 0 where
  pub id : RpcId
  pub method : List ℕ
  pub params : List (List ℕ)

pub record JsonRpcResponse : Type 0 where
  pub id : RpcId
  pub result : List ℕ
  pub error : Option JsonRpcError

-- GetJsonRpcId of both: the type assertion to int64 panics on any other type.
unfoldable pub get_json_rpc_id : RpcId → Option ℤ
get_json_rpc_id null_id = some (pos 0)
get_json_rpc_id (int64_id z) = some z
get_json_rpc_id (int_id z) = none
get_json_rpc_id (decoded_id t) = none

-- The values that the server hands to Jsonify.
pub data Json : Type 0 where
  j_string : List ℕ → Json
  j_strings : List (List ℕ) → Json
  j_bool : Bool → Json
  j_error : ErrorWrap → Json
  j_subscription : List ℕ → List ℕ → ℕ → Json

pub record Job : Type 0 where
  pub job_id : List ℕ
  pub prev_hash : List ℕ
  pub coinb1 : List ℕ
  pub coinb2 : List ℕ
  pub merkle_branch : List (List ℕ)
  pub version : List ℕ
  pub n_bits : List ℕ
  pub n_time : List ℕ

-- newJob
abbrev pub new_job :
    List ℕ → List ℕ → List ℕ → List ℕ → List (List ℕ) → List ℕ → List ℕ → List ℕ → Job
new_job job_id prev_hash coinb1 coinb2 merkle_branch version n_bits n_time = record {
  job_id = job_id;
  prev_hash = prev_hash;
  coinb1 = coinb1;
  coinb2 = coinb2;
  merkle_branch = merkle_branch;
  version = version;
  n_bits = n_bits;
  n_time = n_time;
}

-- The times are in seconds. A float64 is the number of its bits, and so is what a *big.Float of it points
-- to; a nil pointer, channel or atomic.Value is `none`. What the pointers to the VarDiff and to the Shares
-- point to is not read by this code: they are numbers, and Vardiff and Counter model it.
pub record WorkerConnection : Type 0 where
  pub subscription_id : List ℕ
  pub last_activity : ℤ
  pub shares : ℕ
  pub subscription_before_auth : Bool
  pub extra_nonce1 : List ℕ
  pub var_diff : ℕ
  pub worker : ℕ
  pub worker_name : List ℕ
  pub worker_pass : List ℕ
  pub is_authorized : Bool
  pub subscribed : Bool
  pub initial_difficulty : ℕ
  pub pending_difficulty : Option ℕ
  pub current_difficulty : Option ℕ
  pub previous_difficulty : Option ℕ
  pub connection_timeout : ℤ
  pub tcp_proxy_protocol : Bool
  pub socket_closed_event : Option ℕ
  pub id : ℤ
  pub job : Option Job

-- setJob
abbrev pub set_job : WorkerConnection → Job → WorkerConnection
set_job miner job = record miner { job = some job }

-- The arguments of NewStratumClient. A float64 is the number of its bits.
pub record ClientOptions : Type 0 where
  pub initial_difficulty : ℕ
  pub connection_timeout : ℤ
  pub tcp_proxy_protocol : Bool
  pub min_diff : ℕ
  pub max_diff : ℕ
  pub target_time : ℤ
  pub retarget_time : ℤ
  pub variance_percent : ℕ
  pub x2_mode : Bool

-- What NewStratumClient takes from elsewhere: the text of uuid.New, the time, the pointer that
-- NewVarDiff returns, which Vardiff/Calc models, for the last six arguments, and that of `new(Shares)`.
pub record Made : Type 0 where
  pub uuid : List ℕ
  pub now : ℤ
  pub new_var_diff : ℕ → ℕ → ℤ → ℤ → ℕ → Bool → ℕ
  pub new_shares : ℕ

-- encoding/json's Marshal, the text of a big.Float of a float64, given by its bits and no NaN, for which
-- MarshalText does not fail, and google/uuid's Parse.
pub record Library : Type 0 where
  pub jsonify : Json → List ℕ
  pub marshal_text : ℕ → List ℕ
  pub parses_uuid : List ℕ → Bool

-- What tells the requests of the server apart; the strings are ASCII.
abbrev pub mining_notify : List ℕ
mining_notify = 109 ∷ 105 ∷ 110 ∷ 105 ∷ 110 ∷ 103 ∷ 46 ∷ 110 ∷ 111 ∷ 116 ∷ 105 ∷ 102 ∷ 121 ∷ []

abbrev pub mining_set_difficulty : List ℕ
mining_set_difficulty =
    109 ∷ 105 ∷ 110 ∷ 105 ∷ 110 ∷ 103 ∷ 46 ∷ 115 ∷ 101 ∷ 116 ∷ 95 ∷ 100 ∷ 105 ∷ 102 ∷ 102 ∷ 105 ∷ 99
    ∷ 117 ∷ 108 ∷ 116 ∷ 121 ∷ []

abbrev pub extra_nonce2_size : ℕ
extra_nonce2_size = 4

module _ (lib : Library) where
  -- NewStratumClient for a TargetTime other than 0, by which NewVarDiff divides; extranonce 1 is always
  -- four zeros, and the bits of 0 are 0.
  unfoldable pub new_stratum_client : Made → ClientOptions → WorkerConnection
  new_stratum_client made o = record {
    subscription_id = made.uuid;
    last_activity = made.now;
    shares = made.new_shares;
    subscription_before_auth = false;
    extra_nonce1 = 0 ∷ 0 ∷ 0 ∷ 0 ∷ [];
    var_diff =
        made.new_var_diff o.min_diff o.max_diff o.target_time o.retarget_time o.variance_percent
          o.x2_mode;
    worker = 0;
    worker_name = [];
    worker_pass = [];
    is_authorized = false;
    subscribed = false;
    initial_difficulty = o.initial_difficulty;
    pending_difficulty = some 0;
    current_difficulty = none;
    previous_difficulty = none;
    connection_timeout = o.connection_timeout;
    tcp_proxy_protocol = o.tcp_proxy_protocol;
    socket_closed_event = none;
    id = pos 0;
    job = none;
  }

  unfoldable pub job_params : Job → Bool → List (List ℕ)
  job_params job force_update =
      lib.jsonify (j_string job.job_id)
      ∷ lib.jsonify (j_string job.prev_hash)
      ∷ lib.jsonify (j_string job.coinb1)
      ∷ lib.jsonify (j_string job.coinb2)
      ∷ lib.jsonify (j_strings job.merkle_branch)
      ∷ lib.jsonify (j_string job.version)
      ∷ lib.jsonify (j_string job.n_bits)
      ∷ lib.jsonify (j_string job.n_time)
      ∷ lib.jsonify (j_bool force_update)
      ∷ []

  unfoldable pub stratum_json_request : Job → Bool → JsonRpcRequest
  unfolding job_params
  stratum_json_request job force_update = record {
    id = null_id;
    method = mining_notify;
    params = job_params job force_update;
  }

  unfoldable pub job_json_message : Job → Bool → JsonRpcRequest
  unfolding job_params
  job_json_message job force_update = record {
    id = int_id (pos 3);
    method = mining_notify;
    params = job_params job force_update;
  }

  unfoldable pub difficuly_json_message : ℕ → JsonRpcRequest
  difficuly_json_message difficulty = record {
    id = int_id (pos 0);
    method = mining_set_difficulty;
    params = lib.marshal_text difficulty ∷ [];
  }

  -- AuthorizeFn: the error, or that the worker is authorized.
  unfoldable pub authorize_fn : List ℕ → Option ErrorWrap
  authorize_fn worker_name =
      let (miner, rig) = worker_names worker_name in
      if not (lib.parses_uuid miner)
      then some err_miner_invalid_format
      else if not (contains_alnum rig)
      then some err_rig_invalid_format
      else none

  -- The response to an authorization, and its error.
  abbrev authorization : RpcId → Option ErrorWrap → JsonRpcResponse × Option ErrorWrap
  authorization id none =
      (record { id = id; result = lib.jsonify (j_bool true); error = none }, none)
  authorization id (some e) = (
    record {
      id = id;
      result = lib.jsonify (j_bool false);
      error = some (record { code = 20; message = lib.jsonify (j_error e) });
    },
    some e,
  )

  abbrev is_none : Option ErrorWrap → Bool
  is_none none = true
  is_none (some e) = false

  unfoldable pub handle_authorize :
      WorkerConnection
      → JsonRpcRequest
      → Option (WorkerConnection × JsonRpcResponse × Option ErrorWrap)
  handle_authorize c message = do
    worker_name ← get_elem? message.params 0
    worker_pass ← get_elem? message.params 1
    let err : Option ErrorWrap = authorize_fn worker_name
    let c' : WorkerConnection = record c {
      worker_name = worker_name;
      worker_pass = worker_pass;
      is_authorized = is_none err;
    }
    let (resp, e) = authorization message.id err
    some (c', resp, e)

  unfoldable pub handle_subscribe : WorkerConnection → JsonRpcRequest → JsonRpcResponse
  handle_subscribe c message = record {
    id = message.id;
    result =
        lib.jsonify
          (j_subscription c.subscription_id (encode_to_string c.extra_nonce1) extra_nonce2_size);
    error = none;
  }

  -- HandleSubmit reads five parameters and answers nothing.
  unfoldable pub handle_submit : JsonRpcRequest → Option (Option JsonRpcResponse)
  handle_submit message = do
    username ← get_elem? message.params 0
    job_id ← get_elem? message.params 1
    extra_nonce2 ← get_elem? message.params 2
    n_time ← get_elem? message.params 3
    n_once ← get_elem? message.params 4
    some none
