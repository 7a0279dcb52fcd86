-- ===== src/Worker/Authorize.antt =====
-- HandleAuthorize of stratum/server/client.go: who is authorized, and what the worker is told.
use stratumserver.Prelude.{
  ◌⊎◌, inl, inr, ℕ, ◌≡◌, refl, sym, ap, Bool, true, false, not, ◌&&◌, List, [], ◌∷◌, ◌++◌, Option,
  none, some, arith, if◌then◌else◌,
}
use stratumserver.Worker.{
  RpcId, Library, WorkerConnection, JsonRpcRequest, JsonRpcResponse, j_bool, j_error, authorize_fn,
  handle_authorize, authorization, is_none,
}
use stratumserver.Worker.Codes.{ErrorWrap, err_miner_invalid_format, err_rig_invalid_format}
use stratumserver.Worker.Names.{contains_alnum}
use stratumserver.Worker.Names.Parts.{IsPlain, quoted, worker_names-quoted}

module _ (lib : Library) where
  decided :
      (miner rig : Bool)
      → (if not miner
          then some err_miner_invalid_format
          else if not rig
          then some err_rig_invalid_format
          else none)
        ≡ (if miner && rig
            then none
            else if miner
            then some err_rig_invalid_format
            else some err_miner_invalid_format)
  decided miner rig = ground arith

  -- AuthorizeFn accepts `"miner.rig"` exactly if the miner is a UUID and the rig has a letter or a
  -- digit somewhere; the miner's format is faulted before the rig's.
  pub authorize_fn-quoted :
      (miner rig : List ℕ)
      → IsPlain miner
      → IsPlain rig
      → authorize_fn lib (quoted (miner ++ 46 ∷ rig)) ≡ (
          if lib.parses_uuid miner && contains_alnum rig
          then none
          else if lib.parses_uuid miner
          then some err_rig_invalid_format
          else some err_miner_invalid_format)
  unfolding authorize_fn
  authorize_fn-quoted miner rig h k =
      rw (worker_names-quoted miner rig [] h k).0
        (decided (lib.parses_uuid miner) (contains_alnum rig))

  -- What HandleAuthorize says of itself: the flag, the result and the error agree.
  pub record IsAnswer (c : WorkerConnection) (id : RpcId) (resp : JsonRpcResponse)
      (err : Option ErrorWrap) : Type 0 where
    pub same_id : resp.id ≡ id
    pub result : resp.result ≡ lib.jsonify (j_bool c.is_authorized)
    pub error :
        ((c.is_authorized ≡ true) × (resp.error ≡ none) × (err ≡ none))
        ⊎ ((e : ErrorWrap) × (c.is_authorized ≡ false)
            × (err ≡ some e)
            × (resp.error ≡ some (record { code = 20; message = lib.jsonify (j_error e) })))

  authorization-IsAnswer :
      (c : WorkerConnection) (id : RpcId) (e : Option ErrorWrap)
      → c.is_authorized ≡ is_none lib e
      → IsAnswer c id (authorization lib id e).0 (authorization lib id e).1
  authorization-IsAnswer c id none h = record {
    same_id = refl;
    result = ap (λ b. lib.jsonify (j_bool b)) (sym h);
    error = inl (h, refl, refl);
  }
  authorization-IsAnswer c id (some e) h = record {
    same_id = refl;
    result = ap (λ b. lib.jsonify (j_bool b)) (sym h);
    error = inr (e, h, refl, refl);
  }

  -- HandleAuthorize of a request with two parameters never panics: it keeps the name and the password,
  -- authorizes exactly if AuthorizeFn has no error, and the worker's flag, the result sent, the error
  -- sent and the error returned agree. The code sent is 20, whatever the error.
  pub handle_authorize-IsAnswer :
      (c : WorkerConnection) (m : JsonRpcRequest) (name pass : List ℕ) (rest : List (List ℕ))
      → m.params ≡ name ∷ pass ∷ rest
      → (c' : WorkerConnection) × (resp : JsonRpcResponse) × (err : Option ErrorWrap)
        × (handle_authorize lib c m ≡ some (c', resp, err))
        × (c'.worker_name ≡ name)
        × (c'.worker_pass ≡ pass)
        × (c'.is_authorized ≡ is_none lib (authorize_fn lib name))
        × IsAnswer c' m.id resp err
  handle_authorize-IsAnswer c m name pass rest h =
      let c' : WorkerConnection = record c {
        worker_name = name;
        worker_pass = pass;
        is_authorized = is_none lib (authorize_fn lib name);
      } in
      (
        c',
        (authorization lib m.id (authorize_fn lib name)).0,
        (authorization lib m.id (authorize_fn lib name)).1,
        (unfold handle_authorize in rw h refl),
        refl,
        refl,
        refl,
        authorization-IsAnswer c' m.id (authorize_fn lib name) refl,
      )
