-- ===== src/Worker/Loop/Kept.antt =====
-- What the loop of conn.serve in stratum/server/conn.go does to the server: only setState changes it.
use stratumserver.Prelude.{
  ℕ, ◌≡◌, refl, Bool, true, false, not, Option, none, some, if◌then◌else◌, bytes_eq, Bool-cases,
  inl, inr,
}
use stratumserver.Prelude.Int.{ℤ}
use stratumserver.Server.{Server, set_state, state_closed}
use stratumserver.Worker.{
  Library, JsonRpcRequest, JsonRpcResponse, WorkerConnection, handle_subscribe, handle_submit,
  handle_authorize,
}
use stratumserver.Worker.Codes.{ErrorWrap}
use stratumserver.Worker.Loop.{
  Outside, Serving, Reading, message, no_message, end_of_file, other_error, net_error, Turn, go_on,
  return_, recovered, crashed, on_reading, on_authorize, on_submit, close_round, handle,
  send_json_rpc, response, mining_subscribe, mining_submit, mining_authorize,
}

unfoldable pub turn_server : Turn → Server
turn_server (go_on s) = s.server
turn_server (return_ s) = s.server
turn_server (recovered s) = s.server
turn_server (crashed s) = s.server

pick_server :
    (b : Bool) (x y : Turn) (s : Server)
    → turn_server x ≡ s
    → turn_server y ≡ s
    → turn_server (if b then x else y) ≡ s
pick_server true x y s p q = p
pick_server false x y s p q = q

pub closed_state :
    (s : Server) (now : ℤ) (c : ℕ) → (t : Server) × (set_state s now c state_closed ≡ some t)
unfolding set_state
closed_state s now c = (_, refl)

module _ (lib : Library) (out : Outside) (flows : ℕ → Bool) (c : ℕ) where
  close_round-server :
      (s : Serving) (ok : Bool) (resp : JsonRpcResponse)
      → turn_server (close_round lib out flows c s ok resp) ≡ s.server
  unfolding close_round send_json_rpc turn_server
  close_round-server s ok resp =
      let (s', ok') = send_json_rpc lib out flows c s (response resp) in
      pick_server (not ok) (return_ s) (if ok' then go_on s' else return_ s') s.server refl
        (pick_server ok' (go_on s') (return_ s') s.server refl refl)

  on_authorize-server :
      (s : Serving) (now : ℤ) (r : Option (WorkerConnection × JsonRpcResponse × Option ErrorWrap))
      → turn_server (on_authorize lib out flows c s now r) ≡ s.server
  unfolding on_authorize send_json_rpc turn_server
  on_authorize-server s now none = refl
  on_authorize-server s now (some (worker, resp, err)) = close_round-server _ _ resp

  on_submit-server :
      (s : Serving) (r : Option (Option JsonRpcResponse))
      → turn_server (on_submit lib out flows c s r) ≡ s.server
  unfolding on_submit turn_server
  on_submit-server s none = refl
  on_submit-server s (some resp) = refl

  handle-server :
      (s : Serving) (now : ℤ) (m : JsonRpcRequest)
      → turn_server (handle lib out flows c s now m) ≡ s.server
  unfolding handle turn_server
  handle-server s now m = elim (Bool-cases (bytes_eq m.method mining_subscribe)) [
    | inl a ↦ rw a (close_round-server s true (handle_subscribe lib s.worker m))
    | inr a ↦ rw a elim (Bool-cases (bytes_eq m.method mining_submit)) [
      | inl b ↦ rw b (on_submit-server s (handle_submit lib m))
      | inr b ↦ rw b elim (Bool-cases (bytes_eq m.method mining_authorize)) [
        | inl d ↦ rw d (on_authorize-server s now (handle_authorize lib s.worker m))
        | inr d ↦ rw d refl
      ]
    ]
  ]

  -- What is read does not change the server.
  pub on_reading-server :
      (s : Serving) (now : ℤ) (r : Reading)
      → turn_server (on_reading lib out flows c s now r) ≡ s.server
  unfolding on_reading turn_server
  on_reading-server s now (message m) = handle-server s now m
  on_reading-server s now no_message = refl
  on_reading-server s now end_of_file = refl
  on_reading-server s now other_error = refl
  on_reading-server s now (net_error timeout temporary) =
      pick_server timeout (return_ s) (if temporary then go_on s else return_ s) s.server refl
        (pick_server temporary (go_on s) (return_ s) s.server refl refl)
