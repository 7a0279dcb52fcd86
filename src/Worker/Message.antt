-- ===== src/Worker/Message.antt =====
-- HandleMessage of stratum/server/client.go, which handles one request and stops at the first error.
pub mod Reports
pub mod Lines
use stratumserver.Prelude.{
  ℕ, Bool, true, false, not, List, [], ◌∷◌, Option, none, some, if◌then◌else◌, bytes_eq,
}
use stratumserver.Prelude.Int.{ℤ}
use stratumserver.Worker.{
  JsonRpcRequest, JsonRpcResponse, Job, WorkerConnection, Library, job_json_message,
  difficuly_json_message, handle_authorize, handle_subscribe, handle_submit,
}
use stratumserver.Worker.Codes.{ErrorWrap}
use stratumserver.Worker.Loop.{
  Outside, Message, request, response, nil_response, Serving, send_json_rpc, first_job,
  mining_subscribe, mining_authorize, mining_submit,
}

-- The error that HandleMessage returns: that of SendJsonRPC or that of HandleAuthorize.
pub data Fault : Type 0 where
  not_sent : Fault
  unauthorized : ErrorWrap → Fault

pub data Handled : Type 0 where
  handled : Serving → Handled
  failed : Serving → Fault → Handled
  panicked : Serving → Handled

-- The branch of server2/utils over the store of all transactions but the coinbase, as hashes of which
-- some are nil, and the text of a hash.
pub record Branch : Type 0 where
  pub merkle_path : List (Option (List ℕ))
  pub hash_string : List ℕ → List ℕ

-- `for _, merkle := range merklePath`
unfoldable pub branch_strings : (List ℕ → List ℕ) → List (Option (List ℕ)) → List (List ℕ)
branch_strings text [] = []
branch_strings text (none ∷ ms) = branch_strings text ms
branch_strings text (some m ∷ ms) = text m ∷ branch_strings text ms

module _ (lib : Library) (out : Outside) (branch : Branch) (flows : ℕ → Bool) (c : ℕ) where
  unfoldable pub next_job : ℤ → Job
  next_job now = record (first_job lib out flows c now) {
    merkle_branch = branch_strings branch.hash_string branch.merkle_path;
  }

  -- `err = connection.SendJsonRPC(m); if err != nil { return err }`
  unfoldable pub send_or_fail : Serving → Message → (Serving → Handled) → Handled
  send_or_fail s m rest =
      let (s', ok) = send_json_rpc lib out flows c s m in
      if not ok then failed s' not_sent else rest s'

  abbrev pub subscribe : Serving → Handled
  subscribe s = handled (record s { worker = record s.worker { subscribed = true } })

  unfoldable pub answer_authorize :
      Serving → ℤ → Option (WorkerConnection × JsonRpcResponse × Option ErrorWrap) → Handled
  answer_authorize s now none = panicked s
  answer_authorize s now (some (worker, resp, some e)) =
      failed (record s { worker = worker }) (unauthorized e)
  answer_authorize s now (some (worker, resp, none)) =
      send_or_fail (record s { worker = worker }) (response resp)
        λ s1.
          send_or_fail s1 (request (difficuly_json_message lib worker.initial_difficulty))
            λ s2. send_or_fail s2 (request (job_json_message lib (next_job now) true)) handled

  abbrev sent_response : Option JsonRpcResponse → Message
  sent_response none = nil_response
  sent_response (some r) = response r

  unfoldable pub answer_submit : Serving → Option (Option JsonRpcResponse) → Handled
  answer_submit s none = panicked s
  answer_submit s (some r) = send_or_fail s (sent_response r) handled

  unfoldable pub handle_message : Serving → ℤ → JsonRpcRequest → Handled
  unfolding answer_authorize answer_submit
  handle_message s now m =
      if bytes_eq m.method mining_subscribe
      then send_or_fail s (response (handle_subscribe lib s.worker m)) subscribe
      else if bytes_eq m.method mining_authorize
      then answer_authorize s now (handle_authorize lib s.worker m)
      else if bytes_eq m.method mining_submit
      then answer_submit s (handle_submit lib m)
      else handled s
