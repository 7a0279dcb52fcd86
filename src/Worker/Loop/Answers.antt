-- ===== src/Worker/Loop/Answers.antt =====
-- What conn.serve answers to mining.authorize and to mining.submit.
use stratumserver.Prelude.{
  ℕ, suc, le→leb, ◌≡◌, refl, sym, ap, ◌∙◌, Bool, true, false, List, [], ◌∷◌, ◌++◌, Option, none,
  some, arith, if◌then◌else◌, bytes_eq, length, leb,
}
use stratumserver.Prelude.Int.{ℤ}
use stratumserver.Worker.{
  Library, JsonRpcRequest, JsonRpcResponse, WorkerConnection, handle_authorize, handle_submit,
  difficuly_json_message, job_json_message,
}
use stratumserver.Worker.Codes.{ErrorWrap}
use stratumserver.Server.{Server}
use stratumserver.Worker.Loop.{
  Outside, Serving, go_on, recovered, crashed, Message, request, response, handle, on_authorize,
  on_submit, close_round, send_json_rpc, first_job, mining_submit, mining_authorize,
}

submit_params :
    (lib : Library) (m : JsonRpcRequest) (ps : List (List ℕ))
    → handle_submit lib (record m { params = ps }) ≡ (if leb 5 (length ps) then some none else none)
unfolding handle_submit
submit_params lib m [] = refl
submit_params lib m (a ∷ []) = refl
submit_params lib m (a ∷ b ∷ []) = refl
submit_params lib m (a ∷ b ∷ d ∷ []) = refl
submit_params lib m (a ∷ b ∷ d ∷ e ∷ []) = refl
submit_params lib m (a ∷ b ∷ d ∷ e ∷ f ∷ ps) =
    sym (rw (le→leb 5 (length (a ∷ b ∷ d ∷ e ∷ f ∷ ps)) (omega arith)) refl)

outcome :
    (lib : Library) (out : Outside) (flows : ℕ → Bool) (c : ℕ) (s : Serving) (b : Bool)
    → on_submit lib out flows c s (if b then some none else none)
      ≡ (if b then crashed s else recovered s)
unfolding on_submit
outcome lib out flows c s true = refl
outcome lib out flows c s false = refl

module _ (lib : Library) (out : Outside) (flows : ℕ → Bool) (c : ℕ) where
  abbrev line : Message → List ℕ
  line m = out.json m ++ 10 ∷ []

  pub sends :
      (s : Serving) (m : Message)
      → ((n : ℕ) → flows n ≡ true)
      → send_json_rpc lib out flows c s m
        ≡ (record s { sent = s.sent ++ line m ∷ []; tries = suc s.tries }, true)
  unfolding send_json_rpc
  sends s m h = rw (h s.tries) refl

  authorize_route :
      (s : Serving) (now : ℤ) (m : JsonRpcRequest)
      → m.method ≡ mining_authorize
      → handle lib out flows c s now m
        ≡ on_authorize lib out flows c s now (handle_authorize lib s.worker m)
  unfolding handle bytes_eq
  authorize_route s now m h = rw h refl

  submit_route :
      (s : Serving) (now : ℤ) (m : JsonRpcRequest)
      → m.method ≡ mining_submit
      → handle lib out flows c s now m ≡ on_submit lib out flows c s (handle_submit lib m)
  unfolding handle bytes_eq
  submit_route s now m h = rw h refl

  four :
      (xs : List (List ℕ)) (a b d e : List ℕ)
      → (((xs ++ a ∷ []) ++ b ∷ []) ++ d ∷ []) ++ e ∷ [] ≡ xs ++ a ∷ b ∷ d ∷ e ∷ []
  four [] a b d e = refl
  four (x ∷ xs) a b d e = ap (λ ys. x ∷ ys) (four xs a b d e)

  pub all_sent :
      (s : Serving) (now : ℤ) (worker : WorkerConnection) (resp : JsonRpcResponse)
      (err : Option ErrorWrap)
      → ((n : ℕ) → flows n ≡ true)
      → on_authorize lib out flows c s now (some (worker, resp, err))
        ≡ go_on (record s {
          worker = worker;
          sent =
              (((s.sent ++ line (response resp) ∷ [])
                  ++ line (request (difficuly_json_message lib worker.initial_difficulty)) ∷ [])
                ++ line (request (job_json_message lib (first_job lib out flows c now) true)) ∷ [])
              ++ line (response resp) ∷ [];
          tries = suc (suc (suc (suc s.tries)));
        })
  unfolding on_authorize close_round
  all_sent s now worker resp err h =
      let s0 : Serving = record s { worker = worker } in
      rw (sends s0 (response resp) h, sends _ _ h, sends _ _ h, sends _ _ h) refl

  -- A worker whose lines can be sent gets, for a request to authorize that does not panic, whether it
  -- is authorized or not: the response, the difficulty, the job, and the response again; and the
  -- connection goes on.
  pub authorize_lines :
      (s : Serving) (now : ℤ) (m : JsonRpcRequest) (worker : WorkerConnection)
      (resp : JsonRpcResponse) (err : Option ErrorWrap)
      → ((n : ℕ) → flows n ≡ true)
      → m.method ≡ mining_authorize
      → handle_authorize lib s.worker m ≡ some (worker, resp, err)
      → (s' : Serving) × (handle lib out flows c s now m ≡ go_on s')
        × (s'.sent
            ≡ s.sent
              ++ line (response resp)
                ∷ line (request (difficuly_json_message lib worker.initial_difficulty))
                ∷ line (request (job_json_message lib (first_job lib out flows c now) true))
                ∷ line (response resp)
                ∷ [])
  authorize_lines s now m worker resp err flow method authorized = (
    _,
    authorize_route s now m method
        ∙ ap (on_authorize lib out flows c s now) authorized
        ∙ all_sent s now worker resp err flow,
    four s.sent _ _ _ _,
  )

  -- A submission is never answered: with five parameters it ends the process, and with fewer the
  -- connection; no line is sent.
  pub submit_lem :
      (s : Serving) (now : ℤ) (m : JsonRpcRequest)
      → m.method ≡ mining_submit
      → handle lib out flows c s now m
        ≡ (if leb 5 (length m.params) then crashed s else recovered s)
  submit_lem s now m method =
      submit_route s now m method
      ∙ ap (on_submit lib out flows c s) (submit_params lib m m.params)
      ∙ outcome lib out flows c s (leb 5 (length m.params))
