-- ===== src/Worker/Message/Lines.antt =====
-- The lines that HandleMessage of stratum/server/client.go sends for mining.authorize.
use stratumserver.Prelude.{
  subst, ◌∷◌, [], ◌++◌, List, none, some, ◌≡◌, refl, ap, ◌∙◌, true, ℕ, suc, Bool, List, ◌++◌,
  bytes_eq, some, none, Option, sym,
}
use stratumserver.Worker.Message.{
  Branch, Handled, handled, failed, unauthorized, next_job, send_or_fail, answer_authorize,
  handle_message, Library, ℤ, JsonRpcRequest, handle_authorize, WorkerConnection, JsonRpcResponse,
  ErrorWrap, difficuly_json_message, job_json_message,
}
use stratumserver.Worker.Loop.{
  Outside, Message, request, response, Serving, send_json_rpc, mining_authorize,
}

module _ (lib : Library) (out : Outside) (branch : Branch) (flows : ℕ → Bool) (c : ℕ) where
  abbrev line : Message → List ℕ
  line m = out.json m ++ 10 ∷ []

  abbrev sent_to : Serving → Message → Serving
  sent_to s m = record s { sent = s.sent ++ line m ∷ []; tries = suc s.tries }

  pub sends :
      (s : Serving) (m : Message) (rest : Serving → Handled)
      → ((n : ℕ) → flows n ≡ true)
      → send_or_fail lib out branch flows c s m rest ≡ rest (sent_to s m)
  unfolding send_or_fail send_json_rpc
  sends s m rest h = rw (h s.tries) refl

  route :
      (s : Serving) (now : ℤ) (m : JsonRpcRequest)
      → m.method ≡ mining_authorize
      → handle_message lib out branch flows c s now m
        ≡ answer_authorize lib out branch flows c s now (handle_authorize lib s.worker m)
  unfolding handle_message bytes_eq
  route s now m h = rw h refl

  three :
      (xs : List (List ℕ)) (a b d : List ℕ)
      → ((xs ++ a ∷ []) ++ b ∷ []) ++ d ∷ [] ≡ xs ++ a ∷ b ∷ d ∷ []
  three [] a b d = refl
  three (x ∷ xs) a b d = ap (λ ys. x ∷ ys) (three xs a b d)

  -- What became of a request, by the error of HandleAuthorize.
  pub IsAuthorized :
      Serving → ℤ → WorkerConnection → JsonRpcResponse → Option ErrorWrap → Handled → Type 0
  IsAuthorized s now worker resp none r =
      (t : Serving) × (r ≡ handled t)
      × (t.worker ≡ worker)
      × (t.sent
          ≡ s.sent
            ++ line (response resp)
              ∷ line (request (difficuly_json_message lib worker.initial_difficulty))
              ∷ line (request (job_json_message lib (next_job lib out branch flows c now) true))
              ∷ [])
  IsAuthorized s now worker resp (some e) r =
      r ≡ failed (record s { worker = worker }) (unauthorized e)

  IsAuthorized-lines :
      (s : Serving) (now : ℤ) (worker : WorkerConnection) (resp : JsonRpcResponse)
      (err : Option ErrorWrap)
      → ((n : ℕ) → flows n ≡ true)
      → IsAuthorized s now worker resp err
          (answer_authorize lib out branch flows c s now (some (worker, resp, err)))
  unfolding IsAuthorized answer_authorize
  IsAuthorized-lines s now worker resp none flow =
      (_, sends _ _ _ flow ∙ sends _ _ _ flow ∙ sends _ _ _ flow, refl, three s.sent _ _ _)
  IsAuthorized-lines s now worker resp (some e) flow = refl

  -- If every line can be sent and HandleAuthorize does not panic, then a worker that it authorizes gets
  -- the response, the difficulty and the job, each once and in this order, and HandleMessage returns
  -- nil; any other worker gets no line at all, not even the response that was made for it, and
  -- HandleMessage returns the error.
  pub message_authorize :
      (s : Serving) (now : ℤ) (m : JsonRpcRequest) (worker : WorkerConnection)
      (resp : JsonRpcResponse) (err : Option ErrorWrap)
      → ((n : ℕ) → flows n ≡ true)
      → m.method ≡ mining_authorize
      → handle_authorize lib s.worker m ≡ some (worker, resp, err)
      → IsAuthorized s now worker resp err (handle_message lib out branch flows c s now m)
  message_authorize s now m worker resp err flow method authorized =
      subst (IsAuthorized s now worker resp err)
        (sym (route s now m method ∙ ap (answer_authorize lib out branch flows c s now) authorized))
        (IsAuthorized-lines s now worker resp err flow)
