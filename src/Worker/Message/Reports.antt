-- ===== src/Worker/Message/Reports.antt =====
-- What HandleMessage of stratum/server/client.go tells of its sends.
use stratumserver.Prelude.{
  ℕ, suc, ◌+◌, ◌≡◌, refl, Bool, [], ◌∷◌, ◌++◌, length, length-append, Option, none, some, arith,
  Bool-cases, inl, inr, bytes_eq,
}
use stratumserver.Prelude.Int.{ℤ}
use stratumserver.Worker.{JsonRpcRequest, JsonRpcResponse, WorkerConnection, Library}
use stratumserver.Worker.Codes.{ErrorWrap}
use stratumserver.Worker.Loop.{
  Outside, Message, Serving, send_json_rpc, mining_authorize, mining_subscribe, mining_submit,
}
use stratumserver.Worker.Message.{
  Handled, handled, failed, panicked, unauthorized, not_sent, Branch, send_or_fail,
  answer_authorize, answer_submit, handle_message, subscribe,
}

-- Every line that was tried was sent.
abbrev SentAll : Serving → Serving → Type 0
SentAll s t = length t.sent + s.tries ≡ length s.sent + t.tries

-- What the result says of the sends: all went out, or all but the last.
pub IsReported : Serving → Handled → Type 0
IsReported s (handled t) = SentAll s t
IsReported s (failed t (unauthorized e)) = SentAll s t
IsReported s (failed t not_sent) = length t.sent + s.tries + 1 ≡ length s.sent + t.tries
IsReported s (panicked t) = SentAll s t

module _ (lib : Library) (out : Outside) (branch : Branch) (flows : ℕ → Bool) (c : ℕ) where
  shift : (s t : Serving) (h : Handled) → SentAll s t → IsReported t h → IsReported s h
  unfolding IsReported
  shift s t (handled u) p q = omega arith
  shift s t (failed u not_sent) p q = omega arith
  shift s t (failed u (unauthorized e)) p q = omega arith
  shift s t (panicked u) p q = omega arith

  send-IsReported :
      (s : Serving) (m : Message) (rest : Serving → Handled)
      → ((t : Serving) → IsReported t (rest t))
      → IsReported s (send_or_fail lib out branch flows c s m rest)
  unfolding send_or_fail send_json_rpc IsReported
  send-IsReported s m rest h = elim (Bool-cases (flows s.tries)) [
    | inl ok ↦ rw ok (
        shift s (record s { sent = s.sent ++ (out.json m ++ 10 ∷ []) ∷ []; tries = suc s.tries })
          (rest _) (omega (arith, length-append s.sent ((out.json m ++ 10 ∷ []) ∷ []))) (h _))
    | inr bad ↦ rw bad (omega arith)
  ]

  handled-IsReported : (s : Serving) → IsReported s (handled s)
  unfolding IsReported
  handled-IsReported s = refl

  subscribe-IsReported : (s : Serving) → IsReported s (subscribe lib out branch flows c s)
  unfolding IsReported
  subscribe-IsReported s = refl

  panicked-IsReported : (s : Serving) → IsReported s (panicked s)
  unfolding IsReported
  panicked-IsReported s = refl

  answer_authorize-IsReported :
      (s : Serving) (now : ℤ) (r : Option (WorkerConnection × JsonRpcResponse × Option ErrorWrap))
      → IsReported s (answer_authorize lib out branch flows c s now r)
  unfolding IsReported answer_authorize
  answer_authorize-IsReported s now none = refl
  answer_authorize-IsReported s now (some (worker, resp, some e)) = refl
  answer_authorize-IsReported s now (some (worker, resp, none)) =
      shift s (record s { worker = worker }) _ refl
        (send-IsReported _ _ _
          λ t. send-IsReported _ _ _ λ u. send-IsReported _ _ _ handled-IsReported)

  answer_submit-IsReported :
      (s : Serving) (r : Option (Option JsonRpcResponse))
      → IsReported s (answer_submit lib out branch flows c s r)
  unfolding answer_submit
  answer_submit-IsReported s none = panicked-IsReported s
  answer_submit-IsReported s (some r) = send-IsReported s _ _ handled-IsReported

  -- Whatever the request, HandleMessage reports a send that fails: if it returns nil, panics or returns
  -- the error of HandleAuthorize, then every line it tried to send was sent; if it returns the error of
  -- SendJsonRPC then the last line it tried is the only one that was not sent.
  pub handle_message-IsReported :
      (s : Serving) (now : ℤ) (m : JsonRpcRequest)
      → IsReported s (handle_message lib out branch flows c s now m)
  unfolding handle_message
  handle_message-IsReported s now m = elim (Bool-cases (bytes_eq m.method mining_subscribe)) [
    | inl a ↦ rw a (send-IsReported s _ _ subscribe-IsReported)
    | inr a ↦ rw a elim (Bool-cases (bytes_eq m.method mining_authorize)) [
      | inl b ↦ rw b (answer_authorize-IsReported s now _)
      | inr b ↦ rw b elim (Bool-cases (bytes_eq m.method mining_submit)) [
        | inl d ↦ rw d (answer_submit-IsReported s _)
        | inr d ↦ rw d (handled-IsReported s)
      ]
    ]
  ]
