-- ===== src/Worker/Twins.antt =====
-- conn.serve of stratum/server/conn.go, which handles a request itself, against HandleMessage of
-- stratum/server/client.go, which does so for the same methods.
use stratumserver.Prelude.{
  ℕ, suc, ◌≡◌, ◌≢◌, refl, sym, ap, ◌∙◌, Bool, true, false, List, [], ◌∷◌, ◌++◌, append-nil, Option,
  none, some, if◌then◌else◌, bytes_eq, Bool-cases, inl, inr, bytes_eq_iff,
}
use stratumserver.Prelude.Int.{ℤ}
use stratumserver.Worker.{
  Library, JsonRpcRequest, JsonRpcResponse, WorkerConnection, handle_authorize, handle_subscribe,
  difficuly_json_message, job_json_message,
}
use stratumserver.Worker.Codes.{ErrorWrap}
use stratumserver.Worker.Loop.{
  Outside, Message, request, response, Serving, Turn, go_on, first_job, handle, close_round,
  on_authorize, mining_authorize, mining_subscribe, mining_submit,
}
use stratumserver.Worker.Loop.Answers.{all_sent, sends}
use stratumserver.Worker.Message.{
  Branch, Handled, handled, failed, branch_strings, next_job, send_or_fail, answer_authorize,
  handle_message, subscribe, unauthorized,
}
use stratumserver.Worker.Message.Lines

handled_inj : {u v : Serving} → handled u ≡ handled v → u ≡ v
handled_inj e = cc

not_failed : {u v : Serving} {w : ErrorWrap} → failed u (unauthorized w) ≢ handled v
not_failed e = cc

module _ (lib : Library) (out : Outside) (branch : Branch) (flows : ℕ → Bool) (c : ℕ) where
  abbrev line : Message → List ℕ
  line m = out.json m ++ 10 ∷ []

  again : Option (WorkerConnection × JsonRpcResponse × Option ErrorWrap) → List (List ℕ)
  again none = []
  again (some (worker, resp, e)) = line (response resp) ∷ []

  -- The lines that serve sends for a request after those of HandleMessage.
  pub repeated : Serving → JsonRpcRequest → List (List ℕ)
  repeated s m =
      if bytes_eq m.method mining_authorize then again (handle_authorize lib s.worker m) else []

  same_job :
      (now : ℤ)
      → branch_strings branch.hash_string branch.merkle_path ≡ []
      → next_job lib out branch flows c now ≡ first_job lib out flows c now
  unfolding next_job first_job
  same_job now h = rw h refl

  abbrev Twins : Serving → Serving → JsonRpcRequest → Handled → Turn → Type 0
  Twins u s m h t =
      h ≡ handled u → (v : Serving) × (t ≡ go_on v) × (v.sent ≡ u.sent ++ repeated s m)

  authorize_twins :
      (u s : Serving) (now : ℤ) (r : Option (WorkerConnection × JsonRpcResponse × Option ErrorWrap))
      → ((n : ℕ) → flows n ≡ true)
      → branch_strings branch.hash_string branch.merkle_path ≡ []
      → answer_authorize lib out branch flows c s now r ≡ handled u
      → (v : Serving) × (on_authorize lib out flows c s now r ≡ go_on v)
        × (v.sent ≡ u.sent ++ again r)
  unfolding answer_authorize again
  authorize_twins u s now none flow nil e = cc
  authorize_twins u s now (some (worker, resp, some w)) flow nil e = absurd (not_failed e)
  authorize_twins u s now (some (worker, resp, none)) flow nil e =
      let three =
        Lines.sends lib out branch flows c (record s { worker = worker }) (response resp) _ flow
        ∙ Lines.sends lib out branch flows c _ _ _ flow
        ∙ Lines.sends lib out branch flows c _ _ _ flow in
      (
        _,
        all_sent lib out flows c s now worker resp none flow,
        ap
              (λ job.
                (((s.sent ++ line (response resp) ∷ [])
                    ++ line (request (difficuly_json_message lib worker.initial_difficulty)) ∷ [])
                  ++ line (request (job_json_message lib job true)) ∷ [])
                ++ line (response resp) ∷ [])
              (sym (same_job now nil))
            ∙ ap (λ w. w.sent ++ line (response resp) ∷ []) (handled_inj (sym three ∙ e)),
      )

  subscribe_twins :
      (u s : Serving) (m : JsonRpcRequest)
      → ((n : ℕ) → flows n ≡ true)
      → send_or_fail lib out branch flows c s
          (response (handle_subscribe lib s.worker m))
          (subscribe lib out branch flows c)
        ≡ handled u
      → (v : Serving) × (close_round lib out flows c s true (handle_subscribe lib s.worker m)
          ≡ go_on v)
        × (v.sent ≡ u.sent ++ [])
  unfolding close_round
  subscribe_twins u s m flow e =
      let line_sent =
        Lines.sends lib out branch flows c s (response (handle_subscribe lib s.worker m))
          (subscribe lib out branch flows c) flow in
      (
        record s {
          sent = s.sent ++ line (response (handle_subscribe lib s.worker m)) ∷ [];
          tries = suc s.tries;
        },
        rw (sends lib out flows c s (response (handle_subscribe lib s.worker m)) flow) refl,
        ap (λ w. w.sent) (handled_inj (sym line_sent ∙ e)) ∙ sym (append-nil u.sent),
      )

  not_submit :
      (u s : Serving) (now : ℤ) (m : JsonRpcRequest)
      → bytes_eq m.method mining_subscribe ≡ false
      → bytes_eq m.method mining_authorize ≡ false
      → bytes_eq m.method mining_submit ≡ false
      → handle_message lib out branch flows c s now m ≡ handled u
      → (v : Serving) × (handle lib out flows c s now m ≡ go_on v)
        × (v.sent ≡ u.sent ++ repeated s m)
  unfolding handle_message handle repeated
  not_submit u s now m a b d e =
      let unknown : handle_message lib out branch flows c s now m ≡ handled s = rw (a, b, d) refl in
      (
        s,
        rw (a, b, d) refl,
        rw b (ap (λ w. w.sent) (handled_inj (sym unknown ∙ e)) ∙ sym (append-nil u.sent)),
      )

  is_not : {x y : List ℕ} → x ≢ y → bytes_eq x y ≡ false
  is_not {x} {y} h = elim (Bool-cases (bytes_eq x y)) [
    | inl same ↦ absurd (h ((bytes_eq_iff x y).0 same))
    | inr other ↦ other
  ]

  subscribe_first : bytes_eq mining_subscribe mining_authorize ≡ false
  unfolding bytes_eq
  subscribe_first = refl

  -- If every line can be sent and the merkle branch of HandleMessage is empty, as that of serve is, then
  -- for any request but a submission that HandleMessage handles without an error serve goes on too: it
  -- has sent the lines that HandleMessage has, and after them, for a worker that it authorized, the
  -- response once more.
  pub handle-handle_message :
      (u s : Serving) (now : ℤ) (m : JsonRpcRequest)
      → ((n : ℕ) → flows n ≡ true)
      → branch_strings branch.hash_string branch.merkle_path ≡ []
      → m.method ≢ mining_submit
      → handle_message lib out branch flows c s now m ≡ handled u
      → (v : Serving) × (handle lib out flows c s now m ≡ go_on v)
        × (v.sent ≡ u.sent ++ repeated s m)
  unfolding handle_message handle repeated
  handle-handle_message u s now m flow nil other e =
      elim (Bool-cases (bytes_eq m.method mining_subscribe)) [
        | inl a ↦
            let method = (bytes_eq_iff m.method mining_subscribe).0 a in
            let b : bytes_eq m.method mining_authorize ≡ false =
              ap (λ x. bytes_eq x mining_authorize) method ∙ subscribe_first in
            let run : send_or_fail lib out branch flows c s
                  (response (handle_subscribe lib s.worker m)) (subscribe lib out branch flows c)
                ≡ handled u =
              rw a at e in
            rw (a, b) (subscribe_twins u s m flow run)
        | inr a ↦ elim (Bool-cases (bytes_eq m.method mining_authorize)) [
          | inl b ↦
              let d = is_not other in
              let run : answer_authorize lib out branch flows c s now
                    (handle_authorize lib s.worker m)
                  ≡ handled u =
                rw (a, b) at e in
              rw (a, b, d) (authorize_twins u s now (handle_authorize lib s.worker m) flow nil run)
          | inr b ↦ not_submit u s now m a b (is_not other) e
        ]
      ]
