-- ===== src/Worker/Marshal.antt =====
-- The use of encoding/json in stratum/server/jsonrpc.go: what becomes of its errors. Marshal and
-- Unmarshal are parameters; an error is a number.
use stratumserver.Prelude.{
  ℕ, suc, ◌≡◌, refl, ap, ◌∙◌, true, Bool, List, [], ◌∷◌, ◌++◌, Option, ◌⊎◌, inl, inr,
}
use stratumserver.Worker.{Library}
use stratumserver.Worker.Loop.{Outside, Message, Serving, send_json_rpc}

-- What Marshal returns: the text, or nil with an error.
abbrev or_nil : List ℕ ⊎ ℕ → List ℕ
or_nil (inl raw) = raw
or_nil (inr err) = []

-- Json of a request and of a response, `raw, _ := json.Marshal(j)`.
unfoldable pub json {ℓ} : {A : Type ℓ} → (A → List ℕ ⊎ ℕ) → A → List ℕ
json marshal j = or_nil (marshal j)

-- Jsonify logs the error.
unfoldable pub jsonify {ℓ} : {A : Type ℓ} → (A → List ℕ ⊎ ℕ) → A → List ℕ
jsonify marshal i = or_nil (marshal i)

-- RawJsonToString, with what Unmarshal leaves in a string that is empty before; the error is logged.
unfoldable pub raw_json_to_string : (List ℕ → List ℕ × Option ℕ) → List ℕ → List ℕ
raw_json_to_string unmarshal raw = (unmarshal raw).0

-- The line of a message, by what Marshal gives for it.
pub line_of : List ℕ ⊎ ℕ → List ℕ
line_of (inl raw) = raw ++ 10 ∷ []
line_of (inr err) = 10 ∷ []

or_nil_line : (r : List ℕ ⊎ ℕ) → or_nil r ++ 10 ∷ [] ≡ line_of r
unfolding line_of
or_nil_line (inl raw) = refl
or_nil_line (inr err) = refl

-- A message that cannot be marshalled is sent all the same, as an empty line, and SendJsonRPC reports
-- no error if the line goes out; any other message is sent as its text and the end of the line.
pub send_json_rpc-json :
    (lib : Library) (out : Outside) (flows : ℕ → Bool) (c : ℕ) (marshal : Message → List ℕ ⊎ ℕ)
    (s : Serving) (m : Message)
    → out.json ≡ json marshal
    → flows s.tries ≡ true
    → send_json_rpc lib out flows c s m
      ≡ (record s { sent = s.sent ++ line_of (marshal m) ∷ []; tries = suc s.tries }, true)
unfolding send_json_rpc json
send_json_rpc-json lib out flows c marshal s m e f =
    let line : out.json m ++ 10 ∷ [] ≡ line_of (marshal m) =
      ap (λ j. j m ++ 10 ∷ []) e ∙ or_nil_line (marshal m) in
    rw (f, line) refl
