-- ===== src/Errors.antt =====
-- The errors of e/errors.go, which the other packages compare by identity, and AbortOn.
use stratumserver.Prelude.{ℕ, List, [], ◌∷◌, Option, none, some}

pub data Err : Type 0 where
  err_invalid_shard_id : Err
  err_invalid_configuration : Err
  err_invalid_block_header_bits : Err
  err_duplicated_block : Err
  err_no_bc_header : Err
  err_duplicated_response : Err

-- `Error()`
unfoldable pub text : Err → List ℕ
text err_invalid_shard_id =
    105 ∷ 110 ∷ 118 ∷ 97 ∷ 108 ∷ 105 ∷ 100 ∷ 32 ∷ 115 ∷ 104 ∷ 97 ∷ 114 ∷ 100 ∷ 32 ∷ 73 ∷ 68 ∷ []
text err_invalid_configuration =
    105 ∷ 110 ∷ 118 ∷ 97 ∷ 108 ∷ 105 ∷ 100 ∷ 32 ∷ 99 ∷ 111 ∷ 110 ∷ 102 ∷ 105 ∷ 103 ∷ 117 ∷ 114 ∷ 97
    ∷ 116 ∷ 105 ∷ 111 ∷ 110 ∷ []
text err_invalid_block_header_bits =
    105 ∷ 110 ∷ 118 ∷ 97 ∷ 108 ∷ 105 ∷ 100 ∷ 32 ∷ 98 ∷ 108 ∷ 111 ∷ 99 ∷ 107 ∷ 32 ∷ 104 ∷ 101 ∷ 97
    ∷ 100 ∷ 101 ∷ 114 ∷ 32 ∷ 98 ∷ 105 ∷ 116 ∷ 115 ∷ []
text err_duplicated_block =
    100 ∷ 117 ∷ 112 ∷ 108 ∷ 105 ∷ 99 ∷ 97 ∷ 116 ∷ 101 ∷ 100 ∷ 32 ∷ 98 ∷ 108 ∷ 111 ∷ 99 ∷ 107 ∷ []
text err_no_bc_header = 110 ∷ 111 ∷ 32 ∷ 66 ∷ 67 ∷ 32 ∷ 104 ∷ 101 ∷ 97 ∷ 100 ∷ 101 ∷ 114 ∷ []
text err_duplicated_response =
    100 ∷ 117 ∷ 112 ∷ 108 ∷ 105 ∷ 99 ∷ 97 ∷ 116 ∷ 101 ∷ 100 ∷ 32 ∷ 114 ∷ 101 ∷ 115 ∷ 112 ∷ 111 ∷ 110
    ∷ 115 ∷ 101 ∷ []

-- What a call leaves: the program goes on, or log.Fatal writes the text and exits with the status 1.
pub data Abort : Type 0 where
  goes_on : Abort
  exits : List ℕ → ℕ → Abort

unfoldable pub abort_on : Option (List ℕ) → Abort
abort_on none = goes_on
abort_on (some line) = exits line 1
