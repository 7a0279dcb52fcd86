-- ===== src/Prelude/Hex.antt =====
-- `encoding/hex` of Go's standard library, on texts as lists of bytes.
use Prim.Native.Nat.{ℕ, ◌+◌, ◌-◌, ◌*◌, ◌/◌, ◌%◌, ◌<◌}
use mathlib.Core.Path.{◌≡◌, refl}
use mathlib.Core.Bool.{Bool, true, false, ◌&&◌}
use mathlib.Core.Option.{Option, none, some}
use mathlib.Core.List.{List, [], ◌∷◌}
use native.Mathlib.Omega.{arith}
use stratumserver.Prelude.Tests.{ltb, leb, if◌then◌else◌}
use stratumserver.Prelude.Bytes.{IsByte, All}

-- The digits `0` … `9`, `a` … `f`.
pub hex_digit : ℕ → ℕ
hex_digit n = if ltb n 10 then 48 + n else 87 + n

unfoldable pub encode_to_string : List ℕ → List ℕ
unfolding hex_digit
encode_to_string [] = []
encode_to_string (b ∷ bs) = hex_digit (b / 16) ∷ hex_digit (b % 16) ∷ encode_to_string bs

-- Either case is read.
pub from_hex_char : ℕ → Option ℕ
from_hex_char c =
    if leb 48 c && leb c 57
    then some (c - 48)
    else if leb 97 c && leb c 102
    then some (c - 87)
    else if leb 65 c && leb c 70
    then some (c - 55)
    else none

pub decode_pair : Option ℕ → Option ℕ → List ℕ × Bool → List ℕ × Bool
decode_pair (some a) (some b) rest = ((a * 16 + b) ∷ rest.0, rest.1)
decode_pair _ _ rest = ([], false)

-- The bytes before the first fault, and whether there was none.
unfoldable pub decode_string : List ℕ → List ℕ × Bool
unfolding decode_pair from_hex_char
decode_string [] = ([], true)
decode_string (c ∷ []) = ([], false)
decode_string (c ∷ d ∷ s) = decode_pair (from_hex_char c) (from_hex_char d) (decode_string s)

digit_lem : (n : ℕ) → n < 16 → from_hex_char (hex_digit n) ≡ some n
unfolding from_hex_char hex_digit
digit_lem n h = ground arith

pub decode_string-encode_to_string :
    (b : List ℕ) → All IsByte b → decode_string (encode_to_string b) ≡ (b, true)
unfolding decode_string encode_to_string
decode_string-encode_to_string [] h = refl
decode_string-encode_to_string (b ∷ bs) h =
    ground (arith, digit_lem (b / 16), digit_lem (b % 16), decode_string-encode_to_string bs h.1)
