-- ===== src/Utils/Random.antt =====
-- RandHexUint64 of stratum/server/utils/coinbase.go. What math/rand's Read fills in is a parameter; it
-- gives no error.
use stratumserver.Prelude.{
  ℕ, ◌≡◌, ap, ◌∙◌, true, List, replicate, overwrite, length, All, IsByte, overwrite_full, sym,
}
use stratumserver.Prelude.Hex.{encode_to_string, decode_string, decode_string-encode_to_string}

unfoldable pub rand_hex_uint64 : List ℕ → List ℕ
rand_hex_uint64 read = encode_to_string (overwrite (replicate 8 0) read)

-- The text decodes to the eight bytes that were read.
pub decode_string-rand_hex_uint64 :
    (read : List ℕ)
    → length read ≡ 8
    → All IsByte read
    → decode_string (rand_hex_uint64 read) ≡ (read, true)
unfolding rand_hex_uint64
decode_string-rand_hex_uint64 read l h =
    ap (λ b. decode_string (encode_to_string b)) (overwrite_full (replicate 8 0) read (sym l))
    ∙ decode_string-encode_to_string read h
