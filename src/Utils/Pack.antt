-- ===== src/Utils/Pack.antt =====
-- The serialisers of stratum/server/utils/coinbase.go. A Go string is the list of its bytes; a
-- conversion `uint16(n)` is `n % 2 ^ 16`, and so for the other widths.
pub mod CompactSize
pub mod ScriptNumber
use stratumserver.Prelude.{
  ℕ, zero, suc, ◌+◌, ◌*◌, ◌/◌, ◌%◌, ◌^◌, List, [], ◌∷◌, ◌++◌, Option, none, some, reverse, length,
  set, take, replicate, ltb, leb, ◌&&◌, if◌then◌else◌, ◌>>=◌, le_bytes, overwrite, write_at,
}

unfoldable pub pack_uint32_be : ℕ → List ℕ
pack_uint32_be n = overwrite (replicate 4 0) (reverse (le_bytes 4 n))

-- The argument is the bit pattern `uint32(n)` of the int32.
unfoldable pub pack_int32_be : ℕ → List ℕ
pack_int32_be n = overwrite (replicate 4 0) (reverse (le_bytes 4 n))

unfoldable pub pack_uint16_le : ℕ → List ℕ
pack_uint16_le n = overwrite (replicate 2 0) (le_bytes 2 n)

unfoldable pub pack_uint32_le : ℕ → List ℕ
pack_uint32_le n = overwrite (replicate 4 0) (le_bytes 4 n)

unfoldable pub pack_uint64_le : ℕ → List ℕ
pack_uint64_le n = overwrite (replicate 8 0) (le_bytes 8 n)

unfoldable pub serialize_string : List ℕ → List ℕ
unfolding pack_uint16_le pack_uint32_le pack_uint64_le overwrite
serialize_string s =
    if ltb (length s) 253
    then (length s % 256) ∷ s
    else if ltb (length s) 0x10000
    then (253 ∷ []) ++ (pack_uint16_le (length s % 2 ^ 16) ++ s)
    else if ltb (length s) 0x100000000
    then (254 ∷ []) ++ (pack_uint32_le (length s % 2 ^ 32) ++ s)
    else (255 ∷ []) ++ (pack_uint64_le (length s % 2 ^ 64) ++ s)

unfoldable pub var_int_bytes : ℕ → List ℕ
unfolding write_at
var_int_bytes n =
    if ltb n 0xfd
    then (n % 256) ∷ []
    else if leb n 0xffff
    then write_at 1 (set (replicate 3 0) 0 0xfd) (le_bytes 2 (n % 2 ^ 16))
    else if leb n 0xffffffff
    then write_at 1 (set (replicate 5 0) 0 0xfe) (le_bytes 4 (n % 2 ^ 32))
    else write_at 1 (set (replicate 9 0) 0 0xff) (le_bytes 8 n)

-- An assignment `buff[i] = v`; `none` is the panic of an index out of range.
abbrev pub put : List ℕ → ℕ → ℕ → Option (List ℕ)
put buff i v = if ltb i (length buff) then some (set buff i v) else none

-- `for n > 0x7f`, with `byte(n & 0xff)` as `n % 256` and `n >>= 8` as `n / 256`. The buffer has nine
-- bytes, so a tenth round would panic before the fuel runs out.
pub number_loop : ℕ → ℕ → ℕ → List ℕ → Option (ℕ × ℕ × List ℕ)
number_loop zero l n buff = none
number_loop (suc fuel) l n buff =
    let round = (do buff' ← put buff l (n % 256); number_loop fuel (l + 1) (n / 256) buff') in
    if ltb 0x7f n then round else some (l, n, buff)

-- What follows the loop.
pub number_close : ℕ → ℕ → List ℕ → Option (List ℕ)
number_close l n buff = do
  counted ← put buff 0 (l % 256)
  filled ← put counted l (n % 256)
  some (take (l + 1) filled)

pub serialize_number : ℕ → Option (List ℕ)
serialize_number n =
    if leb 1 n && leb n 16
    then some ((0x50 + n % 256) ∷ [])
    else do (l, m, buff) ← number_loop 10 1 n (replicate 9 0); number_close l m buff
