-- ===== src/Utils/Reverse.antt =====
-- ReverseBytes and ReverseByteOrder of stratum/server/utils/coinbase.go. A slice of bytes is a list
-- of numbers; `none` is a panic of Go (an index or a slice bound out of range).
pub mod Swap
pub mod Words
use stratumserver.Prelude.{
  ℕ, zero, suc, ◌+◌, ◌-◌, ◌*◌, List, Option, none, some, reverse, length, get_or, set, take, drop,
  ltb, ◌==◌, if◌then◌else◌, ◌>>=◌, le_bytes, of_le_bytes, write_at,
}

-- `_b[i], _b[j] = _b[j], _b[i]`: both sides are read before either is written.
abbrev pub swap : List ℕ → ℕ → ℕ → List ℕ
swap b i j = set (set b i (get_or b j 0)) j (get_or b i 0)

-- `for i < j`, with fuel. On an empty slice Go's `j` is -1 and here 0: neither is above `i`.
pub swap_loop : ℕ → ℕ → ℕ → List ℕ → List ℕ
swap_loop zero i j b = b
swap_loop (suc fuel) i j b =
    let rest = swap_loop fuel (i + 1) (j - 1) (swap b i j) in if ltb i j then rest else b

-- The copy makes the loop work on a slice of its own, so the argument stays as it was.
pub reverse_bytes : List ℕ → List ℕ
reverse_bytes b = swap_loop (length b) 0 (length b - 1) b

-- `binary.LittleEndian.PutUint32(_b[i*4:], binary.BigEndian.Uint32(_b[i*4:]))`.
pub swap_word : ℕ → List ℕ → Option (List ℕ)
swap_word i b =
    let word = take 4 (drop (i * 4) b) in
    if length word == 4
    then some (write_at (i * 4) b (le_bytes 4 (of_le_bytes (reverse word))))
    else none

-- The rounds `i`, `i + 1`, … of the loop.
pub swap_words : ℕ → ℕ → List ℕ → Option (List ℕ)
swap_words zero i b = some b
swap_words (suc n) i b = do b' ← swap_word i b; swap_words n (i + 1) b'

pub reverse_byte_order : List ℕ → Option (List ℕ)
reverse_byte_order b = do b' ← swap_words 8 0 b; some (reverse_bytes b')
