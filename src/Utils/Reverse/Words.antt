-- ===== src/Utils/Reverse/Words.antt =====
-- ReverseByteOrder on hashes: the order of the 4-byte words is reversed, the bytes in a word stay.
use mathlib.Core.List.{reverse-append}
use stratumserver.Prelude.{
  ℕ, zero, suc, ◌+◌, ◌*◌, ◌≤◌, ◌≡◌, refl, sym, ap, ◌∙◌, List, [], ◌∷◌, ◌++◌, append_assoc, reverse,
  length, length-append, drop, some, arith, le_bytes, of_le_bytes, write_at, IsByte, All,
}
use stratumserver.Utils.Reverse.{swap_word, swap_words, reverse_byte_order}
use stratumserver.Utils.Reverse.Swap.{reverse_bytes-reverse}

-- The words of four bytes in the opposite order; bytes that fill no word are dropped.
unfoldable pub reverse_words : List ℕ → List ℕ
reverse_words (a ∷ b ∷ c ∷ d ∷ rest) = reverse_words rest ++ a ∷ b ∷ c ∷ d ∷ []
reverse_words _ = []

-- The bytes of each word in the opposite order.
swap_all : ℕ → List ℕ → List ℕ
swap_all (suc n) (a ∷ b ∷ c ∷ d ∷ rest) = d ∷ c ∷ b ∷ a ∷ swap_all n rest
swap_all _ bs = bs

word_swap :
    (a b c d : ℕ)
    → All IsByte (a ∷ b ∷ c ∷ d ∷ [])
    → le_bytes 4 (of_le_bytes (d ∷ c ∷ b ∷ a ∷ [])) ≡ d ∷ c ∷ b ∷ a ∷ []
unfolding le_bytes of_le_bytes
word_swap a b c d h = ground arith

drop-pre : (pre xs : List ℕ) → drop (length pre) (pre ++ xs) ≡ xs
drop-pre [] xs = refl
drop-pre (p ∷ pre) xs = drop-pre pre xs

write_word :
    (pre rest : List ℕ) (a b c d w x y z : ℕ)
    → write_at (length pre) (pre ++ a ∷ b ∷ c ∷ d ∷ rest) (w ∷ x ∷ y ∷ z ∷ [])
      ≡ pre ++ w ∷ x ∷ y ∷ z ∷ rest
unfolding write_at
write_word [] [] a b c d w x y z = refl
write_word [] (r ∷ rest) a b c d w x y z = refl
write_word (p ∷ pre) rest a b c d w x y z = ap (λ t. p ∷ t) (write_word pre rest a b c d w x y z)

swap_word_lem :
    (i : ℕ) (pre rest : List ℕ) (a b c d : ℕ)
    → length pre ≡ i * 4
    → All IsByte (a ∷ b ∷ c ∷ d ∷ [])
    → swap_word i (pre ++ a ∷ b ∷ c ∷ d ∷ rest) ≡ some (pre ++ d ∷ c ∷ b ∷ a ∷ rest)
unfolding swap_word
swap_word_lem i pre rest a b c d e h =
    rw (← e, drop-pre pre (a ∷ b ∷ c ∷ d ∷ rest), word_swap a b c d h)
      (ap some (write_word pre rest a b c d d c b a))

swap_words_lem :
    (n i : ℕ) (pre bs : List ℕ)
    → length pre ≡ i * 4
    → n * 4 ≤ length bs
    → All IsByte bs
    → swap_words n i (pre ++ bs) ≡ some (pre ++ swap_all n bs)
unfolding swap_words swap_all
swap_words_lem zero i pre bs e l h = refl
swap_words_lem (suc n) i pre [] e l h = absurd (omega arith)
swap_words_lem (suc n) i pre (a ∷ []) e l h = absurd (omega arith)
swap_words_lem (suc n) i pre (a ∷ b ∷ []) e l h = absurd (omega arith)
swap_words_lem (suc n) i pre (a ∷ b ∷ c ∷ []) e l h = absurd (omega arith)
swap_words_lem (suc n) i pre (a ∷ b ∷ c ∷ d ∷ rest) e l h =
    rw (swap_word_lem i pre rest a b c d e (h.0, (h.1.0, (h.1.1.0, (h.1.1.1.0, tt))))) (
      ap (swap_words n (i + 1)) (sym (append_assoc pre (d ∷ c ∷ b ∷ a ∷ []) rest))
      ∙ swap_words_lem n (i + 1) (pre ++ d ∷ c ∷ b ∷ a ∷ []) rest
          (omega (arith, length-append pre (d ∷ c ∷ b ∷ a ∷ []))) (omega arith) h.1.1.1.1
      ∙ ap some (append_assoc pre (d ∷ c ∷ b ∷ a ∷ []) (swap_all n rest)))

reverse-swap_all :
    (n : ℕ) (bs : List ℕ) → length bs ≡ n * 4 → reverse (swap_all n bs) ≡ reverse_words bs
unfolding swap_all reverse_words
reverse-swap_all zero [] l = refl
reverse-swap_all zero (a ∷ bs) l = absurd (omega arith)
reverse-swap_all (suc n) [] l = absurd (omega arith)
reverse-swap_all (suc n) (a ∷ []) l = absurd (omega arith)
reverse-swap_all (suc n) (a ∷ b ∷ []) l = absurd (omega arith)
reverse-swap_all (suc n) (a ∷ b ∷ c ∷ []) l = absurd (omega arith)
reverse-swap_all (suc n) (a ∷ b ∷ c ∷ d ∷ rest) l =
    reverse-append (d ∷ c ∷ b ∷ a ∷ []) (swap_all n rest)
    ∙ ap (λ t. t ++ a ∷ b ∷ c ∷ d ∷ []) (reverse-swap_all n rest (omega arith))

-- On the 32 bytes of a hash, ReverseByteOrder does not panic and returns the eight 4-byte words in
-- the opposite order, each with its bytes in the order that they had.
pub reverse_byte_order-reverse_words :
    (b : List ℕ) → length b ≡ 32 → All IsByte b → reverse_byte_order b ≡ some (reverse_words b)
unfolding reverse_byte_order
reverse_byte_order-reverse_words b l h =
    rw (swap_words_lem 8 0 [] b refl (omega arith) h, reverse_bytes-reverse (swap_all 8 b))
      (ap some (reverse-swap_all 8 b l))
