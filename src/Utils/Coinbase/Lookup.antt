-- ===== src/Utils/Coinbase/Lookup.antt =====
-- StringsIndexOf and Uint256BytesFromHash.
use mathlib.Core.Bool.{false≢true}
use mathlib.Core.Option.{some-injective}
use stratumserver.Prelude.{
  ℕ, zero, suc, ◌+◌, ◌<◌, ◌≡◌, refl, sym, ap, ◌∙◌, ◌≢◌, ◌⊎◌, inl, inr, List, [], ◌∷◌, reverse, some,
  false, arith, length, get_elem?, replicate, bytes_eq, bytes_eq_iff, Bool-cases, overwrite,
  overwrite_full, IsByte, All,
}
use stratumserver.Prelude.Int.{ℤ, pos, negsuc}
use stratumserver.Prelude.Hex.{encode_to_string, decode_string-encode_to_string}
use stratumserver.Utils.Reverse.Swap.{reverse_bytes-reverse}
use stratumserver.Utils.Coinbase.{index_from, strings_index_of, uint256_bytes_from_hash}

-- The first place of `element`, or that it has none.
abbrev pub IsIndex : ℕ → List (List ℕ) → List ℕ → ℤ → Type 0
IsIndex k xs element r =
    ((r ≡ negsuc 0) × ((j : ℕ) → get_elem? xs j ≢ some element))
    ⊎ ((i : ℕ) × (r ≡ pos (k + i))
        × (get_elem? xs i ≡ some element)
        × ((j : ℕ) → j < i → get_elem? xs j ≢ some element))

missed : (element v : List ℕ) → bytes_eq element v ≡ false → v ≢ element
missed element v miss e = false≢true (sym miss ∙ (bytes_eq_iff element v).1 (sym e))

none_after :
    (xs : List (List ℕ)) (element v : List ℕ) (n : ℕ)
    → v ≢ element
    → ((j : ℕ) → j < n → get_elem? xs j ≢ some element)
    → (j : ℕ) → j < suc n
    → get_elem? (v ∷ xs) j ≢ some element
none_after xs element v n ne h zero lt e = ne (some-injective v element e)
none_after xs element v n ne h (suc j) lt e = h j (omega arith) e

IsIndex-cons :
    (k : ℕ) (xs : List (List ℕ)) (element v : List ℕ) (r : ℤ)
    → v ≢ element
    → IsIndex (suc k) xs element r
    → IsIndex k (v ∷ xs) element r
IsIndex-cons k xs element v r ne (inl (e, h)) =
    inl (e, λ j. none_after xs element v j ne (λ i lt. h i) j (omega arith))
IsIndex-cons k xs element v r ne (inr (i, e, found, h)) =
    inr (suc i, e ∙ ap pos (omega arith), found, none_after xs element v i ne h)

index_from-IsIndex :
    (k : ℕ) (xs : List (List ℕ)) (element : List ℕ) → IsIndex k xs element (index_from k xs element)
unfolding index_from
index_from-IsIndex k [] element = inl (refl, λ j e. cc)
index_from-IsIndex k (v ∷ xs) element = elim (Bool-cases (bytes_eq element v)) [
  | inl hit ↦ rw hit (
      inr (
        0,
        ap pos (omega arith),
        ap some (sym ((bytes_eq_iff element v).0 hit)),
        λ j lt e. absurd (omega arith),
      ))
  | inr miss ↦ rw miss (
      IsIndex-cons k xs element v _ (missed element v miss) (index_from-IsIndex (suc k) xs element))
]

-- StringsIndexOf returns the index of the first string that equals the element, and -1 exactly if
-- there is none.
pub strings_index_of-IsIndex :
    (xs : List (List ℕ)) (element : List ℕ) → IsIndex 0 xs element (strings_index_of xs element)
unfolding strings_index_of
strings_index_of-IsIndex xs element = index_from-IsIndex 0 xs element

-- Uint256BytesFromHash of the hex text of 32 bytes is these bytes in the opposite order.
pub uint256_bytes_from_hash_lem :
    (b : List ℕ)
    → length b ≡ 32
    → All IsByte b
    → uint256_bytes_from_hash (encode_to_string b) ≡ reverse b
unfolding uint256_bytes_from_hash
uint256_bytes_from_hash_lem b l h =
    reverse_bytes-reverse _
    ∙ ap reverse (
        ap (λ t. overwrite (replicate 32 0) t.0) (decode_string-encode_to_string b h)
        ∙ overwrite_full (replicate 32 0) b (sym l))
