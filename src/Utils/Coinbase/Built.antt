-- ===== src/Utils/Coinbase/Built.antt =====
-- BTCCoinbaseScript and SplitCoinbase of stratum/server/utils/coinbase.go, one after the other.
use stratumserver.Prelude.{
  ℕ, ◌+◌, ◌≤◌, ◌<◌, ◌≡◌, ap, ◌∙◌, List, [], ◌∷◌, ◌++◌, append_assoc, none, some, length,
  length-append, arith,
}
use stratumserver.Prelude.Int.{pos}
use stratumserver.Utils.Coinbase.{split_coinbase}
use stratumserver.Utils.Coinbase.Split.{split_coinbase_parts, height_len}
use stratumserver.Utils.Coinbase.Script.{ScriptBuilder, coinbase_flags, btc_coinbase_script}

-- What btcd documents of its builder, with the bytes that it has written and those of a script number:
-- it starts empty, it pushes a number above 16 and data of 2 to 75 bytes with one byte of length, and
-- up to 10000 bytes it has no error.
pub record IsBuilder (b : ScriptBuilder) : Type 0 where
  pub written : b.Builder → List ℕ
  pub number : ℕ → List ℕ
  pub starts : written b.new_script_builder ≡ []
  pub pushes_number :
      (x : b.Builder) (n : ℕ)
      → 16 < n
      → length (written x) + 10 ≤ 10000
      → written (b.add_int64 x (pos n)) ≡ written x ++ length (number n) ∷ number n
  pub short_number : (n : ℕ) → length (number n) ≤ 9
  pub pushes_data :
      (x : b.Builder) (d : List ℕ)
      → 2 ≤ length d
      → length d ≤ 75
      → length (written x) + 76 ≤ 10000
      → written (b.add_data x d) ≡ written x ++ length d ∷ d
  pub gives : (x : b.Builder) → length (written x) ≤ 10000 → b.script x ≡ (written x, none)

-- The push of some data.
abbrev pub push : List ℕ → List ℕ
push d = length d ∷ d

small_height : (n : ℕ) → n ≤ 9 → n ≡ height_len n
small_height n h = ground arith

module _ (b : ScriptBuilder) (ok : IsBuilder b) (h : ℕ) (nonce hash : List ℕ) where
  -- The four pushes.
  script_lem :
      16 < h
      → 2 ≤ length nonce
      → length nonce ≤ 75
      → length hash ≡ 32
      → btc_coinbase_script b (pos h) nonce hash
        ≡ (push (ok.number h) ++ (push nonce ++ (push hash ++ push coinbase_flags)), none)
  unfolding btc_coinbase_script
  script_lem above low high full =
      let num : List ℕ = push (ok.number h) in
      let short = ok.short_number h in
      let x1 : b.Builder = b.add_int64 b.new_script_builder (pos h) in
      let x2 : b.Builder = b.add_data x1 nonce in
      let x3 : b.Builder = b.add_data x2 hash in
      let x4 : b.Builder = b.add_data x3 coinbase_flags in
      let w1 : ok.written x1 ≡ num =
        ok.pushes_number b.new_script_builder h above (omega (arith, ap length ok.starts))
        ∙ ap (λ t. t ++ num) ok.starts in
      let w2 : ok.written x2 ≡ num ++ push nonce =
        ok.pushes_data x1 nonce low high (omega (arith, ap length w1, short))
        ∙ ap (λ t. t ++ push nonce) w1 in
      let l2 : length (ok.written x2) ≡ length num + length (push nonce) =
        ap length w2 ∙ length-append num (push nonce) in
      let w3 : ok.written x3 ≡ num ++ (push nonce ++ push hash) =
        ok.pushes_data x2 hash (omega (arith, full)) (omega (arith, full))
          (omega (arith, l2, short))
        ∙ ap (λ t. t ++ push hash) w2
        ∙ append_assoc num (push nonce) (push hash) in
      let l3 : length (ok.written x3) ≡ length num + (length (push nonce) + length (push hash)) =
        ap length w3
        ∙ length-append num (push nonce ++ push hash)
        ∙ ap (λ t. length num + t) (length-append (push nonce) (push hash)) in
      let w4 : ok.written x4 ≡ num ++ (push nonce ++ (push hash ++ push coinbase_flags)) =
        ok.pushes_data x3 coinbase_flags (omega arith) (omega arith)
          (omega (arith, l3, short, full))
        ∙ ap (λ t. t ++ push coinbase_flags) w3
        ∙ append_assoc num (push nonce ++ push hash) (push coinbase_flags)
        ∙ ap (λ t. num ++ t) (append_assoc (push nonce) (push hash) (push coinbase_flags)) in
      let l4 =
        ap length (
          ok.pushes_data x3 coinbase_flags (omega arith) (omega arith)
            (omega (arith, l3, short, full)))
        ∙ length-append (ok.written x3) (push coinbase_flags) in
      ok.gives x4 (omega (arith, l4, l3, short, full)) ∙ ap (λ t. (t, none)) w4

  -- With a builder as documented, a script that BTCCoinbaseScript builds for a height above 16, an extra
  -- nonce of 2 to 75 bytes and a hash of 32 bytes has no error, and behind 42 bytes of a transaction
  -- SplitCoinbase cuts it around the extra nonce: the first part ends with the height and the length 8,
  -- the second starts with the push of the hash.
  pub split_coinbase-btc_coinbase_script :
      (prefix rest : List ℕ)
      → length prefix ≡ 42
      → 16 < h
      → 2 ≤ length nonce
      → length nonce ≤ 75
      → length hash ≡ 32
      → (script : List ℕ) × (btc_coinbase_script b (pos h) nonce hash ≡ (script, none))
        × (split_coinbase (prefix ++ (script ++ rest))
            ≡ some (
              prefix ++ (push (ok.number h) ++ 8 ∷ []),
              push hash ++ (push coinbase_flags ++ rest),
            ))
  split_coinbase-btc_coinbase_script prefix rest at above low high full = (
    _,
    script_lem above low high full,
    ap (λ t. split_coinbase (prefix ++ t))
          (append_assoc (push (ok.number h)) (push nonce ++ (push hash ++ push coinbase_flags)) rest
            ∙ ap (λ t. push (ok.number h) ++ t)
                (append_assoc (push nonce) (push hash ++ push coinbase_flags) rest
                  ∙ ap (λ t. push nonce ++ t)
                      (append_assoc (push hash) (push coinbase_flags) rest)))
        ∙ split_coinbase_parts prefix (ok.number h) nonce
            (push hash ++ (push coinbase_flags ++ rest)) (length (ok.number h)) at
            (small_height (length (ok.number h)) (ok.short_number h)),
  )
