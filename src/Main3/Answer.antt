-- ===== src/Main3/Answer.antt =====
-- The answer of the miner in main3.go: the text of the transaction with its extra nonce.
use stratumserver.Prelude.{
  subst, ℕ, ◌≡◌, refl, sym, ap, ◌∙◌, true, List, [], ◌∷◌, ◌++◌, append_assoc, some, All, All-append,
  IsByte, >>=-eq-some, arith,
}
use stratumserver.Prelude.Hex.{encode_to_string, decode_string, decode_string-encode_to_string}
use stratumserver.Utils.Coinbase.{split_coinbase, MsgTx}
use stratumserver.Utils.Coinbase.Split.{split_coinbase_rebuild, split_coinbase-IsByte}
use stratumserver.Main3.{Wire, Sample, main, dump_tx, extra_nonce1, extra_nonce2}

encode_to_string-append :
    (xs ys : List ℕ) → encode_to_string (xs ++ ys) ≡ encode_to_string xs ++ encode_to_string ys
unfolding encode_to_string
encode_to_string-append [] ys = refl
encode_to_string-append (x ∷ xs) ys = rw (encode_to_string-append xs ys)

-- The bytes of the two extra nonces.
abbrev pub extra_nonce : List ℕ
extra_nonce = 0 ∷ 0 ∷ 0 ∷ 0 ∷ 0 ∷ 0 ∷ 0 ∷ 0xd0 ∷ []

extra_nonce-IsByte : All IsByte extra_nonce
extra_nonce-IsByte = (
  omega arith,
  (
    omega arith,
    (omega arith, (omega arith, (omega arith, (omega arith, (omega arith, (omega arith, tt)))))),
  ),
)

extra_nonce_lem : encode_to_string extra_nonce ≡ extra_nonce1 ++ extra_nonce2
unfolding encode_to_string
extra_nonce_lem = refl

answer_text :
    (p q : List ℕ)
    → All IsByte p
    → All IsByte q
    → decode_string (encode_to_string p ++ extra_nonce1 ++ extra_nonce2 ++ encode_to_string q)
      ≡ (p ++ (extra_nonce ++ q), true)
answer_text p q first second =
    let text : encode_to_string p ++ extra_nonce1 ++ extra_nonce2 ++ encode_to_string q
        ≡ encode_to_string (p ++ (extra_nonce ++ q)) =
      append_assoc (encode_to_string p ++ extra_nonce1) extra_nonce2 (encode_to_string q)
      ∙ append_assoc (encode_to_string p) extra_nonce1 (extra_nonce2 ++ encode_to_string q)
      ∙ sym (
          encode_to_string-append p (extra_nonce ++ q)
          ∙ ap (λ t. encode_to_string p ++ t)
              (encode_to_string-append extra_nonce q
                ∙ ap (λ t. t ++ encode_to_string q) extra_nonce_lem)) in
    ap decode_string text
    ∙ decode_string-encode_to_string (p ++ (extra_nonce ++ q)) (
        All-append IsByte p (extra_nonce ++ q) first
          (All-append IsByte extra_nonce q extra_nonce-IsByte second))

same_sample : {a b : Sample} → some a ≡ some b → a ≡ b
same_sample e = cc

IsAnswer : Wire → MsgTx → Sample → Type 0
IsAnswer wire first_tx r =
    (decode_string r.tx_hex_string ≡ (r.part1 ++ (extra_nonce ++ r.part2), true))
    × (split_coinbase (r.part1 ++ (extra_nonce ++ r.part2)) ≡ some (r.part1, r.part2))
    × (r.msg_tx ≡ (wire.deserialize (wire.serialize first_tx)).0)

-- If the serialised transactions are bytes and main does not panic, the text that is printed for the
-- answer is that of the transaction with the extra nonce between the parts, which SplitCoinbase cuts
-- into the same parts; and the transaction of the rebuilt block is read not from this text, but from
-- that of the block's first transaction, without the extra nonce.
pub main_lem :
    (wire : Wire) (first_tx c_tx : MsgTx) (r : Sample)
    → All IsByte (wire.serialize first_tx)
    → All IsByte (wire.serialize c_tx)
    → main wire first_tx c_tx ≡ some r
    → (decode_string r.tx_hex_string ≡ (r.part1 ++ (extra_nonce ++ r.part2), true))
      × (split_coinbase (r.part1 ++ (extra_nonce ++ r.part2)) ≡ some (r.part1, r.part2))
      × (r.msg_tx ≡ (wire.deserialize (wire.serialize first_tx)).0)
unfolding main dump_tx IsAnswer
main_lem wire first_tx c_tx r first_bytes bytes h =
    let raw : List ℕ = wire.serialize c_tx in
    let (parts, cut, made) = >>=-eq-some (split_coinbase raw) _ h in
    let (first, second) = split_coinbase-IsByte raw parts.0 parts.1 bytes cut in
    subst (IsAnswer wire first_tx) (same_sample made) (
      answer_text parts.0 parts.1 first second,
      split_coinbase_rebuild raw parts.0 parts.1 extra_nonce cut refl,
      ap (λ t. (wire.deserialize t.0).0)
          (decode_string-encode_to_string (wire.serialize first_tx) first_bytes),
    )
