-- ===== src/Main3/Tests.antt =====
-- main3.go on a small transaction.
use stratumserver.Prelude.{
  ◌≡◌, refl, true, List, [], ◌∷◌, ◌++◌, none, some, Option, foldl, ℕ, replicate, All, IsByte, arith,
}
use stratumserver.Prelude.Hex.{encode_to_string, decode_string}
use stratumserver.Prelude.Int.{pos}
use stratumserver.Utils.Coinbase.{split_coinbase, MsgTx}
use stratumserver.Main3.{Wire, Sample, main, dump_tx, extra_nonce1, extra_nonce2}
use stratumserver.Utils.Merkle.Root.{IsStore, level, root}
use stratumserver.Utils.Reverse.Words.{reverse_words}
use stratumserver.Worker.Message.{branch_strings}
use stratumserver.Main3.Printed.{Block, Printed, printed, printed_lem}
use stratumserver.Main3.Answer.{extra_nonce, main_lem}

abbrev coinbase : MsgTx
coinbase = record { version = pos 1; tx_in = []; tx_out = []; lock_time = 7 }

-- A serialiser that gives one text of the layout that SplitCoinbase expects.
abbrev first : List ℕ
first = replicate 42 1 ++ 3 ∷ 9 ∷ 8 ∷ 7 ∷ []

abbrev wire : Wire
wire = record {
  serialize = λ tx. first ++ 2 ∷ 5 ∷ 6 ∷ 4 ∷ [];
  deserialize = λ bytes. (coinbase, none);
}

abbrev sample : Sample
sample = record {
  transaction_hex_string = encode_to_string (first ++ 2 ∷ 5 ∷ 6 ∷ 4 ∷ []);
  part1 = first ++ 8 ∷ [];
  part2 = 4 ∷ [];
  tx_hex_string =
      encode_to_string (first ++ 8 ∷ [])
      ++ extra_nonce1
      ++ extra_nonce2
      ++ encode_to_string (4 ∷ []);
  msg_tx = coinbase;
  block_nonce = 0x83cea01e;
  block_time = 0x60f0ac5d;
}

runs : main wire coinbase coinbase ≡ some sample
unfolding main dump_tx split_coinbase
runs = refl

bytes : All IsByte (wire.serialize coinbase)
bytes = ground arith

main_lem_example :
    (decode_string sample.tx_hex_string ≡ (sample.part1 ++ (extra_nonce ++ sample.part2), true))
    × (split_coinbase (sample.part1 ++ (extra_nonce ++ sample.part2))
        ≡ some (sample.part1, sample.part2))
    × (sample.msg_tx ≡ (wire.deserialize (wire.serialize coinbase)).0)
main_lem_example = main_lem wire coinbase coinbase sample bytes bytes runs

-- Four leaves, hashed by their bytes put together, before and after another first leaf.
abbrev join : Option (List ℕ) → Option (List ℕ) → Option (List ℕ)
join (some a) (some b) = some (a ++ b)
join _ _ = none

abbrev leaf : ℕ → Option (List ℕ)
leaf n = some (n ∷ [])

abbrev store_of : ℕ → List (Option (List ℕ))
store_of a =
    leaf a
    ∷ leaf 2
    ∷ leaf 3
    ∷ leaf 4
    ∷ some (a ∷ 2 ∷ [])
    ∷ some (3 ∷ 4 ∷ [])
    ∷ some (a ∷ 2 ∷ 3 ∷ 4 ∷ [])
    ∷ []

store_of-IsStore :
    (a : ℕ)
    → IsStore join 2
        (leaf a ∷ leaf 2 ∷ leaf 3 ∷ leaf 4 ∷ [])
        (store_of a)
        (some (a ∷ 2 ∷ 3 ∷ 4 ∷ []))
store_of-IsStore a = level refl refl (level refl refl (root _))

abbrev block : Block
block = record { prev_block = replicate 32 5; version = 1; merkles = store_of 1 }

cuts : split_coinbase (wire.serialize coinbase) ≡ some (first ++ 8 ∷ [], 4 ∷ [])
unfolding split_coinbase
cuts = refl

block_bytes : All IsByte block.prev_block
block_bytes = ground arith

printed_lem_example :
    (p : Printed) × (sides : List (Option (List ℕ))) × (printed wire
        (λ h. h)
        block
        coinbase
        (pos 10)
      ≡ some p)
    × (p.prev_hash ≡ encode_to_string (reverse_words block.prev_block))
    × (p.coinb1 ≡ encode_to_string (first ++ 8 ∷ []))
    × (p.coinb2 ≡ encode_to_string (4 ∷ []))
    × (p.merkle_branch ≡ branch_strings (λ h. h) sides)
    × (foldl join (leaf 9) sides ≡ some (9 ∷ 2 ∷ 3 ∷ 4 ∷ []))
printed_lem_example =
    printed_lem wire (λ h. h) block coinbase (pos 10) (first ++ 8 ∷ []) (4 ∷ []) join 2 (leaf 1)
      (leaf 9) (some (1 ∷ 2 ∷ 3 ∷ 4 ∷ [])) (some (9 ∷ 2 ∷ 3 ∷ 4 ∷ []))
      (leaf 2 ∷ leaf 3 ∷ leaf 4 ∷ []) (store_of 9) cuts refl block_bytes (store_of-IsStore 1)
      (store_of-IsStore 9)
