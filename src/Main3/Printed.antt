-- ===== src/Main3/Printed.antt =====
-- What main3.go prints for a miner, from `part1, part2:=` to nTime. The store of the merkle tree and the
-- text of a hash are btcd's; the loop over the branch is that of HandleMessage.
use stratumserver.Prelude.{
  ℕ, ◌%◌, ◌^◌, ◌≡◌, refl, List, ◌∷◌, Option, some, ◌>>=◌, foldl, length, All, IsByte,
}
use stratumserver.Prelude.Int.{ℤ}
use stratumserver.Prelude.Int64.{bits64}
use stratumserver.Prelude.Hex.{encode_to_string}
use stratumserver.Utils.Coinbase.{split_coinbase, MsgTx}
use stratumserver.Utils.Merkle.{merkle_tree_branch}
use stratumserver.Utils.Merkle.Root.{IsStore, merkle_tree_branch-coinbase}
use stratumserver.Utils.Reverse.{reverse_byte_order}
use stratumserver.Utils.Reverse.Words.{reverse_words, reverse_byte_order-reverse_words}
use stratumserver.Utils.Pack.{pack_int32_be, pack_uint32_be}
use stratumserver.Worker.Message.{branch_strings}
use stratumserver.Main3.{Wire}

-- The header's previous hash and version, and BuildMerkleTreeStore of the transactions.
pub record Block : Type 0 where
  pub prev_block : List ℕ
  pub version : ℕ
  pub merkles : List (Option (List ℕ))

pub record Printed : Type 0 where
  pub prev_hash : List ℕ
  pub coinb1 : List ℕ
  pub coinb2 : List ℕ
  pub merkle_branch : List (List ℕ)
  pub version : List ℕ
  pub n_bits : List ℕ
  pub n_time : List ℕ

abbrev texts :
    (List ℕ → List ℕ) → Block → ℤ → List ℕ × List ℕ → List (Option (List ℕ)) → List ℕ → Printed
texts hash_string block now (part1, part2) merkle_path reversed = record {
  prev_hash = encode_to_string reversed;
  coinb1 = encode_to_string part1;
  coinb2 = encode_to_string part2;
  merkle_branch = branch_strings hash_string merkle_path;
  version = encode_to_string (pack_int32_be block.version);
  n_bits = encode_to_string (pack_uint32_be 486604799);
  n_time = encode_to_string (pack_uint32_be (bits64 now % 2 ^ 32));
}

-- `none` is a panic.
unfoldable pub printed : Wire → (List ℕ → List ℕ) → Block → MsgTx → ℤ → Option Printed
printed wire hash_string block c_tx now = do
  parts ← split_coinbase (wire.serialize c_tx)
  merkle_path ← merkle_tree_branch block.merkles
  reversed ← reverse_byte_order block.prev_block
  some (texts hash_string block now parts merkle_path reversed)

-- What is printed tells a miner all that the coinbase does not: the words of the previous hash in the
-- opposite order, the parts of the coinbase, and a branch which, hashed onto any other first leaf, gives
-- the root of the full tree that has this leaf in place of the coinbase. Nothing panics on the way, for
-- a coinbase that SplitCoinbase cuts, a previous hash of 32 bytes and the store of a full tree.
pub printed_lem :
    (wire : Wire) (hash_string : List ℕ → List ℕ) (block : Block) (c_tx : MsgTx) (now : ℤ)
    (part1 part2 : List ℕ) (hash : Option (List ℕ) → Option (List ℕ) → Option (List ℕ)) (h : ℕ)
    (a b r r' : Option (List ℕ)) (ls store' : List (Option (List ℕ)))
    → split_coinbase (wire.serialize c_tx) ≡ some (part1, part2)
    → length block.prev_block ≡ 32
    → All IsByte block.prev_block
    → IsStore hash h (a ∷ ls) block.merkles r
    → IsStore hash h (b ∷ ls) store' r'
    → (p : Printed) × (sides : List (Option (List ℕ))) × (printed wire hash_string block c_tx now
        ≡ some p)
      × (p.prev_hash ≡ encode_to_string (reverse_words block.prev_block))
      × (p.coinb1 ≡ encode_to_string part1)
      × (p.coinb2 ≡ encode_to_string part2)
      × (p.merkle_branch ≡ branch_strings hash_string sides)
      × (foldl hash b sides ≡ r')
unfolding printed
printed_lem wire hash_string block c_tx now part1 part2 hash h a b r r' ls store' cut l bytes s s' =
    let (sides, run, _, folds) = merkle_tree_branch-coinbase hash a b ls s s' in
    let reversed = reverse_byte_order-reverse_words block.prev_block l bytes in
    (
      texts hash_string block now (part1, part2) sides (reverse_words block.prev_block),
      sides,
      rw (cut, run, reversed) refl,
      refl,
      refl,
      refl,
      refl,
      folds,
    )
