-- ===== src/Main3.antt =====
-- main3.go: the coinbase transaction that it prints for a miner, and the block that it makes of the
-- miner's answer. The transaction of jaxnetd and the code of btcd are parameters; what is only printed
-- is left out.
pub mod Answer
pub mod Printed
mod Tests
use stratumserver.Prelude.{ℕ, List, [], ◌∷◌, ◌++◌, Option, none, some, ◌>>=◌}
use stratumserver.Prelude.Hex.{encode_to_string, decode_string}
use stratumserver.Utils.Coinbase.{split_coinbase, MsgTx}

-- Serialize and Deserialize of btcd's wire.MsgTx; an error is a number and is only printed.
pub record Wire : Type 0 where
  pub serialize : MsgTx → List ℕ
  pub deserialize : List ℕ → MsgTx × Option ℕ

-- `00000000` and `000000d0`
abbrev pub extra_nonce1 : List ℕ
extra_nonce1 = 48 ∷ 48 ∷ 48 ∷ 48 ∷ 48 ∷ 48 ∷ 48 ∷ 48 ∷ []

abbrev pub extra_nonce2 : List ℕ
extra_nonce2 = 48 ∷ 48 ∷ 48 ∷ 48 ∷ 48 ∷ 48 ∷ 100 ∷ 48 ∷ []

-- `83cea01e` and `60f0ac5d`
abbrev pub nonce : ℕ
nonce = 0x83cea01e

abbrev pub n_time : ℕ
n_time = 0x60f0ac5d

-- What main computes of the coinbase: the texts that it prints, the two parts, and the transaction, the
-- nonce and the time of the block that it makes of the answer.
pub record Sample : Type 0 where
  pub transaction_hex_string : List ℕ
  pub part1 : List ℕ
  pub part2 : List ℕ
  pub tx_hex_string : List ℕ
  pub msg_tx : MsgTx
  pub block_nonce : ℕ
  pub block_time : ℕ

unfoldable pub dump_tx : Wire → MsgTx → List ℕ
dump_tx wire tx = encode_to_string (wire.serialize tx)

-- From cTx on; `first_tx` is what `b.Transactions()[0].MsgTx()` gives after cTx was stored in the block,
-- of which btcutil keeps a copy. `none` is the panic of SplitCoinbase.
unfoldable pub main : Wire → MsgTx → MsgTx → Option Sample
unfolding dump_tx
main wire first_tx c_tx = do
  let transaction_hex_string : List ℕ = dump_tx wire first_tx
  (part1, part2) ← split_coinbase (wire.serialize c_tx)
  let tx_buffer : List ℕ = (decode_string transaction_hex_string).0
  some (record {
    transaction_hex_string = transaction_hex_string;
    part1 = part1;
    part2 = part2;
    tx_hex_string =
        encode_to_string part1 ++ extra_nonce1 ++ extra_nonce2 ++ encode_to_string part2;
    msg_tx = (wire.deserialize tx_buffer).0;
    block_nonce = nonce;
    block_time = n_time;
  })
