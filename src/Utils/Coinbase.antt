-- ===== src/Utils/Coinbase.antt =====
-- SplitCoinbase, Uint256BytesFromHash, StringsIndexOf and JaxTxToBtcTx of
-- stratum/server/utils/coinbase.go. `none` is a panic of Go.
pub mod Split
pub mod Lookup
pub mod Convert
pub mod Script
pub mod Built
use stratumserver.Prelude.{
  ℕ, zero, suc, ◌+◌, List, [], ◌∷◌, Option, none, some, length, get_elem?, set, take, drop,
  replicate, ltb, leb, ◌&&◌, ◌==◌, Bool, true, false, if◌then◌else◌, ◌>>=◌, overwrite, bytes_eq,
}
use stratumserver.Prelude.Int.{ℤ, pos, negsuc}
use stratumserver.Prelude.Hex.{decode_string}
use stratumserver.Utils.Reverse.{reverse_bytes}

-- The argument is the serialised transaction, `tx.Serialize` of btcd. `rawTx[0:i]` shares the array of
-- `rawTx`, so `append(part1, 0x08)` writes its byte into `rawTx`, and `part2` is cut from that.
unfoldable pub split_coinbase : List ℕ → Option (List ℕ × List ℕ)
split_coinbase raw_tx = do
  height_byte ← get_elem? raw_tx 42
  let height_len : ℕ = if ltb 0xf height_byte then 0 else height_byte
  let extra_nonce_len_idx : ℕ = 42 + 1 + height_len
  extra_nonce_len ← get_elem? raw_tx extra_nonce_len_idx
  let written : List ℕ = set raw_tx extra_nonce_len_idx 0x08
  let part2_idx : ℕ = extra_nonce_len_idx + extra_nonce_len + 1
  let parts : List ℕ × List ℕ = (take (extra_nonce_len_idx + 1) written, drop part2_idx written)
  if leb part2_idx (length raw_tx) then some parts else none

-- A hash that is no hex is logged; what was read before the fault is used all the same.
pub uint256_bytes_from_hash : List ℕ → List ℕ
uint256_bytes_from_hash h = reverse_bytes (overwrite (replicate 32 0) (decode_string h).0)

-- `for k, v := range data`, from the index `k` on.
pub index_from : ℕ → List (List ℕ) → List ℕ → ℤ
index_from k [] element = negsuc 0
index_from k (v ∷ data') element =
    if bytes_eq element v then pos k else index_from (suc k) data' element

pub strings_index_of : List (List ℕ) → List ℕ → ℤ
strings_index_of = index_from 0

-- The wire types of jaxnetd and of btcd have the same fields. A hash and a script are byte lists, and a
-- nil pointer in a slice of pointers is `none`.
pub record OutPoint : Type 0 where
  pub hash : List ℕ
  pub index : ℕ

pub record TxIn : Type 0 where
  pub previous_out_point : OutPoint
  pub signature_script : List ℕ
  pub witness : List (List ℕ)
  pub sequence : ℕ

pub record TxOut : Type 0 where
  pub value : ℤ
  pub pk_script : List ℕ

pub record MsgTx : Type 0 where
  pub version : ℤ
  pub tx_in : List (Option TxIn)
  pub tx_out : List (Option TxOut)
  pub lock_time : ℕ

pub convert_in : TxIn → TxIn
convert_in t = record {
  previous_out_point = record {
    hash = t.previous_out_point.hash;
    index = t.previous_out_point.index;
  };
  signature_script = t.signature_script;
  witness = t.witness;
  sequence = t.sequence;
}

pub convert_out : TxOut → TxOut
convert_out t = record { value = t.value; pk_script = t.pk_script }

module _ {A B : Type 0} (convert : A → B) where
  -- `for i := range dst { dst[i] = convert(src[i]) }` over the `n` indices from `i` on.
  pub fill : ℕ → ℕ → List (Option A) → List (Option B) → Option (List (Option B))
  fill zero i src dst = some dst
  fill (suc n) i src dst = do
    pointer ← get_elem? src i
    item ← pointer
    fill n (suc i) src (set dst i (some (convert item)))

pub jax_tx_to_btc_tx : MsgTx → Option MsgTx
jax_tx_to_btc_tx tx = do
  ins ← fill convert_in (length tx.tx_in) 0 tx.tx_in (replicate (length tx.tx_in) none)
  outs ← fill convert_out (length tx.tx_out) 0 tx.tx_out (replicate (length tx.tx_out) none)
  some (record { version = tx.version; tx_in = ins; tx_out = outs; lock_time = tx.lock_time })
