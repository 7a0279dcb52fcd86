-- ===== src/Utils/Coinbase/Script.antt =====
-- BTCCoinbaseScript of stratum/server/utils/coinbase.go. The builder of btcd's txscript is a parameter.
use stratumserver.Prelude.{ℕ, List, [], ◌∷◌, Option}
use stratumserver.Prelude.Int.{ℤ}

-- NewScriptBuilder, AddInt64, AddData, and Script, which gives the script or an error.
pub record ScriptBuilder : Type 1 where
  pub Builder : Type 0
  pub new_script_builder : Builder
  pub add_int64 : Builder → ℤ → Builder
  pub add_data : Builder → List ℕ → Builder
  pub script : Builder → List ℕ × Option ℕ

-- `/P2SH/jaxnet/`
abbrev pub coinbase_flags : List ℕ
coinbase_flags = 47 ∷ 80 ∷ 50 ∷ 83 ∷ 72 ∷ 47 ∷ 106 ∷ 97 ∷ 120 ∷ 110 ∷ 101 ∷ 116 ∷ 47 ∷ []

unfoldable pub btc_coinbase_script : ScriptBuilder → ℤ → List ℕ → List ℕ → List ℕ × Option ℕ
btc_coinbase_script b next_block_height extra_nonce beacon_hash =
    let start : b.Builder = b.add_int64 b.new_script_builder next_block_height in
    b.script (b.add_data (b.add_data (b.add_data start extra_nonce) beacon_hash) coinbase_flags)
