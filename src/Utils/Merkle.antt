-- ===== src/Utils/Merkle.antt =====
-- MerkleTreeBranch of stratum/server/utils/coinbase.go. `none` is the panic of an index out of range,
-- or fuel that ran out.
pub mod Root
use stratumserver.Prelude.{
  ℕ, zero, suc, ◌+◌, ◌-◌, ◌/◌, List, [], ◌∷◌, ◌++◌, Option, none, some, length, get_elem?, ltb,
  if◌then◌else◌, ◌>>=◌,
}

module _ {ℓ} {A : Type ℓ} where
  -- `for k := b; k > 1;` with the path so far. `k` falls in each round, so `b` rounds are enough.
  pub branch_loop : ℕ → List A → ℕ → List A → Option (List A)
  branch_loop zero merkles k path = if ltb 1 k then none else some path
  branch_loop (suc fuel) merkles k path =
      let round = (do
        merkle ← get_elem? merkles (length merkles - k + 1)
        branch_loop fuel merkles ((k - 1) / 2) (path ++ merkle ∷ [])) in
      if ltb 1 k then round else some path

  pub merkle_tree_branch : List A → Option (List A)
  merkle_tree_branch merkles = branch_loop (length merkles) merkles (length merkles) []
