-- ===== src/Utils/Tests.antt =====
-- Concrete runs of the byte orders, the serialisations, the merkle branch and the coinbase.
use stratumserver.Prelude.{
  ℕ, ◌+◌, ◌*◌, ◌^◌, ◌≤◌, ◌≡◌, refl, ◌⊎◌, List, [], ◌∷◌, ◌++◌, none, some, arith, length, foldl,
  replicate, le_bytes, of_le_bytes, length-le_bytes, All, IsByte, ◌<◌,
}
use stratumserver.Prelude.Int.{pos, ℤ, negsuc}
use stratumserver.Utils.Pack.{serialize_string, serialize_number}
use stratumserver.Utils.Pack.CompactSize.{read_string, read_string-serialize_string}
use stratumserver.Utils.Pack.ScriptNumber.{serialize_number_lem}
use stratumserver.Utils.Merkle.{merkle_tree_branch}
use stratumserver.Utils.Merkle.Root.{IsStore, root, level, merkle_tree_branch-coinbase}
use stratumserver.Utils.Coinbase.{split_coinbase}
use stratumserver.Utils.Coinbase.Script.{ScriptBuilder, coinbase_flags, btc_coinbase_script}
use stratumserver.Utils.Coinbase.Built.{IsBuilder, push, split_coinbase-btc_coinbase_script}
use stratumserver.Utils.Coinbase.Split.{split_coinbase_parts}

-- The 32 bytes of a hash.
abbrev some_hash : List ℕ
some_hash = le_bytes 32 (2 ^ 220 + 987654321)

read_string-serialize_string_example :
    read_string (serialize_string (104 ∷ 105 ∷ []) ++ 9 ∷ []) ≡ some (104 ∷ 105 ∷ [], 9 ∷ [])
read_string-serialize_string_example =
    read_string-serialize_string (104 ∷ 105 ∷ []) (9 ∷ []) (omega arith)

serialize_number_lem_example :
    ((1 ≤ 500) × (500 ≤ 16) × (serialize_number 500 ≡ some ((0x50 + 500) ∷ [])))
    ⊎ ((◌≡◌ {A = ℕ} 500 0 ⊎ (16 < 500))
        × (p : List ℕ) × (serialize_number 500 ≡ some (length p ∷ p))
        × (of_le_bytes p ≡ 500)
        × (1 ≤ length p)
        × (length p ≤ 8)
        × All IsByte p)
serialize_number_lem_example = serialize_number_lem 500 (omega arith)

abbrev store : List ℕ
store = 1 ∷ 2 ∷ 3 ∷ 4 ∷ 12 ∷ 34 ∷ 154 ∷ []

abbrev join : ℕ → ℕ → ℕ
join a b = a * 10 + b

store-IsStore : IsStore join 2 (1 ∷ 2 ∷ 3 ∷ 4 ∷ []) store 154
store-IsStore = level refl refl (level refl refl (root 154))

-- The same leaves after another first one.
abbrev other_store : List ℕ
other_store = 9 ∷ 2 ∷ 3 ∷ 4 ∷ 92 ∷ 34 ∷ 954 ∷ []

merkle_tree_branch-coinbase_example :
    (sides : List ℕ) × (merkle_tree_branch store ≡ some sides)
    × (merkle_tree_branch other_store ≡ some sides)
    × (foldl join 9 sides ≡ 954)
merkle_tree_branch-coinbase_example =
    merkle_tree_branch-coinbase join 1 9 (2 ∷ 3 ∷ 4 ∷ []) store-IsStore
      (level refl refl (level refl refl (root 954)))

abbrev prefix : List ℕ
prefix = replicate 42 1

split_coinbase_parts_example :
    split_coinbase (prefix ++ 3 ∷ ((9 ∷ 8 ∷ 7 ∷ []) ++ 2 ∷ ((5 ∷ 6 ∷ []) ++ 4 ∷ [])))
    ≡ some (prefix ++ 3 ∷ ((9 ∷ 8 ∷ 7 ∷ []) ++ 8 ∷ []), 4 ∷ [])
split_coinbase_parts_example =
    split_coinbase_parts prefix (9 ∷ 8 ∷ 7 ∷ []) (5 ∷ 6 ∷ []) (4 ∷ []) 3 refl refl

-- A builder whose numbers are three bytes.
abbrev number : ℕ → List ℕ
number n = le_bytes 3 n

abbrev add_number : List ℕ → ℤ → List ℕ
add_number x (pos n) = x ++ push (number n)
add_number x (negsuc n) = x

abbrev builder : ScriptBuilder
builder = record {
  Builder = List ℕ;
  new_script_builder = [];
  add_int64 = add_number;
  add_data = λ x d. x ++ push d;
  script = λ x. (x, none);
}

builder-IsBuilder : IsBuilder builder
builder-IsBuilder = record {
  written = λ x. x;
  number = number;
  starts = refl;
  pushes_number = λ x n h k. refl;
  short_number = λ n. omega (arith, length-le_bytes 3 n);
  pushes_data = λ x d low high h. refl;
  gives = λ x h. refl;
}

split_coinbase-btc_coinbase_script_example :
    (script : List ℕ) × (btc_coinbase_script builder (pos 100000) (replicate 8 0) (replicate 32 0)
      ≡ (script, none))
    × (split_coinbase (prefix ++ (script ++ 4 ∷ []))
        ≡ some (
          prefix ++ (push (builder-IsBuilder.number 100000) ++ 8 ∷ []),
          push (replicate 32 0) ++ (push coinbase_flags ++ 4 ∷ []),
        ))
split_coinbase-btc_coinbase_script_example =
    split_coinbase-btc_coinbase_script builder builder-IsBuilder 100000 (replicate 8 0)
      (replicate 32 0) prefix (4 ∷ []) refl (omega arith) (omega arith) (omega arith) refl
