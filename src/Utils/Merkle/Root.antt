-- ===== src/Utils/Merkle/Root.antt =====
-- MerkleTreeBranch on any array, and on the array of a full merkle tree.
use stratumserver.Prelude.{
  ℕ, zero, suc, ◌+◌, ◌-◌, ◌/◌, ◌^◌, ◌≤◌, ◌<◌, ◌≡◌, refl, sym, ap, ◌∙◌, List, [], ◌∷◌, ◌++◌,
  append_assoc, append-nil, foldl, some, arith, length, length-append, get_elem?, dec_lt, lt→ltb,
}
use native.Mathlib.Nat.{pow-suc}
use stratumserver.Utils.Merkle.{branch_loop, merkle_tree_branch}

module _ {ℓ} {A : Type ℓ} where
  get_elem?-lt : (xs : List A) (i : ℕ) → i < length xs → (x : A) × (get_elem? xs i ≡ some x)
  get_elem?-lt [] i h = absurd (omega arith)
  get_elem?-lt (x ∷ xs) zero h = (x, refl)
  get_elem?-lt (x ∷ xs) (suc i) h = get_elem?-lt xs i (omega arith)

  get_elem?-append :
      (pre xs : List A) (i : ℕ) → get_elem? (pre ++ xs) (length pre + i) ≡ get_elem? xs i
  get_elem?-append [] xs i = ap (get_elem? xs) (omega arith)
  get_elem?-append (p ∷ pre) xs i =
      ap (get_elem? (p ∷ pre ++ xs)) (shift (length pre) i) ∙ get_elem?-append pre xs i
    where
      shift : (n i : ℕ) → suc n + i ≡ suc (n + i)
      shift n i = omega arith

  branch_round :
      (fuel : ℕ) (merkles : List A) (k : ℕ) (path : List A) {x : A}
      → 1 < k
      → get_elem? merkles (length merkles - k + 1) ≡ some x
      → branch_loop (suc fuel) merkles k path
        ≡ branch_loop fuel merkles ((k - 1) / 2) (path ++ x ∷ [])
  unfolding branch_loop
  branch_round fuel merkles k path h e = rw (lt→ltb 1 k h, e)

  branch_stop :
      (fuel : ℕ) (merkles : List A) (k : ℕ) (path : List A)
      → k ≤ 1
      → branch_loop fuel merkles k path ≡ some path
  unfolding branch_loop
  branch_stop zero merkles k path h = ground arith
  branch_stop (suc fuel) merkles k path h = ground arith

  branch_loop_total :
      (fuel : ℕ) (merkles : List A) (k : ℕ) (path : List A)
      → k ≤ fuel
      → k ≤ length merkles
      → (out : List A) × (branch_loop fuel merkles k path ≡ some out)
  branch_loop_total zero merkles k path f l = (path, branch_stop zero merkles k path (omega arith))
  branch_loop_total (suc fuel) merkles k path f l = elim (dec_lt 1 k) [
    | no small ↦ (path, branch_stop (suc fuel) merkles k path (omega arith))
    | yes big ↦
        let (x, e) = get_elem?-lt merkles (length merkles - k + 1) (omega arith) in
        let (out, r) =
          branch_loop_total fuel merkles ((k - 1) / 2) (path ++ x ∷ []) (omega arith)
            (omega arith) in
        (out, branch_round fuel merkles k path big e ∙ r)
  ]

  -- On an array of any length MerkleTreeBranch ends, and every index that it reads is in range.
  pub merkle_tree_branch_total :
      (merkles : List A) → (path : List A) × (merkle_tree_branch merkles ≡ some path)
  unfolding merkle_tree_branch
  merkle_tree_branch_total merkles =
      branch_loop_total (length merkles) merkles (length merkles) [] (omega arith) (omega arith)

pow_pos : (h : ℕ) → 1 ≤ 2 ^ h
pow_pos zero = omega arith
pow_pos (suc h) = omega (arith, pow_pos h, pow-suc 2 h)

lt-pow : (h : ℕ) → h < 2 ^ h
lt-pow zero = omega arith
lt-pow (suc h) = omega (arith, lt-pow h, pow-suc 2 h)

head_or {ℓ} : {A : Type ℓ} → A → List A → A
head_or d [] = d
head_or d (x ∷ xs) = x

head_eq {ℓ} : {A : Type ℓ} {x y : A} {xs ys : List A} → x ∷ xs ≡ y ∷ ys → x ≡ y
unfolding head_or
head_eq {x} {y} e = ap (head_or x) e

module _ {ℓ} {A : Type ℓ} (hash : A → A → A) where
  -- The hashes of the pairs of neighbours: the level above in a merkle tree.
  abbrev pub level_above : List A → List A
  level_above (l ∷ r ∷ rest) = hash l r ∷ level_above rest
  level_above _ = []

  -- An array that holds a full merkle tree of height `h`, as `BuildMerkleTreeStore` lays it out for
  -- 2 ^ h leaves: the leaves first, then each level above, and the root last.
  pub data IsStore : ℕ → List A → List A → A → Type ℓ where
    root : (r : A) → IsStore zero (r ∷ []) (r ∷ []) r
    level :
        {h : ℕ} {leaves rest store : List A} {r : A}
        → length leaves ≡ 2 ^ suc h
        → store ≡ leaves ++ rest
        → IsStore h (level_above leaves) rest r
        → IsStore (suc h) leaves store r

  -- The right neighbours on the way up from the first leaf, by the leaves after it.
  siblings : ℕ → List A → List A
  siblings zero ls = []
  siblings (suc h) [] = []
  siblings (suc h) (b ∷ ls) = b ∷ siblings h (level_above ls)

  length-store :
      {h : ℕ} {leaves store : List A} {r : A}
      → IsStore h leaves store r
      → length store + 1 ≡ 2 ^ suc h
  length-store (root r) = omega arith
  length-store (level {h} {leaves} {rest} l e s) =
      omega (arith, ap length e, length-append leaves rest, length-store s, pow-suc 2 (suc h))

  branch_loop-IsStore :
      {h : ℕ} {leaves store : List A} {r : A} (fuel : ℕ) (pre : List A) (a : A) (ls path : List A)
      → IsStore h leaves store r
      → leaves ≡ a ∷ ls
      → h ≤ fuel
      → (sides : List A) × (branch_loop fuel (pre ++ store) (length store) path
          ≡ some (path ++ sides))
        × (foldl hash a sides ≡ r)
        × (length sides ≡ h)
        × (sides ≡ siblings h ls)
  unfolding siblings
  branch_loop-IsStore fuel pre a ls path (root r) e f = (
    [],
    branch_stop fuel (pre ++ r ∷ []) 1 path (omega arith) ∙ ap some (sym (append-nil path)),
    sym (head_eq e),
    refl,
    refl,
  )
  branch_loop-IsStore fuel pre a [] path (level {h} {leaves} {rest} l es s) e f =
      absurd (omega (arith, ap length e, pow_pos h, pow-suc 2 h))
  branch_loop-IsStore zero pre a (b ∷ ls) path (level {h} {leaves} {rest} l es s) e f =
      absurd (omega arith)
  branch_loop-IsStore (suc fuel) pre a (b ∷ ls) path (level {h} {leaves} {rest} {store} l es s) e
        f =
      let (sides, run, folds, count, same) =
        branch_loop-IsStore fuel (pre ++ leaves) (hash a b) (level_above ls) (path ++ b ∷ []) s
          (ap level_above e) (omega arith) in
      let split : pre ++ store ≡ (pre ++ leaves) ++ rest =
        ap (λ t. pre ++ t) es ∙ sym (append_assoc pre leaves rest) in
      let half : (length store - 1) / 2 ≡ length rest =
        omega (arith, ap length es, length-append leaves rest, length-store s) in
      let place : length (pre ++ store) - length store + 1 ≡ length pre + 1 =
        omega (arith, length-append pre store) in
      let side : get_elem? (pre ++ store) (length (pre ++ store) - length store + 1) ≡ some b =
        ap (get_elem? (pre ++ store)) place
        ∙ get_elem?-append pre store 1
        ∙ ap (λ t. get_elem? t 1) (es ∙ ap (λ t. t ++ rest) e) in
      let more : 1 < length store =
        omega (arith, ap length es, length-append leaves rest, ap length e) in
      (
        b ∷ sides,
        branch_round fuel (pre ++ store) (length store) path more side
            ∙ ap (λ k. branch_loop fuel (pre ++ store) k (path ++ b ∷ [])) half
            ∙ ap (λ t. branch_loop fuel t (length rest) (path ++ b ∷ [])) split
            ∙ run
            ∙ ap some (append_assoc path (b ∷ []) sides),
        folds,
        ap suc count,
        ap (λ t. b ∷ t) same,
      )

  branch-IsStore :
      {h : ℕ} {store : List A} {r : A} (a : A) (ls : List A)
      → IsStore h (a ∷ ls) store r
      → (sides : List A) × (merkle_tree_branch store ≡ some sides)
        × (foldl hash a sides ≡ r)
        × (length sides ≡ h)
        × (sides ≡ siblings h ls)
  unfolding merkle_tree_branch
  branch-IsStore {h} {store} a ls s =
      branch_loop-IsStore (length store) [] a ls [] s refl
        (omega (arith, length-store s, lt-pow h, pow-suc 2 h))

  -- On the array of a full merkle tree, MerkleTreeBranch returns one hash for each level, and
  -- hashing the first leaf with them in turn, each on the right, gives the root of the tree.
  pub merkle_tree_branch-root :
      {h : ℕ} {store : List A} {r : A} (a : A) (ls : List A)
      → IsStore h (a ∷ ls) store r
      → (sides : List A) × (merkle_tree_branch store ≡ some sides)
        × (foldl hash a sides ≡ r)
        × (length sides ≡ h)
  merkle_tree_branch-root a ls s =
      let (sides, run, folds, count, same) = branch-IsStore a ls s in (sides, run, folds, count)

  -- The branch that MerkleTreeBranch returns does not depend on the first leaf: for two full trees that
  -- differ in it only, as those of a block before and after the miner puts its extra nonce into the
  -- coinbase, the branch of the one, hashed onto the first leaf of the other, gives the other's root.
  pub merkle_tree_branch-coinbase :
      {h : ℕ} {store store' : List A} {r r' : A} (a b : A) (ls : List A)
      → IsStore h (a ∷ ls) store r
      → IsStore h (b ∷ ls) store' r'
      → (sides : List A) × (merkle_tree_branch store ≡ some sides)
        × (merkle_tree_branch store' ≡ some sides)
        × (foldl hash b sides ≡ r')
  merkle_tree_branch-coinbase a b ls s s' =
      let (sides, run, _, _, same) = branch-IsStore a ls s in
      let (sides', run', folds', _, same') = branch-IsStore b ls s' in
      let equal = same' ∙ sym same in
      (sides, run, run' ∙ ap some equal, ap (foldl hash b) (sym equal) ∙ folds')
