-- ===== src/Worker/Names.antt =====
-- How AuthorizeFn of stratum/server/client.go takes a worker's name apart.
pub mod Parts
use stratumserver.Prelude.{
  ℕ, ◌+◌, Bool, true, false, not, ◌&&◌, ◌||◌, List, [], ◌∷◌, ◌++◌, reverse, leb, ◌==◌,
  if◌then◌else◌,
}

-- strings.TrimPrefix and strings.TrimSuffix of one byte.
abbrev pub trim_prefix : ℕ → List ℕ → List ℕ
trim_prefix c [] = []
trim_prefix c (x ∷ xs) = if x == c then xs else x ∷ xs

abbrev pub trim_suffix : ℕ → List ℕ → List ℕ
trim_suffix c xs = reverse (trim_prefix c (reverse xs))

-- strings.Split at one byte: the part up to the first `c`, and the parts after it.
unfoldable pub split : ℕ → List ℕ → List ℕ × List (List ℕ)
split c [] = ([], [])
split c (x ∷ xs) =
    let (part, parts) = split c xs in if x == c then ([], part ∷ parts) else (x ∷ part, parts)

-- `"unknown"`
abbrev pub unknown : List ℕ
unknown = 117 ∷ 110 ∷ 107 ∷ 110 ∷ 111 ∷ 119 ∷ 110 ∷ []

abbrev pub rig_of : List (List ℕ) → List ℕ
rig_of [] = unknown
rig_of (p ∷ ps) = p

-- The miner and the rig.
unfoldable pub worker_names : List ℕ → List ℕ × List ℕ
unfolding split
worker_names worker_name =
    let (miner, parts) = split 46 (trim_suffix 34 (trim_prefix 34 worker_name)) in
    (miner, rig_of parts)

abbrev pub is_alnum : ℕ → Bool
is_alnum c = (leb 97 c && leb c 122) || (leb 65 c && leb c 90) || (leb 48 c && leb c 57)

-- MatchString of `[a-zA-Z0-9]+`: no anchor, so that one such byte anywhere is a match.
unfoldable pub contains_alnum : List ℕ → Bool
contains_alnum [] = false
contains_alnum (c ∷ cs) = is_alnum c || contains_alnum cs
