-- ===== src/Worker/Names/Parts.antt =====
-- The parts of a worker's name, and when a worker is authorized.
use mathlib.Core.List.{reverse-append, reverse-reverse}
use stratumserver.Prelude.{◌∙◌, ℕ, ◌≡◌, refl, ◌==◌, false, List, [], ◌∷◌, ◌++◌, All}
use stratumserver.Worker.Names.{trim_suffix, split, rig_of, unknown, worker_names}

-- No byte of the list is the dot.
abbrev pub IsPlain : List ℕ → Type 0
IsPlain = All (λ c. (c == 46) ≡ false)

split_plain :
    (m rest : List ℕ)
    → IsPlain m
    → split 46 (m ++ 46 ∷ rest) ≡ (m, (split 46 rest).0 ∷ (split 46 rest).1)
unfolding split
split_plain [] rest h = refl
split_plain (x ∷ xs) rest h = rw (h.0, split_plain xs rest h.1) refl

split_only : (r : List ℕ) → IsPlain r → split 46 r ≡ (r, [])
unfolding split
split_only [] h = refl
split_only (x ∷ xs) h = rw (h.0, split_only xs h.1) refl

trimmed : (xs : List ℕ) → trim_suffix 34 (xs ++ 34 ∷ []) ≡ xs
trimmed xs = rw (reverse-append xs (34 ∷ [])) (reverse-reverse xs)

-- A name between quotes, as JSON gives it.
abbrev pub quoted : List ℕ → List ℕ
quoted body = 34 ∷ body ++ 34 ∷ []

unquoted :
    (body : List ℕ) → worker_names (quoted body) ≡ ((split 46 body).0, rig_of (split 46 body).1)
unfolding worker_names
unquoted body = rw (trimmed body) refl

-- A quoted name whose parts have no dot is taken apart into the miner and the rig; what follows a
-- second dot is dropped, and a name without a dot has the rig `unknown`.
pub worker_names-quoted :
    (miner rig rest : List ℕ)
    → IsPlain miner
    → IsPlain rig
    → (worker_names (quoted (miner ++ 46 ∷ rig)) ≡ (miner, rig))
      × (worker_names (quoted (miner ++ 46 ∷ (rig ++ 46 ∷ rest))) ≡ (miner, rig))
      × (worker_names (quoted miner) ≡ (miner, unknown))
worker_names-quoted miner rig rest h k = (
  unquoted _ ∙ rw (split_plain miner rig h, split_only rig k) refl,
  unquoted _ ∙ rw (split_plain miner (rig ++ 46 ∷ rest) h, split_plain rig rest k) refl,
  unquoted _ ∙ rw (split_only miner h) refl,
)
