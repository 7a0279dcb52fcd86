-- ===== src/Server/Logging/Names.antt =====
-- The names that newLoggingConn of stratum/server/server.go gives.
use stratumserver.Prelude.{
  ◌⊎◌, ℕ, suc, ◌+◌, ◌<◌, ◌^◌, ◌≡◌, ◌≢◌, refl, sym, ap, ◌∙◌, List, [], ◌∷◌, Option, some, length,
  bytes_eq, bytes_eq_iff, Bool-cases, inl, inr, All, arith,
}
use stratumserver.Prelude.Int.{pos, ◌+ℤ◌}
use stratumserver.Prelude.Int64.{add64, wrap64}
use stratumserver.Prelude.Decimal.{parse_suffix, parse_suffix_lem}
use stratumserver.Server.Logging.{Counts, name_of, put_count, names}

-- No two of them are the same.
pub IsDistinct : List (List ℕ) → Type 0
IsDistinct [] = Unit
IsDistinct (x ∷ xs) = All (λ y. x ≢ y) xs × IsDistinct xs

-- Every count is a number to which `n` can be added.
IsRoomy : Counts → ℕ → Type 0
IsRoomy m n = (b : List ℕ) → (k : ℕ) × (m b ≡ pos k) × (k + n < 2 ^ 63)

-- A name with a count above that of its base.
IsLater : Counts → List ℕ → Type 0
IsLater m name = (b : List ℕ) × (j k : ℕ) × (m b ≡ pos j) × (j < k) × (name ≡ name_of b (pos k))

incremented : (k n : ℕ) → k + suc n < 2 ^ 63 → add64 (pos k) (pos 1) ≡ pos (suc k)
unfolding wrap64 ◌+ℤ◌
incremented k n h = ground arith

both_parts :
    {a b : List ℕ} {j k : ℕ}
    → Path (Option (List ℕ × ℕ)) (some (a, j)) (some (b, k))
    → (a ≡ b) × (j ≡ k)
both_parts e = (cc, cc)

same_name : (b c : List ℕ) (j k : ℕ) → name_of b (pos j) ≡ name_of c (pos k) → (b ≡ c) × (j ≡ k)
same_name b c j k e = both_parts (
    sym (parse_suffix_lem 45 b j (inl (omega arith)))
    ∙ ap (parse_suffix 45) e
    ∙ parse_suffix_lem 45 c k (inl (omega arith)))

-- The counts after one more call for the base, whose count was `k`.
count_after :
    (m : Counts) (base b : List ℕ) (k n : ℕ)
    → m base ≡ pos k
    → k + suc n < 2 ^ 63
    → ((b ≡ base) × (put_count base (add64 (m base) (pos 1)) m b ≡ pos (suc k)))
      ⊎ (put_count base (add64 (m base) (pos 1)) m b ≡ m b)
count_after m base b k n at room = elim (Bool-cases (bytes_eq b base)) [
  | inl e ↦ inl ((bytes_eq_iff b base).0 e, rw (e, at) (incremented k n room))
  | inr e ↦ inr (rw e refl)
]

IsRoomy-after :
    (m : Counts) (base : List ℕ) (n : ℕ)
    → IsRoomy m (suc n)
    → IsRoomy (put_count base (add64 (m base) (pos 1)) m) n
unfolding IsRoomy
IsRoomy-after m base n roomy b =
    let (k, at, room) = roomy base in
    elim (count_after m base b k n at room) [
      | inl (same, e) ↦ (suc k, e, omega (arith, room))
      | inr e ↦ let (j, at', room') = roomy b in (j, e ∙ at', omega (arith, room'))
    ]

same_pos : {a b : ℕ} → pos a ≡ pos b → a ≡ b
same_pos e = cc

IsLater-before :
    (m : Counts) (base : List ℕ) (k n : ℕ)
    → m base ≡ pos k
    → k + suc n < 2 ^ 63
    → (name : List ℕ) → IsLater (put_count base (add64 (m base) (pos 1)) m) name
    → IsLater m name
unfolding IsLater
IsLater-before m base k n at room name (b, i, j, counted, above, e) =
    elim (count_after m base b k n at room) [
      | inl (same, now) ↦
          (b, k, j, ap m same ∙ at, omega (arith, above, same_pos (sym now ∙ counted)), e)
      | inr now ↦ (b, i, j, sym now ∙ counted, above, e)
    ]

IsLater-head :
    (m : Counts) (base : List ℕ) (k n : ℕ)
    → m base ≡ pos k
    → k + suc n < 2 ^ 63
    → IsLater m (name_of base (add64 (m base) (pos 1)))
unfolding IsLater
IsLater-head m base k n at room = (
  base,
  k,
  suc k,
  at,
  omega arith,
  ap (name_of base) (ap (λ t. add64 t (pos 1)) at ∙ incremented k n room),
)

All_mono {ℓ κ μ} :
    {A : Type ℓ} {P : A → Type κ} {Q : A → Type μ}
    → ((x : A) → P x → Q x)
    → (xs : List A) → All P xs
    → All Q xs
All_mono f [] h = tt
All_mono f (x ∷ xs) (p, h) = (f x p, All_mono f xs h)

names-IsLater :
    (bases : List (List ℕ)) (m : Counts)
    → IsRoomy m (length bases)
    → All (IsLater m) (names m bases)
unfolding names IsRoomy
names-IsLater [] m roomy = tt
names-IsLater (base ∷ bases) m roomy =
    let (k, at, room) = roomy base in
    (
      IsLater-head m base k (length bases) at room,
      All_mono (IsLater-before m base k (length bases) at room) _
          (names-IsLater bases _ (IsRoomy-after m base (length bases) roomy)),
    )

-- A later name is not the one that was just given.
apart :
    (m : Counts) (base : List ℕ) (k n : ℕ)
    → m base ≡ pos k
    → k + suc n < 2 ^ 63
    → (name : List ℕ) → IsLater (put_count base (add64 (m base) (pos 1)) m) name
    → name_of base (add64 (m base) (pos 1)) ≢ name
unfolding IsLater
apart m base k n at room name (b, i, j, counted, above, e) same =
    let step : add64 (m base) (pos 1) ≡ pos (suc k) =
      ap (λ t. add64 t (pos 1)) at ∙ incremented k n room in
    let (bases, counts) = same_name base b (suc k) j (sym (ap (name_of base) step) ∙ same ∙ e) in
    let now : put_count base (add64 (m base) (pos 1)) m base ≡ pos (suc k) =
      rw ((bytes_eq_iff base base).1 refl) step in
    let before : pos (suc k) ≡ pos i =
      sym now ∙ ap (put_count base (add64 (m base) (pos 1)) m) bases ∙ counted in
    absurd (omega (arith, above, counts, same_pos before))

names_apart :
    (bases : List (List ℕ)) (m : Counts) → IsRoomy m (length bases) → IsDistinct (names m bases)
unfolding names IsDistinct IsRoomy
names_apart [] m roomy = tt
names_apart (base ∷ bases) m roomy =
    let (k, at, room) = roomy base in
    let after = IsRoomy-after m base (length bases) roomy in
    (
      All_mono (apart m base k (length bases) at room) _ (names-IsLater bases _ after),
      names_apart bases _ after,
    )

-- Fewer than 2^63 calls give names of which no two are the same, whatever the bases are, also if one base
-- looks like a name for another.
pub names-IsDistinct :
    (bases : List (List ℕ)) → length bases < 2 ^ 63 → IsDistinct (names (λ b. pos 0) bases)
unfolding IsRoomy
names-IsDistinct bases few = names_apart bases (λ b. pos 0) (λ b. (0, refl, omega (arith, few)))
