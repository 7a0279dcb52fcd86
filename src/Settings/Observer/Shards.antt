-- ===== src/Settings/Observer/Shards.antt =====
-- When settings/observer.go takes a response with the shards for a duplicate.
use stratumserver.Prelude.{
  ℕ, ◌≤◌, ◌<◌, ◌≡◌, refl, sym, ◌∙◌, ◌↔◌, Bool, true, false, not, List, [], ◌∷◌, some, arith, ◌==◌,
  ==_iff, Bool-cases, inl, inr, if◌then◌else◌, length, subst,
}
use stratumserver.Settings.Observer.{
  World, Observer, ShardListResult, fetched, duplicated_response, is_present, all_present,
  compare_shards, fetch_shards_info,
}

module _ {F Address Info : Type 0} (w : World F Address Info) where
  abbrev Shards : Type 0
  Shards = List (ℕ × Info)

  -- A map has each key once.
  unfoldable pub IsMap : Shards → Type 0
  IsMap [] = Unit
  IsMap ((k, v) ∷ m) = (is_present w k m ≡ false) × IsMap m

  -- The keys of the one are keys of the other.
  abbrev pub Subset : Shards → Shards → Type 0
  Subset a b = (k : ℕ) → is_present w k a ≡ true → is_present w k b ≡ true

  without : ℕ → Shards → Shards
  without k [] = []
  without k ((j, v) ∷ m) = let rest = without k m in if k == j then rest else (j, v) ∷ rest

  without_ne :
      (j k : ℕ) (m : Shards)
      → (k == j) ≡ false
      → is_present w j m ≡ true
      → is_present w j (without k m) ≡ true
  unfolding without is_present
  without_ne j k [] d h = cc
  without_ne j k ((i, v) ∷ m) d h = ground (arith, without_ne j k m d)

  without_le : (k : ℕ) (m : Shards) → length (without k m) ≤ length m
  unfolding without
  without_le k [] = omega arith
  without_le k ((j, v) ∷ m) = ground (arith, without_le k m)

  without_lt : (k : ℕ) (m : Shards) → is_present w k m ≡ true → length (without k m) < length m
  unfolding without is_present
  without_lt k [] h = cc
  without_lt k ((j, v) ∷ m) h = ground (arith, without_lt k m, without_le k m)

  head_present : (k : ℕ) (v : Info) (m : Shards) → is_present w k ((k, v) ∷ m) ≡ true
  unfolding is_present
  head_present k v m = ground (arith, ==_iff k k)

  tail_present :
      (j k : ℕ) (v : Info) (m : Shards)
      → is_present w j m ≡ true
      → is_present w j ((k, v) ∷ m) ≡ true
  unfolding is_present
  tail_present j k v m h = ground arith

  apart :
      (j k : ℕ) (m : Shards) → is_present w k m ≡ false → is_present w j m ≡ true → (k == j) ≡ false
  apart j k m new old = elim (Bool-cases (k == j)) [
    | inl e ↦ let same : k ≡ j = (==_iff k j).0 e in cc
    | inr other ↦ other
  ]

  tail-Subset :
      (k : ℕ) (v : Info) (m b : Shards)
      → is_present w k m ≡ false
      → Subset ((k, v) ∷ m) b
      → Subset m (without k b)
  tail-Subset k v m b new sub j h =
      without_ne j k b (apart j k m new h) (sub j (tail_present j k v m h))

  subset_le : (a b : Shards) → IsMap a → Subset a b → length a ≤ length b
  unfolding IsMap
  subset_le [] b u sub = omega arith
  subset_le ((k, v) ∷ a) b (new, u) sub = omega (
    arith,
    without_lt k b (sub k (head_present k v a)),
    subset_le a (without k b) u (tail-Subset k v a b new sub),
  )

  -- A map of at least as many keys has no key more.
  subset_ge : (a b : Shards) → IsMap a → Subset a b → length b ≤ length a → Subset b a
  unfolding IsMap
  subset_ge [] [] u sub few j h = h
  subset_ge [] (x ∷ b) u sub few j h = absurd (omega arith)
  subset_ge ((k, v) ∷ a) b (new, u) sub few j h = elim (Bool-cases (k == j)) [
    | inl e ↦
        subst (λ x. is_present w x ((k, v) ∷ a) ≡ true) ((==_iff k j).0 e) (head_present k v a)
    | inr other ↦ tail_present j k v a (
        subset_ge a (without k b) u (tail-Subset k v a b new sub)
          (omega (arith, without_lt k b (sub k (head_present k v a)))) j (without_ne j k b other h))
  ]

  all_present→Subset : (a b : Shards) → all_present w a b ≡ true → Subset a b
  unfolding all_present is_present
  all_present→Subset [] b h j there = cc
  all_present→Subset ((k, v) ∷ a) b h j there = elim (Bool-cases (j == k)) [
    | inl e ↦ subst (λ x. is_present w x b ≡ true) (sym ((==_iff j k).0 e)) (ground arith)
    | inr other ↦ all_present→Subset a b (ground arith) j (ground arith)
  ]

  Subset→all_present : (a b : Shards) → Subset a b → all_present w a b ≡ true
  unfolding all_present
  Subset→all_present [] b sub = refl
  Subset→all_present ((k, v) ∷ a) b sub =
      rw (sub k (head_present k v a), Subset→all_present a b λ j h. sub j (tail_present j k v a h))
        refl

  -- The two maps have the same keys.
  abbrev pub SameKeys : Shards → Shards → Type 0
  SameKeys a b = (k : ℕ) → is_present w k a ≡ is_present w k b

  same_lengths : (a b : Shards) → IsMap a → IsMap b → SameKeys a b → length b ≡ length a
  same_lengths a b ua ub same =
      omega (arith, subset_le a b ua λ k h. sym (same k) ∙ h, subset_le b a ub λ k h. same k ∙ h)

  mutual_keys : (a b : Shards) → Subset a b → Subset b a → SameKeys a b
  mutual_keys a b there back k = elim (Bool-cases (is_present w k a)) [
    | inl h ↦ h ∙ sym (there k h)
    | inr h ↦ elim (Bool-cases (is_present w k b)) [ inl g ↦ back k g ∙ sym g | inr g ↦ h ∙ sym g ]
  ]

  both_true :
      (x : Shards) (p q : Bool)
      → (if not p then fetched x else (if not q then fetched x else duplicated_response))
        ≡ duplicated_response
      → (p ≡ true) × (q ≡ true)
  both_true x true true h = (refl, refl)
  both_true x true false h = cc
  both_true x false q h = cc

  compare_lem :
      (cached response : ShardListResult Info)
      → IsMap cached.shards
      → IsMap response.shards
      → (compare_shards w (some cached) response ≡ duplicated_response)
        ↔ SameKeys cached.shards response.shards
  unfolding compare_shards
  compare_lem cached response uc ur = (
    λ h.
        let (lengths, all) =
          both_true response.shards (length response.shards == length cached.shards)
            (all_present w cached.shards response.shards) h in
        let sub = all_present→Subset cached.shards response.shards all in
        mutual_keys cached.shards response.shards sub
          (subset_ge cached.shards response.shards uc sub (ground (arith, lengths))),
    λ same.
        rw
          (
            (==_iff (length response.shards) (length cached.shards)).1
                (same_lengths cached.shards response.shards uc ur same),
            Subset→all_present cached.shards response.shards (λ k h. sym (same k) ∙ h),
          )
          refl,
  )

  -- A response is refused as a duplicate exactly when it has the keys of the one before: what is known
  -- of a shard is not compared. Either way it is the one that is kept.
  pub fetch_shards_info_duplicated :
      (o : Observer F Address Info) (client : ℕ) (cached response : ShardListResult Info)
      → w.connect o.config ≡ inl client
      → w.list_shards client ≡ inl response
      → o.cached_shards_response ≡ some cached
      → IsMap cached.shards
      → IsMap response.shards
      → ((fetch_shards_info w o).0.cached_shards_response ≡ some response)
        × (((fetch_shards_info w o).1 ≡ duplicated_response)
            ↔ SameKeys cached.shards response.shards)
  unfolding fetch_shards_info
  fetch_shards_info_duplicated o client cached response up listed kept uc ur =
      rw (up, listed, kept) (refl, compare_lem cached response uc ur)
