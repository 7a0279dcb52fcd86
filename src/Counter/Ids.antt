-- ===== src/Counter/Ids.antt =====
-- The identifiers that SubscriptionCounter gives.
use stratumserver.Prelude.{
  ℕ, zero, suc, ◌+◌, ◌-◌, ◌%◌, ◌^◌, ◌<◌, ◌≡◌, ◌≢◌, refl, sym, ap, ◌∙◌, List, [], le_bytes,
  of_le_bytes, of_le_bytes-le_bytes, arith,
}
use stratumserver.Counter.{SubscriptionCounter, new_subscription_counter, next}

-- The identifier of the `suc n`-th call, and the counter after `n` of them.
pub after : ℕ → SubscriptionCounter → SubscriptionCounter
after zero sc = sc
after (suc n) sc = after n (next sc).0

pub nth_id : ℕ → SubscriptionCounter → List ℕ
nth_id n sc = (next (after n sc)).1

next_count :
    (sc : SubscriptionCounter)
    → sc.count < 2 ^ 64 - 1
    → ((next sc).0.count ≡ (sc.count + 1) % (2 ^ 64 - 1)) × ((next sc).0.count < 2 ^ 64 - 1)
unfolding next
next_count sc h = ground arith

after_count :
    (n : ℕ) (sc : SubscriptionCounter)
    → sc.count < 2 ^ 64 - 1
    → (after n sc).count ≡ (sc.count + n) % (2 ^ 64 - 1)
unfolding after
after_count zero sc h = omega arith
after_count (suc n) sc h =
    let (e, k) = next_count sc h in after_count n (next sc).0 k ∙ omega (arith, e)

next_id : (sc : SubscriptionCounter) → sc.padding ≡ [] → (next sc).1 ≡ le_bytes 8 (next sc).0.count
unfolding next
next_id sc h = rw h refl

after-padding : (n : ℕ) (sc : SubscriptionCounter) → (after n sc).padding ≡ sc.padding
unfolding after
after-padding zero sc = refl
after-padding (suc n) sc = after-padding n (next sc).0 ∙ unfold next in refl

-- The identifier of the `suc n`-th call on a new counter is `n + 1`, modulo 2 ^ 64 - 1, in eight
-- bytes, lowest first.
pub nth_id_lem : (n : ℕ) → nth_id n new_subscription_counter ≡ le_bytes 8 ((n + 1) % (2 ^ 64 - 1))
unfolding nth_id
nth_id_lem n =
    let sc = after n new_subscription_counter in
    let e : sc.count ≡ n % (2 ^ 64 - 1) =
      after_count n new_subscription_counter (unfold new_subscription_counter in omega arith)
      ∙ (unfold new_subscription_counter in omega arith) in
    next_id sc
      (after-padding n new_subscription_counter ∙ (unfold new_subscription_counter in refl))
    ∙ ap (le_bytes 8) ((next_count sc (omega (arith, e))).0 ∙ omega (arith, e))

-- Two calls on a counter that are fewer than 2 ^ 64 - 1 calls apart have different identifiers.
pub nth_id-distinct :
    (m n : ℕ)
    → m < n
    → n < m + (2 ^ 64 - 1)
    → nth_id m new_subscription_counter ≢ nth_id n new_subscription_counter
nth_id-distinct m n h k e =
    let same : (m + 1) % (2 ^ 64 - 1) ≡ (n + 1) % (2 ^ 64 - 1) =
      sym (of_le_bytes-le_bytes 8 _ (omega arith))
      ∙ ap of_le_bytes (sym (nth_id_lem m) ∙ e ∙ nth_id_lem n)
      ∙ of_le_bytes-le_bytes 8 _ (omega arith) in
    omega (arith, same)
