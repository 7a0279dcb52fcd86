-- ===== src/Counter.antt =====
-- SubscriptionCounter of stratum/server/subscriptionCounter.go and Shares of stratum/server/shares.go.
-- A uint64 is a number below 2 ^ 64.
mod Ids
mod Tests
use stratumserver.Prelude.{
  ℕ, ◌+◌, ◌*◌, ◌-◌, ◌%◌, ◌^◌, ◌==◌, Bool, List, [], ◌∷◌, ◌++◌, if◌then◌else◌, le_bytes,
}
use stratumserver.Vardiff.Float.{Float64}

pub record SubscriptionCounter : Type 0 where
  pub count : ℕ
  pub padding : List ℕ

unfoldable pub new_subscription_counter : SubscriptionCounter
new_subscription_counter = record { count = 0; padding = [] }

-- Next: the counter, and the identifier. MaxUint64 is never given.
unfoldable pub next : SubscriptionCounter → SubscriptionCounter × List ℕ
next sc =
    let count : ℕ = (sc.count + 1) % 2 ^ 64 in
    let count' : ℕ = if count == 2 ^ 64 - 1 then 0 else count in
    (record sc { count = count' }, sc.padding ++ le_bytes 8 count')

pub record Shares : Type 0 where
  pub valid : ℕ
  pub invalid : ℕ

unfoldable pub total_shares : Shares → ℕ
total_shares s = (s.valid + s.invalid) % 2 ^ 64

unfoldable pub reset : Shares → Shares
reset s = record { valid = 0; invalid = 0 }

-- BadPercent over float64 and its conversion from uint64; with no share at all it divides by zero.
unfoldable pub bad_percent : (f : Float64) → (ℕ → f.F) → Shares → f.F
unfolding total_shares
bad_percent f of_uint64 s =
    f.div (of_uint64 (s.invalid * 100 % 2 ^ 64)) (of_uint64 (total_shares s))
