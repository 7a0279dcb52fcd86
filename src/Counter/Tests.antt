-- ===== src/Counter/Tests.antt =====
-- Two identifiers of one counter.
use stratumserver.Prelude.{◌+◌, ◌-◌, ◌%◌, ◌^◌, ◌≡◌, ◌≢◌, arith, le_bytes}
use stratumserver.Counter.{new_subscription_counter}
use stratumserver.Counter.Ids.{nth_id, nth_id_lem, nth_id-distinct}

nth_id_lem_example : nth_id 4 new_subscription_counter ≡ le_bytes 8 ((4 + 1) % (2 ^ 64 - 1))
nth_id_lem_example = nth_id_lem 4

nth_id-distinct_example : nth_id 3 new_subscription_counter ≢ nth_id 1000 new_subscription_counter
nth_id-distinct_example = nth_id-distinct 3 1000 (omega arith) (omega arith)
