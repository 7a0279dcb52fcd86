-- ===== src/Vardiff/Float.antt =====
-- float64 as an interface: the operations that the code uses, and facts of IEEE 754 about them.
use stratumserver.Prelude.{ℕ, ◌<◌, ◌≡◌, Bool, true, false}
use stratumserver.Prelude.Int.{ℤ, pos}

pub record Float64 : Type 1 where
  pub F : Type 0
  pub of_int64 : ℤ → F
  pub half : F
  pub add : F → F → F
  pub sub : F → F → F
  pub mul : F → F → F
  pub div : F → F → F
  pub lt : F → F → Bool
  pub le : F → F → Bool

-- Rounding keeps the order, so a product with a factor of at least 1 does not fall, and so on. No
-- comparison holds of a NaN; all NaNs are one value. An infinite factor makes no NaN where a law speaks
-- of a product, since the other one is not 0.
pub record IsIeee (f : Float64) : Type 0 where
  pub lt-le_trans : (a b c : f.F) → f.lt a b ≡ true → f.le b c ≡ true → f.lt a c ≡ true
  pub le_trans : (a b c : f.F) → f.le a b ≡ true → f.le b c ≡ true → f.le a c ≡ true
  pub lt-not_le : (a b : f.F) → f.lt a b ≡ true → f.le b a ≡ false
  pub le-not_lt : (a b : f.F) → f.le b a ≡ true → f.lt a b ≡ false
  pub lt-not_lt : (a b : f.F) → f.lt a b ≡ true → f.lt b a ≡ false
  pub mul_comm : (a b : f.F) → f.mul a b ≡ f.mul b a
  pub le-mul :
      (c d : f.F)
      → f.lt (f.of_int64 (pos 0)) c ≡ true
      → f.le (f.of_int64 (pos 1)) d ≡ true
      → f.le c (f.mul c d) ≡ true
  pub one-le-div :
      (n : ℤ) (b : f.F)
      → f.lt (f.of_int64 (pos 0)) b ≡ true
      → f.le b (f.of_int64 n) ≡ true
      → f.le (f.of_int64 (pos 1)) (f.div (f.of_int64 n) b) ≡ true
  pub sub_nonpos :
      (v : f.F)
      → f.le (f.of_int64 (pos 1)) v ≡ true
      → f.le (f.sub (f.of_int64 (pos 1)) v) (f.of_int64 (pos 0)) ≡ true
  pub mul_nonpos :
      (t : ℕ) (x : f.F)
      → 0 < t
      → f.le x (f.of_int64 (pos 0)) ≡ true
      → f.le (f.mul (f.of_int64 (pos t)) x) (f.of_int64 (pos 0)) ≡ true
