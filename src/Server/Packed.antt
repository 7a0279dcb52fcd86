-- ===== src/Server/Packed.antt =====
-- The state word of a connection: what setState packs, getState unpacks.
use Prim.Native.Nat.{bit_or, digits, bit_or-bitwise, max}
use native.Mathlib.Nat.{pow-suc}
use stratumserver.Prelude.{
  ◌≢◌, ℕ, zero, suc, ◌+◌, ◌*◌, ◌/◌, ◌%◌, ◌^◌, ◌≤◌, ◌<◌, ◌≡◌, refl, ap, ◌∙◌, arith, some,
  if◌then◌else◌, ◌==◌, false, ◌||◌, ==_iff,
}
use stratumserver.Prelude.Int.{ℤ, pos, ltb_ℤ, ◌*ℤ◌}
use stratumserver.Prelude.Int64.{wrap64, bits64, mul64}
use stratumserver.Server.{Server, pack_state, set_state, get_state, track_conn, tracked}

-- The digits of `a | b`, lowest first.
abbrev or_digits : ℕ → ℕ → ℕ → ℕ
or_digits n a b = digits (λ c. c) max n a b

or_digits_fuel : (n m a b : ℕ) → a ≤ n → a ≤ m → or_digits n a b ≡ or_digits m a b
or_digits_fuel zero zero a b p q = refl
or_digits_fuel zero (suc m) zero b p q = refl
or_digits_fuel zero (suc m) (suc a) b p q = absurd (omega arith)
or_digits_fuel (suc n) zero zero b p q = refl
or_digits_fuel (suc n) zero (suc a) b p q = absurd (omega arith)
or_digits_fuel (suc n) (suc m) zero b p q = refl
or_digits_fuel (suc n) (suc m) (suc a) b p q =
    omega (arith, or_digits_fuel n m (suc a / 2) (b / 2) (omega arith) (omega arith))

zero-bit_or : (b : ℕ) → bit_or 0 b ≡ b
zero-bit_or b = bit_or-bitwise 0 b

bit_or_step : (a b : ℕ) → bit_or a b ≡ bit_or (a / 2) (b / 2) * 2 + max (a % 2) (b % 2)
bit_or_step zero b = omega (arith, zero-bit_or b, zero-bit_or (b / 2))
bit_or_step (suc a) b = omega (
  arith,
  bit_or-bitwise (suc a) b,
  bit_or-bitwise (suc a / 2) (b / 2),
  or_digits_fuel a (suc a / 2) (suc a / 2) (b / 2) (omega arith) (omega arith),
)

bit_or-zero : (n a : ℕ) → a ≤ n → bit_or a 0 ≡ a
bit_or-zero n zero h = zero-bit_or 0
bit_or-zero zero (suc a) h = absurd (omega arith)
bit_or-zero (suc n) (suc a) h =
    omega (arith, bit_or_step (suc a) 0, bit_or-zero n (suc a / 2) (omega arith))

double-bit_or : (x s : ℕ) → bit_or x (s / 2) ≡ x + s / 2 → bit_or (x * 2) s ≡ x * 2 + s
double-bit_or x s h =
    let half : x * 2 / 2 ≡ x = omega arith in
    bit_or_step (x * 2) s
    ∙ ap (λ (y : ℕ). bit_or y (s / 2) * 2 + max (x * 2 % 2) (s % 2)) half
    ∙ omega (arith, h)

low_bits-bit_or : (k t s : ℕ) → s < 2 ^ k → bit_or (t * 2 ^ k) s ≡ t * 2 ^ k + s
low_bits-bit_or zero t s h =
    let none : s ≡ 0 = omega arith in
    rw none (bit_or-zero (t * 1) (t * 1) (omega arith) ∙ omega arith)
low_bits-bit_or (suc k) t s h =
    let e : t * 2 ^ suc k ≡ t * 2 ^ k * 2 = omega (arith, ap (λ (p : ℕ). t * p) (pow-suc 2 k)) in
    rw e (double-bit_or (t * 2 ^ k) s (low_bits-bit_or k t (s / 2) (omega (arith, pow-suc 2 k))))

-- A state in the low byte joins the time above it without a carry.
or_low_byte : (t s : ℕ) → s < 256 → bit_or (t * 256) s ≡ t * 256 + s
or_low_byte t s h = low_bits-bit_or 8 t s h

shifted : (t : ℕ) → t < 2 ^ 55 → bits64 (mul64 (pos t) (pos 256)) ≡ t * 256
unfolding wrap64 ◌*ℤ◌
shifted t h = ground arith

pub pack_state_lem : (t s : ℕ) → t < 2 ^ 55 → s < 256 → pack_state (pos t) (pos s) ≡ t * 256 + s
unfolding pack_state
pack_state_lem t s ht hs =
    let small : bits64 (pos s) ≡ s = omega arith in rw (shifted t ht, small) (or_low_byte t s hs)

unpacked : (t : ℕ) → t < 2 ^ 55 → wrap64 (pos t) ≡ pos t
unfolding wrap64
unpacked t h = ground arith

pair_eq :
    (t n : ℕ)
    → t < 2 ^ 55
    → n < 256
    → ◌≡◌ {A = ℤ × ℤ} (pos ((t * 256 + n) % 256), wrap64 (pos ((t * 256 + n) / 256))) (pos n, pos t)
pair_eq t n ht hn =
    let low : (t * 256 + n) % 256 ≡ n = omega arith in
    let high : (t * 256 + n) / 256 ≡ t = omega arith in rw (low, high, unpacked t ht)

ne_test : (d c : ℕ) → d ≢ c → (d == c) ≡ false
ne_test d c h = ground arith

-- Tracking leaves the state words alone.
kept_word :
    (s : Server) (c : ℕ) (state : ℤ) (d : ℕ) → (tracked s c state).cur_state d ≡ s.cur_state d
unfolding track_conn
kept_word s c state d = ground arith

-- After setState with a state below 256 at a time below 2^55, getState of the connection gives
-- that state and that time, and the state words of the other connections are as they were.
pub get_state-set_state :
    (s : Server) (t c n d : ℕ)
    → t < 2 ^ 55
    → n < 256
    → d ≢ c
    → (s' : Server) × (set_state s (pos t) c (pos n) ≡ some s')
      × (get_state s' c ≡ (pos n, pos t))
      × (get_state s' d ≡ get_state s d)
unfolding set_state get_state
get_state-set_state s t c n d ht hn ne =
    let fits : (ltb_ℤ (pos 0xff) (pos n) || ltb_ℤ (pos n) (pos 0)) ≡ false = ground arith in
    (
      record (tracked s c (pos n)) {
        cur_state =
            λ d. if d == c then pack_state (pos t) (pos n) else (tracked s c (pos n)).cur_state d;
      },
      rw fits,
      rw ((==_iff c c).1 refl, pack_state_lem t n ht hn) (pair_eq t n ht hn),
      rw (ne_test d c ne, kept_word s c (pos n) d),
    )
