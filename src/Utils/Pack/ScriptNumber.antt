-- ===== src/Utils/Pack/ScriptNumber.antt =====
-- SerializeNumber: small numbers as an opcode, others behind a length byte, lowest byte first.
use native.Mathlib.Nat.{pow-suc, zero-add}
use stratumserver.Prelude.{
  ℕ, zero, suc, ◌+◌, ◌*◌, ◌/◌, ◌%◌, ◌^◌, ◌≤◌, ◌<◌, ◌≡◌, refl, ap, ◌∙◌, ◌⊎◌, inl, inr, List, [], ◌∷◌,
  ◌++◌, append_assoc, Option, none, some, true, false, ◌&&◌, arith, length, length-append,
  length-set, take, set, replicate, ltb, leb, Bool-cases, lt→ltb, if◌then◌else◌, of_le_bytes,
  IsByte, All, ◌>>=◌,
}
use stratumserver.Utils.Pack.{put, number_loop, number_close, serialize_number}

-- The shortest bytes of `n`, lowest first, of which the last has its top bit clear; `k` bounds how
-- many stand before the last.
unfoldable pub payload : ℕ → ℕ → List ℕ
payload zero n = n ∷ []
payload (suc k) n =
    let rest = payload k (n / 256) in if ltb 0x7f n then (n % 256) ∷ rest else n ∷ []

of_le_bytes-payload : (k n : ℕ) → of_le_bytes (payload k n) ≡ n
unfolding payload of_le_bytes
of_le_bytes-payload zero n = omega arith
of_le_bytes-payload (suc k) n = ground (arith, of_le_bytes-payload k (n / 256))

length-payload : (k n : ℕ) → (1 ≤ length (payload k n)) × (length (payload k n) ≤ suc k)
unfolding payload
length-payload zero n = omega arith
length-payload (suc k) n = ground (arith, length-payload k (n / 256))

payload-IsByte : (k n : ℕ) → n < 128 * 256 ^ k → All IsByte (payload k n)
unfolding payload
payload-IsByte zero n h = omega arith
payload-IsByte (suc k) n h =
    ground (arith, payload-IsByte k (n / 256) (omega (arith, pow-suc 256 k)))

set_at_length :
    (pre : List ℕ) (x v : ℕ) (r : List ℕ) → set (pre ++ x ∷ r) (length pre) v ≡ pre ++ v ∷ r
set_at_length [] x v r = refl
set_at_length (p ∷ pre) x v r = ap (λ t. p ∷ t) (set_at_length pre x v r)

take_past :
    (pre : List ℕ) (v : ℕ) (r : List ℕ) → take (suc (length pre)) (pre ++ v ∷ r) ≡ pre ++ v ∷ []
take_past [] v r = refl
take_past (p ∷ pre) v r = ap (λ t. p ∷ t) (take_past pre v r)

put_at_length :
    (pre : List ℕ) (x v : ℕ) (r : List ℕ) → put (pre ++ x ∷ r) (length pre) v ≡ some (pre ++ v ∷ r)
put_at_length pre x v r = ground (arith, length-append pre (x ∷ r), set_at_length pre x v r)

-- The last step, on a buffer that holds the bytes `pre` behind its count.
number_close_lem :
    (pre r : List ℕ) (n x : ℕ)
    → n < 256
    → length pre < 255
    → number_close (suc (length pre)) n (0 ∷ (pre ++ x ∷ r))
      ≡ some ((length pre + 1) ∷ (pre ++ n ∷ []))
unfolding number_close
number_close_lem pre r n x h l =
    let past : suc (length pre) + 1 ≡ suc (suc (length pre)) = omega arith in
    rw past (ground (arith, length-append pre (x ∷ r), set_at_length pre x n r, take_past pre n r))

-- One round appends a byte to those that are written.
number_round :
    (fuel z : ℕ) (pre : List ℕ) (n : ℕ)
    → ltb 0x7f n ≡ true
    → number_loop (suc fuel) (suc (length pre)) n (0 ∷ (pre ++ replicate (suc z) 0))
      ≡ number_loop fuel
          (suc (length (pre ++ (n % 256) ∷ [])))
          (n / 256)
          (0 ∷ (pre ++ (n % 256) ∷ [] ++ replicate z 0))
unfolding number_loop
number_round fuel z pre n h =
    let next : suc (length pre) + 1 ≡ suc (length (pre ++ (n % 256) ∷ [])) =
      omega (arith, length-append pre ((n % 256) ∷ [])) in
    let written : put (0 ∷ (pre ++ replicate (suc z) 0)) (suc (length pre)) (n % 256)
        ≡ some (0 ∷ (pre ++ (n % 256) ∷ replicate z 0)) =
      put_at_length (0 ∷ pre) 0 (n % 256) (replicate z 0) in
    rw (h, written, next, append_assoc pre ((n % 256) ∷ []) (replicate z 0))

number_done :
    (fuel z k : ℕ) (pre : List ℕ) (n : ℕ)
    → ltb 0x7f n ≡ false
    → length pre + suc z ≤ 8
    → (number_loop (suc fuel) (suc (length pre)) n (0 ∷ (pre ++ replicate (suc z) 0))
        >>= λ (l, m, buff). number_close l m buff)
      ≡ some ((length pre + length (payload k n)) ∷ (pre ++ payload k n))
unfolding number_loop payload
number_done fuel z zero pre n h l =
    rw h (number_close_lem pre (replicate z 0) n 0 (ground arith) (omega arith))
number_done fuel z (suc k) pre n h l =
    rw h (number_close_lem pre (replicate z 0) n 0 (ground arith) (omega arith))

payload_more : (k n : ℕ) → ltb 0x7f n ≡ true → payload (suc k) n ≡ (n % 256) ∷ payload k (n / 256)
unfolding payload
payload_more k n h = rw h

joined :
    (pre : List ℕ) (b : ℕ) (p : List ℕ)
    → ◌≡◌ {A = Option (List ℕ)}
        (some ((length (pre ++ b ∷ []) + length p) ∷ (pre ++ b ∷ [] ++ p)))
        (some ((length pre + length (b ∷ p)) ∷ (pre ++ b ∷ p)))
joined pre b p = ground (arith, length-append pre (b ∷ []), append_assoc pre (b ∷ []) p)

number_loop_lem :
    (k z fuel : ℕ) (pre : List ℕ) (n : ℕ)
    → n < 128 * 256 ^ k
    → k < z
    → length pre + z ≤ 8
    → k < fuel
    → (number_loop fuel (suc (length pre)) n (0 ∷ (pre ++ replicate z 0)) >>= λ (l, m, buff).
        number_close l m buff)
      ≡ some ((length pre + length (payload k n)) ∷ (pre ++ payload k n))
number_loop_lem k zero fuel pre n h kz pz kf = absurd (omega arith)
number_loop_lem k (suc z) zero pre n h kz pz kf = absurd (omega arith)
number_loop_lem zero (suc z) (suc fuel) pre n h kz pz kf =
    number_done fuel z zero pre n (ground arith) pz
number_loop_lem (suc k) (suc z) (suc fuel) pre n h kz pz kf = elim (Bool-cases (ltb 0x7f n)) [
  | inr stop ↦ number_done fuel z (suc k) pre n stop pz
  | inl more ↦
      let b : List ℕ = (n % 256) ∷ [] in
      rw (number_round fuel z pre n more, payload_more k n more)
        (number_loop_lem k z fuel (pre ++ b) (n / 256) (omega (arith, pow-suc 256 k)) (omega arith)
            (omega (arith, length-append pre b)) (omega arith)
          ∙ joined pre (n % 256) (payload k (n / 256)))
]

outside : (n : ℕ) → (leb 1 n && leb n 16) ≡ false → (n ≡ 0) ⊎ (16 < n)
outside zero h = inl refl
outside (suc n) h = inr (ground (arith, h))

-- SerializeNumber of a number from 1 to 16 is the opcode OP_1 … OP_16. Of 0 and of every other
-- number below 2^63 it is a count byte and the bytes of the number, lowest first: 1 to 8 bytes, as
-- many as the count says, that stand for the number.
pub serialize_number_lem :
    (n : ℕ)
    → n < 2 ^ 63
    → ((1 ≤ n) × (n ≤ 16) × (serialize_number n ≡ some ((0x50 + n) ∷ [])))
      ⊎ (((n ≡ 0) ⊎ (16 < n))
          × (p : List ℕ) × (serialize_number n ≡ some (length p ∷ p))
          × (of_le_bytes p ≡ n)
          × (1 ≤ length p)
          × (length p ≤ 8)
          × All IsByte p)
unfolding serialize_number
serialize_number_lem n h = elim (Bool-cases (leb 1 n && leb n 16)) [
  | inl small ↦ inl (ground arith, ground arith, rw small (ground arith))
  | inr large ↦ inr (
    outside n large,
    payload 7 n,
    rw large (
        number_loop_lem 7 8 10 [] n (omega arith) (omega arith) (omega arith) (omega arith)
        ∙ ap (λ (t : ℕ). some (t ∷ payload 7 n)) (zero-add (length (payload 7 n)))),
    of_le_bytes-payload 7 n,
    (length-payload 7 n).0,
    (length-payload 7 n).1,
    payload-IsByte 7 n (omega arith),
  )
]

-- Behind the ninth byte of the buffer both the loop and what follows it panic.
past_end :
    (fuel n : ℕ) (buff : List ℕ)
    → length buff ≡ 9
    → (number_loop (suc fuel) 9 n buff >>= λ (l, m, b). number_close l m b) ≡ none
unfolding number_loop number_close
past_end fuel n buff h = ground (arith, length-set buff 0 9)

number_step :
    (fuel l n : ℕ) (buff : List ℕ)
    → 127 < n
    → l < length buff
    → number_loop (suc fuel) l n buff ≡ number_loop fuel (l + 1) (n / 256) (set buff l (n % 256))
unfolding number_loop
number_step fuel l n buff h i = rw (lt→ltb 127 n h, lt→ltb l (length buff) i)

pow_pos : (k : ℕ) → 1 ≤ 256 ^ k
pow_pos zero = omega arith
pow_pos (suc k) = omega (arith, pow_pos k, pow-suc 256 k)

number_overflow :
    (k fuel l n : ℕ) (buff : List ℕ)
    → 128 * 256 ^ k ≤ n
    → l + k ≡ 8
    → length buff ≡ 9
    → suc k < fuel
    → (number_loop fuel l n buff >>= λ (l', m, b). number_close l' m b) ≡ none
number_overflow k zero l n buff big e h f = absurd (omega arith)
number_overflow zero (suc zero) l n buff big e h f = absurd (omega arith)
number_overflow zero (suc (suc fuel)) l n buff big e h f =
    let next : l + 1 ≡ 9 = omega arith in
    rw (number_step (suc fuel) l n buff (omega arith) (omega arith), next)
      (past_end fuel (n / 256) (set buff l (n % 256)) (omega (arith, length-set buff l (n % 256))))
number_overflow (suc k) (suc fuel) l n buff big e h f =
    rw (number_step fuel l n buff (omega (arith, pow_pos k, pow-suc 256 k)) (omega arith)) (
      number_overflow k fuel (l + 1) (n / 256) (set buff l (n % 256)) (omega (arith, pow-suc 256 k))
        (omega arith) (omega (arith, length-set buff l (n % 256))) (omega arith))

-- SerializeNumber panics on every number from 2^63 on: the count byte and the nine bytes that it
-- would write do not fit its buffer of nine.
pub serialize_number_panics : (n : ℕ) → 2 ^ 63 ≤ n → serialize_number n ≡ none
unfolding serialize_number
serialize_number_panics n h =
    let large : (leb 1 n && leb n 16) ≡ false = ground arith in
    rw large
      (number_overflow 7 10 1 n (replicate 9 0) (omega arith) (omega arith) refl (omega arith))
