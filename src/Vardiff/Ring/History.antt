-- ===== src/Vardiff/Ring/History.antt =====
-- The ring buffer over any sequence of appends.
use stratumserver.Prelude.{
  ℕ, zero, suc, ◌+◌, ◌-◌, ◌^◌, ◌≤◌, ◌<◌, ◌≡◌, refl, sym, ap, ◌∙◌, false, List, [], ◌∷◌, ◌++◌,
  append_assoc, append-nil, Option, some, arith, length, length-append, length-drop, subst, drop,
  ◌>>=◌,
}
use stratumserver.Prelude.Int.{ℤ, pos}
use stratumserver.Prelude.Int64.{add64}
use stratumserver.Vardiff.Ring.{RingBuffer, new_ring_buffer, eqb_ℤ, append}
use stratumserver.Vardiff.Ring.Refine.{last, IsRing, new_ring_buffer-IsRing, append-IsRing}

drop-nil : (n : ℕ) → drop {A = ℤ} n [] ≡ []
drop-nil zero = refl
drop-nil (suc n) = refl

append_unbounded :
    (rb : RingBuffer) (x : ℤ)
    → rb.is_full ≡ false
    → rb.max_size ≡ pos 0
    → (rb' : RingBuffer) × (append rb x ≡ some rb')
      × (rb'.is_full ≡ false)
      × (rb'.max_size ≡ pos 0)
      × (rb'.elems ≡ rb.elems ++ x ∷ [])
unfolding append
append_unbounded rb x f z =
    let more : eqb_ℤ (pos (length (rb.elems ++ x ∷ []))) rb.max_size ≡ false =
      rw z (ground (arith, length-append rb.elems (x ∷ []))) in
    (
      record rb { elems = rb.elems ++ x ∷ []; cursor = add64 rb.cursor (pos 1) },
      ground (arith, more, f),
      f,
      z,
      refl,
    )

drop-append : (k : ℕ) (xs ys : List ℤ) → k ≤ length xs → drop k (xs ++ ys) ≡ drop k xs ++ ys
drop-append zero xs ys h = refl
drop-append (suc k) [] ys h = absurd (omega arith)
drop-append (suc k) (x ∷ xs) ys h = drop-append k xs ys (omega arith)

drop-drop : (j k : ℕ) (xs : List ℤ) → drop j (drop k xs) ≡ drop (k + j) xs
drop-drop j zero xs = ap (λ n. drop n xs) (omega arith)
drop-drop zero (suc k) [] = sym (drop-nil (suc k + zero))
drop-drop (suc j) (suc k) [] = sym (drop-nil (suc k + suc j))
drop-drop j (suc k) (x ∷ xs) = drop-drop j k xs ∙ ap (λ n. drop n (x ∷ xs)) (shift k j)
  where
    shift : (k j : ℕ) → suc (k + j) ≡ suc k + j
    shift k j = omega arith

-- To keep the last `m` values now and then is to keep them at the end.
last-append-last : (m : ℕ) (xs ys : List ℤ) → last m (last m xs ++ ys) ≡ last m (xs ++ ys)
last-append-last m xs ys =
    let k : ℕ = length xs - m in
    let moved : last m xs ++ ys ≡ drop k (xs ++ ys) = sym (drop-append k xs ys (omega arith)) in
    ap (last m) moved
    ∙ drop-drop (length (drop k (xs ++ ys)) - m) k (xs ++ ys)
    ∙ ap (λ n. drop n (xs ++ ys)) (omega (arith, length-drop k (xs ++ ys), length-append xs ys))

abbrev pub append_all : RingBuffer → List ℤ → Option RingBuffer
append_all rb [] = some rb
append_all rb (x ∷ xs) = do rb' ← append rb x; append_all rb' xs

append_all-IsRing :
    (m : ℕ) (rb : RingBuffer) (seen xs : List ℤ)
    → m < 2 ^ 62
    → IsRing m rb (last m seen)
    → (rb' : RingBuffer) × (append_all rb xs ≡ some rb') × IsRing m rb' (last m (seen ++ xs))
append_all-IsRing m rb seen [] big r =
    (rb, refl, subst (λ q. IsRing m rb (last m q)) (sym (append-nil seen)) r)
append_all-IsRing m rb seen (x ∷ xs) big r =
    let (rb₁, e₁, r₁) = append-IsRing m rb (last m seen) x big r in
    let r₁' : IsRing m rb₁ (last m (seen ++ x ∷ [])) =
      subst (IsRing m rb₁) (last-append-last m seen (x ∷ [])) r₁ in
    let (rb₂, e₂, r₂) = append_all-IsRing m rb₁ (seen ++ x ∷ []) xs big r₁' in
    (rb₂, rw e₁ e₂, subst (λ q. IsRing m rb₂ (last m q)) (append_assoc seen (x ∷ []) xs) r₂)

-- Any sequence of appends to a new buffer of size `m` (above 0 and below 2^62) runs without a
-- panic, and the buffer then stands for the last `m` of the values, oldest first.
pub append_all-last :
    (m : ℕ) (xs : List ℤ)
    → 0 < m
    → m < 2 ^ 62
    → (rb : RingBuffer) × (append_all (new_ring_buffer (pos m)) xs ≡ some rb)
      × IsRing m rb (last m xs)
append_all-last m xs p big = append_all-IsRing m (new_ring_buffer (pos m)) [] xs big (
    subst (IsRing m (new_ring_buffer (pos m))) (sym (drop-nil (0 - m)))
      (new_ring_buffer-IsRing m p))

-- With a size of 0 a buffer never fills: it keeps every value that was appended.
pub append_all-unbounded :
    (xs seen : List ℤ) (rb : RingBuffer)
    → rb.is_full ≡ false
    → rb.max_size ≡ pos 0
    → rb.elems ≡ seen
    → (rb' : RingBuffer) × (append_all rb xs ≡ some rb') × (rb'.elems ≡ seen ++ xs)
append_all-unbounded [] seen rb f z e = (rb, refl, e ∙ sym (append-nil seen))
append_all-unbounded (x ∷ xs) seen rb f z e =
    let (rb₁, e₁, f₁, z₁, s₁) = append_unbounded rb x f z in
    let (rb₂, e₂, s₂) =
      append_all-unbounded xs (seen ++ x ∷ []) rb₁ f₁ z₁ (s₁ ∙ ap (λ t. t ++ x ∷ []) e) in
    (rb₂, rw e₁ e₂, s₂ ∙ append_assoc seen (x ∷ []) xs)
