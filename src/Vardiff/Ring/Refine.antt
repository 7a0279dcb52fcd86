-- ===== src/Vardiff/Ring/Refine.antt =====
-- A ring buffer of size `m` holds the last `m` values that were appended, oldest first.
use mathlib.Core.Path.{ap₂}
use native.Mathlib.Nat.{mod-eq_of_lt}
use stratumserver.Prelude.{
  ℕ, suc, ◌+◌, ◌-◌, ◌%◌, ◌^◌, ◌≤◌, ◌<◌, ◌≡◌, refl, sym, ap, ◌∙◌, true, false, List, [], ◌∷◌, ◌++◌,
  append_assoc, append-nil, some, arith, length, length-append, set, drop, ltb, lt→ltb, Bool-cases,
  inl, inr,
}
use stratumserver.Prelude.Int.{ℤ, pos, ◌+ℤ◌}
use stratumserver.Prelude.Int64.{add64, rem64_pos, wrap64}
use stratumserver.Vardiff.Ring.{RingBuffer, new_ring_buffer, eqb_ℤ, append, size, clear}

-- A queue that keeps the last `m` values.
abbrev pub last : ℕ → List ℤ → List ℤ
last m q = drop (length q - m) q

abbrev pub push : ℕ → List ℤ → ℤ → List ℤ
push m q x = last m (q ++ x ∷ [])

-- The buffer stands for the queue `q`: all of it from the start while it grows, and from the cursor
-- on, round the end, when it is full.
pub data IsRing (m : ℕ) (rb : RingBuffer) (q : List ℤ) : Type 0 where
  growing :
      length q < m
      → rb ≡ record { is_full = false; max_size = pos m; cursor = pos (length q); elems = q }
      → IsRing m rb q
  wrapped :
      (newer older : List ℤ)
      → length newer + length older ≡ m
      → 0 < length older
      → q ≡ older ++ newer
      → rb ≡ record {
        is_full = true;
        max_size = pos m;
        cursor = pos (length newer);
        elems = newer ++ older;
      }
      → IsRing m rb q

pub new_ring_buffer-IsRing : (m : ℕ) → 0 < m → IsRing m (new_ring_buffer (pos m)) []
unfolding new_ring_buffer
new_ring_buffer-IsRing m h = growing h refl

next_cursor : (n : ℕ) → n < 2 ^ 62 → add64 (pos n) (pos 1) ≡ pos (n + 1)
unfolding ◌+ℤ◌ wrap64
next_cursor n h = ground arith

set_at : (xs ys : List ℤ) (x v : ℤ) → set (xs ++ x ∷ ys) (length xs) v ≡ xs ++ v ∷ ys
set_at [] ys x v = refl
set_at (y ∷ xs) ys x v = ap (λ t. y ∷ t) (set_at xs ys x v)

-- A queue that is full loses its oldest value.
push_full : (m : ℕ) (q : List ℤ) (y x : ℤ) → suc (length q) ≡ m → push m (y ∷ q) x ≡ q ++ x ∷ []
push_full m q y x h =
    let one : length (y ∷ q ++ x ∷ []) - m ≡ 1 = omega (arith, length-append q (x ∷ [])) in rw one

push_grow : (m : ℕ) (q : List ℤ) (x : ℤ) → length q < m → push m q x ≡ q ++ x ∷ []
push_grow m q x h =
    let none_lost : length (q ++ x ∷ []) - m ≡ 0 = omega (arith, length-append q (x ∷ [])) in
    rw none_lost

eqb_pos : (n m : ℕ) → eqb_ℤ (pos n) (pos m) ≡ true → 0 + n ≡ m
eqb_pos n m h = ground arith

below_of_ne : (n m : ℕ) → eqb_ℤ (pos n) (pos m) ≡ false → n ≤ m → n < m
below_of_ne n m h l = ground arith

append_growing :
    (m : ℕ) (q : List ℤ) (x : ℤ)
    → m < 2 ^ 62
    → length q < m
    → (rb : RingBuffer) × (append
          (record { is_full = false; max_size = pos m; cursor = pos (length q); elems = q })
          x
        ≡ some rb)
      × IsRing m rb (q ++ x ∷ [])
unfolding append
append_growing m q x big h =
    let grown : length (q ++ x ∷ []) ≡ length q + 1 = length-append q (x ∷ []) in
    elim (Bool-cases (eqb_ℤ (pos (length (q ++ x ∷ []))) (pos m))) [
      | inl full ↦ (
        record { is_full = true; max_size = pos m; cursor = pos 0; elems = q ++ x ∷ [] },
        rw full,
        wrapped [] (q ++ x ∷ []) (eqb_pos _ m full) (omega arith) (sym (append-nil (q ++ x ∷ [])))
            refl,
      )
      | inr more ↦ (
        record {
          is_full = false;
          max_size = pos m;
          cursor = pos (length (q ++ x ∷ []));
          elems = q ++ x ∷ [];
        },
        rw (more, next_cursor (length q) (omega arith), grown),
        growing (below_of_ne _ m more (omega arith)) refl,
      )
    ]

abbrev full_at : ℕ → List ℤ → ℕ → RingBuffer
full_at m elems c = record { is_full = true; max_size = pos m; cursor = pos c; elems = elems }

mod_self : (n m : ℕ) → n + 1 ≡ m → (n + 1) % m ≡ 0
mod_self n m h = rw h (grind arith)

mod_below : (n m : ℕ) → n + 1 < m → (n + 1) % m ≡ n + 1
mod_below n m h = mod-eq_of_lt h

-- A full buffer is written at the cursor, which moves on by one.
append_full :
    (m : ℕ) (newer older : List ℤ) (y x : ℤ)
    → m < 2 ^ 62
    → length newer + suc (length older) ≡ m
    → append (full_at m (newer ++ y ∷ older) (length newer)) x
      ≡ some (full_at m (newer ++ x ∷ older) ((length newer + 1) % m))
unfolding append
append_full m newer older y x big h =
    let inside : ltb (length newer) (length (newer ++ y ∷ older)) ≡ true =
      lt→ltb _ _ (omega (arith, length-append newer (y ∷ older))) in
    rw (
      inside,
      set_at newer older y x,
      next_cursor (length newer) (omega arith),
      rem64_pos (length newer + 1) m (omega arith),
    )

append_wrapped :
    (m : ℕ) (newer older : List ℤ) (y x : ℤ)
    → m < 2 ^ 62
    → length newer + suc (length older) ≡ m
    → (rb : RingBuffer) × (append
          (record {
            is_full = true;
            max_size = pos m;
            cursor = pos (length newer);
            elems = newer ++ y ∷ older;
          })
          x
        ≡ some rb)
      × IsRing m rb (older ++ newer ++ x ∷ [])
append_wrapped m newer [] y x big h = (
  record { is_full = true; max_size = pos m; cursor = pos 0; elems = newer ++ x ∷ [] },
  append_full m newer [] y x big h
      ∙ ap (λ c. some (full_at m (newer ++ x ∷ []) c)) (mod_self (length newer) m (omega arith)),
  wrapped [] (newer ++ x ∷ []) (omega (arith, length-append newer (x ∷ [])))
      (omega (arith, length-append newer (x ∷ []))) (sym (append-nil (newer ++ x ∷ []))) refl,
)
append_wrapped m newer (z ∷ older) y x big h = (
  record {
    is_full = true;
    max_size = pos m;
    cursor = pos (length (newer ++ x ∷ []));
    elems = newer ++ x ∷ [] ++ z ∷ older;
  },
  append_full m newer (z ∷ older) y x big h
      ∙ ap₂ (λ e c. some (full_at m e c)) (sym (append_assoc newer (x ∷ []) (z ∷ older)))
          (mod_below (length newer) m (omega arith) ∙ sym (length-append newer (x ∷ []))),
  wrapped (newer ++ x ∷ []) (z ∷ older) (omega (arith, length-append newer (x ∷ []))) (omega arith)
      (append_assoc (z ∷ older) newer (x ∷ [])) refl,
)

-- Append to a buffer for the queue `q` does not panic, and gives a buffer for the queue of the last
-- `m` values of `q` and the new one.
pub append-IsRing :
    (m : ℕ) (rb : RingBuffer) (q : List ℤ) (x : ℤ)
    → m < 2 ^ 62
    → IsRing m rb q
    → (rb' : RingBuffer) × (append rb x ≡ some rb') × IsRing m rb' (push m q x)
append-IsRing m rb q x big (growing h e) = rw (e, push_grow m q x h) (append_growing m q x big h)
append-IsRing m rb q x big (wrapped newer [] l p eq e) = absurd (omega arith)
append-IsRing m rb q x big (wrapped newer (y ∷ older) l p eq e) =
    rw (e, eq, push_full m (older ++ newer) y x (omega (arith, length-append older newer)))
      (append_wrapped m newer older y x big (omega arith))

-- Size is the number of values that the buffer holds.
pub size-IsRing : (m : ℕ) (rb : RingBuffer) (q : List ℤ) → IsRing m rb q → size rb ≡ pos (length q)
unfolding size
size-IsRing m rb q (growing h e) = rw e
size-IsRing m rb q (wrapped newer older l p eq e) =
    rw (e, eq) (ap pos (omega (arith, length-append older newer)))

-- Clear leaves the buffer as it was made.
pub clear-IsRing :
    (m : ℕ) (rb : RingBuffer) (q : List ℤ)
    → 0 < m
    → IsRing m rb q
    → clear rb ≡ new_ring_buffer (pos m)
unfolding clear new_ring_buffer
clear-IsRing m rb q p (growing h e) = rw e
clear-IsRing m rb q p (wrapped newer older l o eq e) = rw e
