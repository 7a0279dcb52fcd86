-- ===== src/Utils/Coinbase/Split.antt =====
-- What SplitCoinbase cuts out, and that a miner can put it together again.
use stratumserver.Prelude.{
  subst, All, IsByte, ℕ, zero, suc, ◌+◌, ◌<◌, ◌≡◌, refl, sym, ap, ◌∙◌, List, [], ◌∷◌, ◌++◌,
  append_assoc, some, arith, length, length-append, get_elem?, set, take, drop, ltb, leb,
  if◌then◌else◌, >>=-eq-some, le→leb, true,
}
use stratumserver.Prelude.Octets.{All-take, All-drop, All-set}
use stratumserver.Utils.Coinbase.{split_coinbase}

-- The bytes of the height that stand before the length of the extra nonce.
abbrev pub height_len : ℕ → ℕ
height_len b = if ltb 0xf b then 0 else b

get_elem?-front : (xs ys : List ℕ) (i : ℕ) → i < length xs → get_elem? (xs ++ ys) i ≡ get_elem? xs i
get_elem?-front [] ys i h = absurd (omega arith)
get_elem?-front (x ∷ xs) ys zero h = refl
get_elem?-front (x ∷ xs) ys (suc i) h = get_elem?-front xs ys i (omega arith)

get_elem?-at :
    (n : ℕ) (xs ys : List ℕ) (x : ℕ) → length xs ≡ n → get_elem? (xs ++ x ∷ ys) n ≡ some x
get_elem?-at zero [] ys x h = refl
get_elem?-at zero (y ∷ xs) ys x h = absurd (omega arith)
get_elem?-at (suc n) [] ys x h = absurd (omega arith)
get_elem?-at (suc n) (y ∷ xs) ys x h = get_elem?-at n xs ys x (omega arith)

set_at : (n : ℕ) (xs ys : List ℕ) (x v : ℕ) → length xs ≡ n → set (xs ++ x ∷ ys) n v ≡ xs ++ v ∷ ys
set_at zero [] ys x v h = refl
set_at zero (y ∷ xs) ys x v h = absurd (omega arith)
set_at (suc n) [] ys x v h = absurd (omega arith)
set_at (suc n) (y ∷ xs) ys x v h = ap (λ t. y ∷ t) (set_at n xs ys x v (omega arith))

take_all : (n : ℕ) (xs ys : List ℕ) → length xs ≡ n → take n (xs ++ ys) ≡ xs
take_all zero [] ys h = refl
take_all zero (x ∷ xs) ys h = absurd (omega arith)
take_all (suc n) [] ys h = absurd (omega arith)
take_all (suc n) (x ∷ xs) ys h = ap (λ t. x ∷ t) (take_all n xs ys (omega arith))

drop_all : (n : ℕ) (xs ys : List ℕ) → length xs ≡ n → drop n (xs ++ ys) ≡ ys
drop_all zero [] ys h = refl
drop_all zero (x ∷ xs) ys h = absurd (omega arith)
drop_all (suc n) [] ys h = absurd (omega arith)
drop_all (suc n) (x ∷ xs) ys h = drop_all n xs ys (omega arith)

split_at :
    (xs : List ℕ) (i : ℕ) {x : ℕ}
    → get_elem? xs i ≡ some x
    → (xs ≡ take i xs ++ x ∷ drop (suc i) xs) × (length (take i xs) ≡ i)
split_at [] i h = cc
split_at (y ∷ xs) zero h = (ap (λ t. t ∷ xs) (ground arith), refl)
split_at (y ∷ xs) (suc i) h = let (e, l) = split_at xs i h in (ap (λ t. y ∷ t) e, ap suc l)

-- The code on a transaction that is taken apart.
split_shape :
    (front nonce rest : List ℕ) (b e : ℕ)
    → get_elem? front 42 ≡ some b
    → length front ≡ 43 + height_len b
    → length nonce ≡ e
    → split_coinbase (front ++ e ∷ (nonce ++ rest)) ≡ some (front ++ 8 ∷ [], rest)
unfolding split_coinbase
split_shape front nonce rest b e hb hf he =
    let k : ℕ = 43 + height_len b in
    let taken : take (k + 1) (front ++ 8 ∷ (nonce ++ rest)) ≡ front ++ 8 ∷ [] =
      ap (take (k + 1)) (sym (append_assoc front (8 ∷ []) (nonce ++ rest)))
      ∙ take_all (k + 1) (front ++ 8 ∷ []) (nonce ++ rest)
          (omega (arith, length-append front (8 ∷ []))) in
    let dropped : drop (k + e + 1) (front ++ 8 ∷ (nonce ++ rest)) ≡ rest =
      ap (drop (k + e + 1)) (sym (append_assoc front (8 ∷ nonce) rest))
      ∙ drop_all (k + e + 1) (front ++ 8 ∷ nonce) rest
          (omega (arith, length-append front (8 ∷ nonce))) in
    let inside : leb (k + e + 1) (length (front ++ e ∷ (nonce ++ rest))) ≡ true =
      le→leb (k + e + 1) (length (front ++ e ∷ (nonce ++ rest)))
        (omega (arith, length-append front (e ∷ (nonce ++ rest)), length-append nonce rest)) in
    rw (
      get_elem?-front front (e ∷ (nonce ++ rest)) 42 (omega arith),
      hb,
      get_elem?-at k front (nonce ++ rest) e hf,
      set_at k front (nonce ++ rest) e 8 hf,
      inside,
      taken,
      dropped,
    )

-- SplitCoinbase of a transaction with the height byte `b` at index 42, the height bytes that it
-- counts (none if it is above 15), the length `e` of the extra nonce and an extra nonce of that
-- length: the first part is all before that length and the byte 8, the second what follows the
-- extra nonce. No index is out of range.
pub split_coinbase_parts :
    (prefix height nonce rest : List ℕ) (b : ℕ)
    → length prefix ≡ 42
    → length height ≡ height_len b
    → split_coinbase (prefix ++ b ∷ (height ++ length nonce ∷ (nonce ++ rest)))
      ≡ some (prefix ++ b ∷ (height ++ 8 ∷ []), rest)
split_coinbase_parts prefix height nonce rest b hp hh =
    let shape : (t : List ℕ) → prefix ++ b ∷ (height ++ t) ≡ prefix ++ b ∷ height ++ t =
      λ t. sym (append_assoc prefix (b ∷ height) t) in
    rw (shape (length nonce ∷ (nonce ++ rest)), shape (8 ∷ []))
      (split_shape (prefix ++ b ∷ height) nonce rest b (length nonce)
        (get_elem?-at 42 prefix height b hp) (omega (arith, length-append prefix (b ∷ height)))
        refl)

-- A result of SplitCoinbase comes from a transaction of that shape.
split_inverse :
    (raw p q : List ℕ)
    → split_coinbase raw ≡ some (p, q)
    → (front : List ℕ) × (b : ℕ) × (get_elem? front 42 ≡ some b)
      × (length front ≡ 43 + height_len b)
      × (p ≡ front ++ 8 ∷ [])
unfolding split_coinbase
split_inverse raw p q h =
    let (b, hb, found) = >>=-eq-some (get_elem? raw 42) _ h in
    let k : ℕ = 43 + height_len b in
    let (e, he, cut) = >>=-eq-some (get_elem? raw k) _ found in
    let (shape, len) = split_at raw k he in
    let front : List ℕ = take k raw in
    let rest : List ℕ = drop (suc k) raw in
    let first : p ≡ take (k + 1) (set raw k 8) = ground arith in
    let byte : get_elem? front 42 ≡ some b =
      sym (get_elem?-front front (e ∷ rest) 42 (omega arith))
      ∙ ap (λ t. get_elem? t 42) (sym shape)
      ∙ hb in
    let written : set raw k 8 ≡ front ++ 8 ∷ rest =
      ap (λ t. set t k 8) shape ∙ set_at k front rest e 8 len in
    let taken : take (k + 1) (front ++ 8 ∷ rest) ≡ front ++ 8 ∷ [] =
      ap (take (k + 1)) (sym (append_assoc front (8 ∷ []) rest))
      ∙ take_all (k + 1) (front ++ 8 ∷ []) rest (omega (arith, length-append front (8 ∷ []))) in
    (front, b, byte, len, first ∙ ap (take (k + 1)) written ∙ taken)

-- What the miner does with the two parts: any extra nonce of eight bytes between them makes a
-- transaction that SplitCoinbase cuts into the same two parts.
pub split_coinbase_rebuild :
    (raw p q nonce : List ℕ)
    → split_coinbase raw ≡ some (p, q)
    → length nonce ≡ 8
    → split_coinbase (p ++ (nonce ++ q)) ≡ some (p, q)
split_coinbase_rebuild raw p q nonce h n =
    let (front, b, hb, hf, e) = split_inverse raw p q h in
    rw (e, append_assoc front (8 ∷ []) (nonce ++ q)) (split_shape front nonce q b 8 hb hf n)

-- The parts of bytes are bytes.
pub split_coinbase-IsByte :
    (raw p q : List ℕ)
    → All IsByte raw
    → split_coinbase raw ≡ some (p, q)
    → All IsByte p × All IsByte q
unfolding split_coinbase
split_coinbase-IsByte raw p q bytes h =
    let (b, hb, found) = >>=-eq-some (get_elem? raw 42) _ h in
    let k : ℕ = 43 + height_len b in
    let (e, he, cut) = >>=-eq-some (get_elem? raw k) _ found in
    let first : p ≡ take (k + 1) (set raw k 8) = ground arith in
    let second : q ≡ drop (k + e + 1) (set raw k 8) = ground arith in
    let written = All-set raw k 8 (omega arith) bytes in
    (
      subst (All IsByte) (sym first) (All-take (k + 1) (set raw k 8) written),
      subst (All IsByte) (sym second) (All-drop (k + e + 1) (set raw k 8) written),
    )
