-- ===== src/Utils/Coinbase/Convert.antt =====
-- The fields that JaxTxToBtcTx carries over.
use stratumserver.Prelude.{
  ℕ, zero, suc, ◌≡◌, refl, sym, ap, ◌∙◌, List, [], ◌∷◌, ◌++◌, append_assoc, Option, none, some,
  arith, length, length-append, length-map, get_elem?, set, replicate, map,
}
use stratumserver.Prelude.Int.{ℤ}
use stratumserver.Utils.Coinbase.{
  MsgTx, TxIn, TxOut, convert_in, convert_out, fill, jax_tx_to_btc_tx,
}

item_at :
    {A : Type 0} (pre : List A) (x : A) (xs : List A)
    → get_elem? (map some (pre ++ x ∷ xs)) (length pre) ≡ some (some x)
item_at [] x xs = refl
item_at (p ∷ pre) x xs = item_at pre x xs

set_at :
    {B : Type 0} (n : ℕ) (xs : List B) (v x : B) (ys : List B)
    → length xs ≡ n
    → set (xs ++ x ∷ ys) n v ≡ xs ++ v ∷ ys
set_at zero [] v x ys h = refl
set_at zero (y ∷ xs) v x ys h = absurd (omega arith)
set_at (suc n) [] v x ys h = absurd (omega arith)
set_at (suc n) (y ∷ xs) v x ys h = ap (λ t. y ∷ t) (set_at n xs v x ys (omega arith))

module _ {A B : Type 0} (convert : A → B) where
  -- A loop over a slice without nil pointers converts it entry by entry.
  fill_lem :
      (pre : List A) (out : List (Option B)) (xs : List A)
      → length out ≡ length pre
      → fill convert
          (length xs)
          (length pre)
          (map some (pre ++ xs))
          (out ++ replicate (length xs) none)
        ≡ some (out ++ map (λ x. some (convert x)) xs)
  unfolding fill
  fill_lem pre out [] h = refl
  fill_lem pre out (x ∷ xs) h =
      let v : Option B = some (convert x) in
      let next : suc (length pre) ≡ length (pre ++ x ∷ []) =
        omega (arith, length-append pre (x ∷ [])) in
      let written : set (out ++ none ∷ replicate (length xs) none) (length pre) v
          ≡ out ++ v ∷ [] ++ replicate (length xs) none =
        set_at (length pre) out v none (replicate (length xs) none) h
        ∙ sym (append_assoc out (v ∷ []) (replicate (length xs) none)) in
      rw (item_at pre x xs, written, next, ← append_assoc pre (x ∷ []) xs)
        (fill_lem (pre ++ x ∷ []) (out ++ v ∷ []) xs
            (omega (arith, length-append out (v ∷ []), length-append pre (x ∷ [])))
          ∙ ap some (append_assoc out (v ∷ []) (map (λ y. some (convert y)) xs)))

convert_in_lem : (t : TxIn) → convert_in t ≡ t
unfolding convert_in
convert_in_lem t = refl

convert_out_lem : (t : TxOut) → convert_out t ≡ t
unfolding convert_out
convert_out_lem t = refl

-- Of a transaction without nil pointers JaxTxToBtcTx makes one with the same version, inputs,
-- outputs and lock time, field by field and in the same order.
pub jax_tx_to_btc_tx_lem :
    (version : ℤ) (ins : List TxIn) (outs : List TxOut) (lock_time : ℕ)
    → let tx : MsgTx = record {
      version = version;
      tx_in = map some ins;
      tx_out = map some outs;
      lock_time = lock_time;
    } in
      jax_tx_to_btc_tx tx ≡ some tx
unfolding jax_tx_to_btc_tx convert_in convert_out
jax_tx_to_btc_tx_lem version ins outs lock_time = rw (
  length-map ins (λ (x : TxIn). some x),
  length-map outs (λ (x : TxOut). some x),
  fill_lem convert_in [] [] ins refl,
  fill_lem convert_out [] [] outs refl,
)
