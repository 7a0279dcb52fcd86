-- ===== src/Io/Reader/Whole.antt =====
-- What connReader of stratum/server/server.go does with the bytes of the client, as an invariant.
use stratumserver.Prelude.{
  refl, ℕ, ◌+◌, ◌-◌, ◌≤◌, ◌<◌, ◌^◌, ◌≡◌, Bool, true, false, ◌&&◌, List, [], ◌∷◌, ◌++◌, arith,
  append_assoc, ◌∙◌, ap, sym, length,
}
use stratumserver.Prelude.Int.{pos}
use stratumserver.Prelude.Int64.{sub64}
use stratumserver.Io.Reader.{set_read_limit, end_read, pos_part, background_read, end_abort}
use stratumserver.Io.Reader.Stream.{
  here, next, Reaches, connected, aborts, aborted, Waiting, nobody, reader_for, Stream, Step,
  limits, answers, waits, receives, watches, sees, sees_nothing, watcher, connected, Reaches, next,
}
use stratumserver.Io.Reader.Kept.{
  pending, took, answers-pending, waits-reader, watches-reader, abort-reader,
}

abbrev is_waiting : Waiting → Bool
is_waiting nobody = false
is_waiting _ = true

abbrev wanted : Waiting → ℕ
wanted (reader_for n) = n
wanted _ = 0

pub record IsWhole (sent : List ℕ) (s : Stream) : Type 0 where
  pub whole : s.delivered ++ (pending s.reader ++ s.incoming) ≡ sent
  pub busy : s.reader.in_read ≡ is_waiting s.doing
  pub apart : (s.reader.in_read && s.reader.has_byte) ≡ false
  pub left : (s.reader.remain ≡ pos (s.limit - s.taken)) × (s.taken ≤ s.limit) × (s.limit < 2 ^ 63)
  pub fits : wanted s.doing + s.taken ≤ s.limit

idle : (w : Waiting) → is_waiting w ≡ false → w ≡ nobody
idle w h = ground arith

move_bytes :
    (ds bs is rest sent : List ℕ) (p p' : List ℕ)
    → bs ++ p' ≡ p
    → ds ++ (p ++ is) ≡ sent
    → (ds ++ bs) ++ (p' ++ is) ≡ sent
move_bytes ds bs is rest sent p p' e h =
    append_assoc ds bs (p' ++ is)
    ∙ ap (λ t. ds ++ t) (sym (append_assoc bs p' is) ∙ ap (λ t. t ++ is) e)
    ∙ h

module _ (sent : List ℕ) (s : Stream) (inv : IsWhole sent s) where
  open inv use {whole, busy, apart, left, fits}

  no_pending : s.reader.in_read ≡ true → pending s.reader ≡ []
  no_pending h = ground arith

  was_reading : (n : ℕ) → s.doing ≡ reader_for n → s.reader.in_read ≡ true
  was_reading n w = busy ∙ ap is_waiting w

  was_watching : s.doing ≡ watcher → s.reader.in_read ≡ true
  was_watching w = busy ∙ ap is_waiting w

  taken_whole :
      (bytes rest : List ℕ)
      → s.reader.in_read ≡ true
      → s.incoming ≡ bytes ++ rest
      → s.delivered ++ (bytes ++ rest) ≡ sent
  taken_whole bytes rest h i =
      ap (λ t. s.delivered ++ t) (sym i)
      ∙ ap (λ t. s.delivered ++ (t ++ s.incoming)) (sym (no_pending h))
      ∙ whole

  still_fits : (n k : ℕ) → s.doing ≡ reader_for n → k ≤ n → s.taken + k ≤ s.limit
  still_fits n k w le = omega (arith, ap wanted w)

  Step-IsWhole : {t : Stream} → Step s t → IsWhole sent t
  unfolding set_read_limit end_read background_read end_abort
  Step-IsWhole (limits n lt quiet) = record {
    whole = whole;
    busy = busy;
    apart = apart;
    left = (ap pos (omega arith), omega arith, lt);
    fits = ground arith;
  }
  Step-IsWhole (answers len cr bytes eof e) =
      let (p, q, r, k) = answers-pending s.reader cr len bytes eof e in
      record {
        whole =
            move_bytes s.delivered bytes s.incoming [] sent (pending s.reader) (pending cr) p whole;
        busy = q ∙ busy;
        apart = ground arith;
        left = (k ∙ left.0, left.1, left.2);
        fits = fits;
      }
  Step-IsWhole (waits len n cr e) =
      let (p, q, r, k, f, b) = waits-reader s.reader cr len n e in
      record {
        whole = ap (λ t. s.delivered ++ (t ++ s.incoming)) p ∙ whole;
        busy = q;
        apart = rw r (ground arith);
        left = (k ∙ left.0, left.1, left.2);
        fits = omega (arith, ap pos_part left.0);
      }
  Step-IsWhole (receives n bytes rest err w i le) = record {
    whole =
        ap (λ t. (s.delivered ++ bytes) ++ (t ++ rest)) (no_pending (was_reading n w))
        ∙ append_assoc s.delivered bytes rest
        ∙ taken_whole bytes rest (was_reading n w) i;
    busy = refl;
    apart = refl;
    left = (
      ap (λ r. sub64 r (pos (length bytes))) left.0
          ∙ took (s.limit - s.taken) (length bytes)
              (omega (arith, still_fits n (length bytes) w le)) (omega (arith, left.2))
          ∙ ap pos (omega arith),
      still_fits n (length bytes) w le,
      left.2,
    );
    fits = omega (arith, still_fits n (length bytes) w le);
  }
  Step-IsWhole (watches cr e) =
      let (p, q, r, k, f) = watches-reader s.reader cr e in
      record {
        whole = ap (λ t. s.delivered ++ (t ++ s.incoming)) p ∙ whole;
        busy = q;
        apart = rw r (ground arith);
        left = (k ∙ left.0, left.1, left.2);
        fits = omega (arith, left.1);
      }
  Step-IsWhole (sees b rest err w i) = record {
    whole = taken_whole (b ∷ []) rest (was_watching w) i;
    busy = refl;
    apart = refl;
    left = left;
    fits = omega (arith, left.1);
  }
  Step-IsWhole (sees_nothing err w) = record {
    whole = whole;
    busy = refl;
    apart = refl;
    left = left;
    fits = omega (arith, left.1);
  }
  Step-IsWhole aborts =
      let (p, q, r, k) = abort-reader s.reader in
      record {
        whole = ap (λ t. s.delivered ++ (t ++ s.incoming)) p ∙ whole;
        busy = q ∙ busy;
        apart = rw (q, r) apart;
        left = (k ∙ left.0, left.1, left.2);
        fits = fits;
      }
  Step-IsWhole aborted = record {
    whole = whole;
    busy = busy;
    apart = apart;
    left = left;
    fits = fits;
  }

module _ (sent : List ℕ) where
  connected-IsWhole : IsWhole sent (connected sent)
  connected-IsWhole = record {
    whole = refl;
    busy = refl;
    apart = refl;
    left = (ap pos (omega arith), omega arith, omega arith);
    fits = omega arith;
  }

  Reaches-IsWhole : {t : Stream} → Reaches (connected sent) t → IsWhole sent t
  Reaches-IsWhole here = connected-IsWhole
  Reaches-IsWhole (next {t} r st) = Step-IsWhole sent t (Reaches-IsWhole r) st

  -- Whatever Reads, background reads and aborts follow one another on a connection, what Read has
  -- returned, the byte that is put aside and what is still to come are the bytes that the client sent,
  -- none lost, doubled or moved.
  pub Reaches-delivered :
      (t : Stream)
      → Reaches (connected sent) t
      → t.delivered ++ (pending t.reader ++ t.incoming) ≡ sent
  Reaches-delivered t r = (Reaches-IsWhole r).whole

  -- Since the limit was set, Read has taken no more bytes from the network connection than it allows,
  -- and `remain` is what is left of it.
  pub Reaches-limit :
      (t : Stream)
      → Reaches (connected sent) t
      → (t.taken ≤ t.limit) × (t.reader.remain ≡ pos (t.limit - t.taken))
  Reaches-limit t r = let inv = Reaches-IsWhole r in (inv.left.1, inv.left.0)
