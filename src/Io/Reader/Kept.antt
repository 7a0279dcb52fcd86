-- ===== src/Io/Reader/Kept.antt =====
-- What each operation of connReader in stratum/server/server.go keeps of the byte that is put aside, its flags and its limit.
use stratumserver.Prelude.{
  ℕ, ◌-◌, ◌≤◌, ◌<◌, ◌^◌, ◌≡◌, Bool, true, false, List, [], ◌∷◌, ◌++◌, arith, if◌then◌else◌,
}
use stratumserver.Prelude.Int.{pos, ◌-ℤ◌}
use stratumserver.Prelude.Int64.{sub64, wrap64}
use stratumserver.Io.Reader.{
  ConnReader, answered, begin_read, hit_read_limit, start_background_read, abort_pending_read,
  waiting, some, pos_part,
}

-- The byte that the background read has put aside.
abbrev pub pending : ConnReader → List ℕ
pending cr = if cr.has_byte then cr.byte_buf ∷ [] else []

pub took : (r n : ℕ) → n ≤ r → r < 2 ^ 63 → sub64 (pos r) (pos n) ≡ pos (r - n)
unfolding wrap64 ◌-ℤ◌
took r n h k = ground arith

pub answers-pending :
    (cr cr' : ConnReader) (len : ℕ) (bytes : List ℕ) (eof : Bool)
    → begin_read cr len ≡ (cr', answered bytes eof)
    → (bytes ++ pending cr' ≡ pending cr)
      × (cr'.in_read ≡ cr.in_read)
      × (cr.in_read ≡ false)
      × (cr'.remain ≡ cr.remain)
unfolding begin_read
answers-pending cr cr' len bytes eof e = ground arith

pub waits-reader :
    (cr cr' : ConnReader) (len n : ℕ)
    → begin_read cr len ≡ (cr', waiting n)
    → (pending cr' ≡ pending cr)
      × (cr'.in_read ≡ true)
      × (cr'.has_byte ≡ false)
      × (cr'.remain ≡ cr.remain)
      × (cr.in_read ≡ false)
      × (n ≤ pos_part cr.remain)
unfolding begin_read hit_read_limit
waits-reader cr cr' len n e = ground arith

pub watches-reader :
    (cr cr' : ConnReader)
    → start_background_read cr ≡ some (cr', true)
    → (pending cr' ≡ pending cr)
      × (cr'.in_read ≡ true)
      × (cr'.has_byte ≡ false)
      × (cr'.remain ≡ cr.remain)
      × (cr.in_read ≡ false)
unfolding start_background_read
watches-reader cr cr' e = ground arith

pub abort-reader :
    (cr : ConnReader)
    → let cr' = (abort_pending_read cr).0 in
      (pending cr' ≡ pending cr)
      × (cr'.in_read ≡ cr.in_read)
      × (cr'.has_byte ≡ cr.has_byte)
      × (cr'.remain ≡ cr.remain)
unfolding abort_pending_read
abort-reader cr = ground arith
