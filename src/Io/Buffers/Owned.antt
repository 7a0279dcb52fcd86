-- ===== src/Io/Buffers/Owned.antt =====
-- The owners of the buffers, as an invariant of what server.go and conn.go do with them.
use stratumserver.Prelude.{
  ℕ, ◌+◌, ◌≤◌, ◌<◌, ◌≡◌, refl, List, [], ◌∷◌, ◌++◌, Option, none, some, length, get_elem?, arith,
  if◌then◌else◌, ◌==◌, All, ==_iff, length-append,
}
use stratumserver.Io.Buffers.{
  Buffers, remove_at, pointer, put_bufio_reader, WriterPool, put_bufio_writer, fresh, reused,
  put_writer, bufio_writer_pool, update, pool_2k, new_bufio_reader, take_writer,
  new_bufio_writer_size, pool_4k, no_pool, got,
}
use stratumserver.Io.Buffers.Counts.{
  one, count, held, count-remove_at, held-append, held-pointer, pointer-append,
}

abbrev pub pooled : ℕ → Buffers → ℕ
pooled x b = count x b.readers + count x b.writers_2k + count x b.writers_4k

-- How often a buffer is in a pool, or is one of a connection.
abbrev pub total : ℕ → Buffers → ℕ
total x b = pooled x b + held x b.bufr + held x b.bufw

-- The buffers in `loose` are neither in a pool nor at a connection.
pub record IsOwned (loose : List ℕ) (b : Buffers) : Type 0 where
  pub once : (x : ℕ) → total x b + count x loose ≤ 1
  pub new : (x : ℕ) → b.next ≤ x → total x b + count x loose ≡ 0
  pub reset : (x : ℕ) → 0 < pooled x b → b.target x ≡ none
  pub reads : (x c : ℕ) → pointer b.bufr c ≡ some x → b.target x ≡ some c
  pub writes : (x c : ℕ) → pointer b.bufw c ≡ some x → b.target x ≡ some c
  pub flushed : All (λ f. f.1 ≡ some f.0) b.flushed
  pub paired : length b.bufr ≡ length b.bufw

module _ (l : List ℕ) (b : Buffers) (buf : ℕ) (inv : IsOwned (buf ∷ l) b) where
  pub put_bufio_reader-IsOwned : IsOwned l (put_bufio_reader b buf)
  unfolding put_bufio_reader
  put_bufio_reader-IsOwned = record {
    once = λ x. ground (arith, inv.once x);
    new = λ x h. ground (arith, inv.new x);
    reset = λ x h. ground (arith, inv.reset x);
    reads =
        λ x c h. ground (arith, inv.once x, inv.reads x c, held-pointer x c b.bufr, ==_iff x buf);
    writes =
        λ x c h. ground (arith, inv.once x, inv.writes x c, held-pointer x c b.bufw, ==_iff x buf);
    flushed = inv.flushed;
    paired = inv.paired;
  }

  put_writer-IsOwned :
      (p : WriterPool)
      → IsOwned l (put_writer p (record b { target = update buf none b.target }) buf)
  put_writer-IsOwned pool_2k = record {
    once = λ x. ground (arith, inv.once x);
    new = λ x h. ground (arith, inv.new x);
    reset = λ x h. ground (arith, inv.reset x);
    reads =
        λ x c h. ground (arith, inv.once x, inv.reads x c, held-pointer x c b.bufr, ==_iff x buf);
    writes =
        λ x c h. ground (arith, inv.once x, inv.writes x c, held-pointer x c b.bufw, ==_iff x buf);
    flushed = inv.flushed;
    paired = inv.paired;
  }
  put_writer-IsOwned pool_4k = record {
    once = λ x. ground (arith, inv.once x);
    new = λ x h. ground (arith, inv.new x);
    reset = λ x h. ground (arith, inv.reset x);
    reads =
        λ x c h. ground (arith, inv.once x, inv.reads x c, held-pointer x c b.bufr, ==_iff x buf);
    writes =
        λ x c h. ground (arith, inv.once x, inv.writes x c, held-pointer x c b.bufw, ==_iff x buf);
    flushed = inv.flushed;
    paired = inv.paired;
  }
  put_writer-IsOwned no_pool = record {
    once = λ x. ground (arith, inv.once x);
    new = λ x h. ground (arith, inv.new x);
    reset = λ x h. ground (arith, inv.reset x);
    reads =
        λ x c h. ground (arith, inv.once x, inv.reads x c, held-pointer x c b.bufr, ==_iff x buf);
    writes =
        λ x c h. ground (arith, inv.once x, inv.writes x c, held-pointer x c b.bufw, ==_iff x buf);
    flushed = inv.flushed;
    paired = inv.paired;
  }

  pub put_bufio_writer-IsOwned : IsOwned l (put_bufio_writer b buf)
  unfolding put_bufio_writer
  put_bufio_writer-IsOwned = put_writer-IsOwned (bufio_writer_pool (b.size buf))

module _ (l : List ℕ) (b : Buffers) (c : ℕ) (inv : IsOwned l b) where
  fresh-IsOwned : (size : ℕ) → IsOwned (b.next ∷ l) (fresh b c size).0
  fresh-IsOwned size = record {
    once = λ x. ground (arith, inv.once x, inv.new x);
    new = λ x h. ground (arith, inv.new x);
    reset = λ x h. ground (arith, inv.reset x, inv.new x);
    reads = λ x d h. ground (arith, inv.new x, inv.reads x d, held-pointer x d b.bufr);
    writes = λ x d h. ground (arith, inv.new x, inv.writes x d, held-pointer x d b.bufw);
    flushed = inv.flushed;
    paired = inv.paired;
  }

  reused-IsOwned :
      (buf : ℕ) (r w2 w4 : List ℕ)
      → ((x : ℕ) → count x r + count x w2 + count x w4 + one x (some buf) ≡ pooled x b)
      → IsOwned
          (buf ∷ l)
          (reused (record b { readers = r; writers_2k = w2; writers_4k = w4 }) c buf).0
  reused-IsOwned buf r w2 w4 out = record {
    once = λ x. ground (arith, inv.once x, out x);
    new = λ x h. ground (arith, inv.new x, out x);
    reset = λ x h. ground (arith, inv.reset x, inv.once x, out x, ==_iff x buf);
    reads = λ x d h.
        ground (arith, inv.once x, out x, inv.reads x d, held-pointer x d b.bufr, ==_iff x buf);
    writes = λ x d h.
        ground (arith, inv.once x, out x, inv.writes x d, held-pointer x d b.bufw, ==_iff x buf);
    flushed = inv.flushed;
    paired = inv.paired;
  }

-- What a function that takes a buffer gives: the invariant with the buffer loose, which is reset to the
-- connection, and the connections as they were.
pub record IsTaken (l : List ℕ) (b : Buffers) (c : ℕ) (r : Buffers × ℕ) : Type 0 where
  pub owned : IsOwned (r.1 ∷ l) r.0
  pub target : (x : ℕ) → r.0.target x ≡ (if x == r.1 then some c else b.target x)
  pub same : (r.0.bufr ≡ b.bufr) × (r.0.bufw ≡ b.bufw) × (r.0.flushed ≡ b.flushed)

module _ (l : List ℕ) (b : Buffers) (c : ℕ) (inv : IsOwned l b) where
  fresh-IsTaken : (size : ℕ) → IsTaken l b c (fresh b c size)
  fresh-IsTaken size = record {
    owned = fresh-IsOwned l b c inv size;
    target = λ x. refl;
    same = (refl, refl, refl);
  }

  reused-IsTaken :
      (buf : ℕ) (r w2 w4 : List ℕ)
      → ((x : ℕ) → count x r + count x w2 + count x w4 + one x (some buf) ≡ pooled x b)
      → IsTaken l b c (reused (record b { readers = r; writers_2k = w2; writers_4k = w4 }) c buf)
  reused-IsTaken buf r w2 w4 out = record {
    owned = reused-IsOwned l b c inv buf r w2 w4 out;
    target = λ x. refl;
    same = (refl, refl, refl);
  }

  got-IsTaken :
      (o : Option ℕ) (r w2 w4 : List ℕ) (size : ℕ)
      → ((x buf : ℕ)
          → o ≡ some buf
          → count x r + count x w2 + count x w4 + one x (some buf) ≡ pooled x b)
      → IsTaken l b c (got o (record b { readers = r; writers_2k = w2; writers_4k = w4 }) b c size)
  got-IsTaken none r w2 w4 size out = fresh-IsTaken size
  got-IsTaken (some buf) r w2 w4 size out = reused-IsTaken buf r w2 w4 (λ x. out x buf refl)

  pub new_bufio_reader-IsTaken : (i : ℕ) → IsTaken l b c (new_bufio_reader b i c)
  unfolding new_bufio_reader
  new_bufio_reader-IsTaken i =
      got-IsTaken (get_elem? b.readers i) (remove_at b.readers i) b.writers_2k b.writers_4k 4096
        (λ x buf e. omega (arith, count-remove_at x buf i b.readers e))

  take_writer-IsTaken : (p : WriterPool) (i size : ℕ) → IsTaken l b c (take_writer p b i c size)
  take_writer-IsTaken no_pool i size = fresh-IsTaken size
  take_writer-IsTaken pool_2k i size =
      got-IsTaken (get_elem? b.writers_2k i) b.readers (remove_at b.writers_2k i) b.writers_4k size
        (λ x buf e. omega (arith, count-remove_at x buf i b.writers_2k e))
  take_writer-IsTaken pool_4k i size =
      got-IsTaken (get_elem? b.writers_4k i) b.readers b.writers_2k (remove_at b.writers_4k i) size
        (λ x buf e. omega (arith, count-remove_at x buf i b.writers_4k e))

  pub new_bufio_writer_size-IsTaken :
      (i size : ℕ) → IsTaken l b c (new_bufio_writer_size b i c size)
  unfolding new_bufio_writer_size
  new_bufio_writer_size-IsTaken i size = take_writer-IsTaken (bufio_writer_pool size) i size

-- serve gives two loose buffers that are reset to its connection, the next one, to it.
pub attach-IsOwned :
    (b : Buffers) (br bw : ℕ)
    → IsOwned (bw ∷ br ∷ []) b
    → b.target br ≡ some (length b.bufr)
    → b.target bw ≡ some (length b.bufr)
    → IsOwned [] (record b { bufr = b.bufr ++ some br ∷ []; bufw = b.bufw ++ some bw ∷ [] })
attach-IsOwned b br bw inv tr tw = record {
  once = λ x.
      omega (arith, inv.once x, held-append x (some br) b.bufr, held-append x (some bw) b.bufw);
  new = λ x h.
      omega (arith, inv.new x h, held-append x (some br) b.bufr, held-append x (some bw) b.bufw);
  reset = inv.reset;
  reads =
      λ x d h. ground (arith, inv.reads x d, pointer-append d br b.bufr, ==_iff d (length b.bufr));
  writes = λ x d h.
      ground
        (arith, inv.writes x d, inv.paired, pointer-append d bw b.bufw, ==_iff d (length b.bufw));
  flushed = inv.flushed;
  paired =
      omega (
        arith,
        inv.paired,
        length-append b.bufr (some br ∷ []),
        length-append b.bufw (some bw ∷ []),
      );
}
