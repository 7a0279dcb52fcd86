-- ===== src/Io/Buffers/Runs.antt =====
-- The buffers of the connections through any sequence of opens and flushes.
use stratumserver.Prelude.{
  ◌*◌, ◌⊎◌, ℕ, ◌≤◌, ◌≡◌, ◌≢◌, refl, sym, ap, ◌∙◌, Bool, List, [], ◌∷◌, Option, none, some, length,
  set, arith, if◌then◌else◌, ◌==◌, All, ==_iff, inl, inr, length-set,
}
use stratumserver.Io.Buffers.{
  pool_2k, pool_4k, no_pool, put_writer, bufio_writer_pool, WriterPool, Buffers, pointer,
  new_bufio_reader, new_bufio_writer_size, open_conn, final_flush, flush_reader, flush_writer, Use,
  opens, flushes, use_buffers, run, no_buffers, put_bufio_reader, put_bufio_writer,
}
use stratumserver.Io.Buffers.Counts.{held-set, pointer-set}
use stratumserver.Io.Buffers.Owned.{
  total, IsOwned, attach-IsOwned, put_bufio_reader-IsOwned, put_bufio_writer-IsOwned,
  new_bufio_reader-IsTaken, new_bufio_writer_size-IsTaken,
}

own : (x c : ℕ) (o : Option ℕ) → (if x == x then some c else o) ≡ some c
own x c o = rw ((==_iff x x).1 refl) refl

kept : (t : Bool) (c : ℕ) (o : Option ℕ) → o ≡ some c → (if t then some c else o) ≡ some c
kept t c o e = ground arith

open_conn-IsOwned : (b : Buffers) (i j : ℕ) → IsOwned [] b → IsOwned [] (open_conn b i j)
unfolding open_conn
open_conn-IsOwned b i j inv =
    let c = length b.bufr in
    let r1 = new_bufio_reader b i c in
    let t1 = new_bufio_reader-IsTaken [] b c inv i in
    let r2 = new_bufio_writer_size r1.0 j c (4 * 1024) in
    let t2 = new_bufio_writer_size-IsTaken (r1.1 ∷ []) r1.0 c t1.owned j (4 * 1024) in
    let here : length r2.0.bufr ≡ c = ap length (t2.same.0 ∙ t1.same.0) in
    attach-IsOwned r2.0 r1.1 r2.1 t2.owned
      (t2.target r1.1
        ∙ kept (r1.1 == r2.1) c (r1.0.target r1.1) (t1.target r1.1 ∙ own r1.1 c _)
        ∙ ap some (sym here))
      (t2.target r2.1 ∙ own r2.1 c _ ∙ ap some (sym here))

detach_reader-IsOwned :
    (b : Buffers) (c br : ℕ)
    → IsOwned [] b
    → pointer b.bufr c ≡ some br
    → IsOwned (br ∷ []) (record b { bufr = set b.bufr c none })
detach_reader-IsOwned b c br inv e = record {
  once = λ x. ground (arith, inv.once x, held-set x c none b.bufr);
  new = λ x h. ground (arith, inv.new x, held-set x c none b.bufr);
  reset = inv.reset;
  reads = λ x d h. ground (arith, inv.reads x d, pointer-set c d b.bufr);
  writes = inv.writes;
  flushed = inv.flushed;
  paired = omega (arith, inv.paired, length-set b.bufr c none);
}

detach_writer-IsOwned :
    (b : Buffers) (c bw : ℕ)
    → IsOwned [] b
    → pointer b.bufw c ≡ some bw
    → IsOwned
        (bw ∷ [])
        (record b { bufw = set b.bufw c none; flushed = (c, b.target bw) ∷ b.flushed })
detach_writer-IsOwned b c bw inv e = record {
  once = λ x. ground (arith, inv.once x, held-set x c none b.bufw);
  new = λ x h. ground (arith, inv.new x, held-set x c none b.bufw);
  reset = inv.reset;
  reads = inv.reads;
  writes = λ x d h. ground (arith, inv.writes x d, pointer-set c d b.bufw);
  flushed = (inv.writes bw c e, inv.flushed);
  paired = omega (arith, inv.paired, length-set b.bufw c none);
}

flush_reader-IsOwned :
    (b : Buffers) (c : ℕ) (o : Option ℕ)
    → IsOwned [] b
    → pointer b.bufr c ≡ o
    → IsOwned [] (flush_reader o b c)
flush_reader-IsOwned b c none inv e = inv
flush_reader-IsOwned b c (some br) inv e =
    put_bufio_reader-IsOwned [] _ br (detach_reader-IsOwned b c br inv e)

flush_writer-IsOwned :
    (b : Buffers) (c : ℕ) (o : Option ℕ)
    → IsOwned [] b
    → pointer b.bufw c ≡ o
    → IsOwned [] (flush_writer o b c)
flush_writer-IsOwned b c none inv e = inv
flush_writer-IsOwned b c (some bw) inv e =
    put_bufio_writer-IsOwned [] _ bw (detach_writer-IsOwned b c bw inv e)

final_flush-IsOwned : (b : Buffers) (c : ℕ) → IsOwned [] b → IsOwned [] (final_flush b c)
unfolding final_flush
final_flush-IsOwned b c inv =
    let b' = flush_reader (pointer b.bufr c) b c in
    flush_writer-IsOwned b' c (pointer b'.bufw c)
      (flush_reader-IsOwned b c (pointer b.bufr c) inv refl) refl

use_buffers-IsOwned : (b : Buffers) (u : Use) → IsOwned [] b → IsOwned [] (use_buffers b u)
unfolding use_buffers
use_buffers-IsOwned b (opens i j) inv = open_conn-IsOwned b i j inv
use_buffers-IsOwned b (flushes c) inv = final_flush-IsOwned b c inv

run-IsOwned : (b : Buffers) (us : List Use) → IsOwned [] b → IsOwned [] (run b us)
unfolding run
run-IsOwned b [] inv = inv
run-IsOwned b (u ∷ us) inv = run-IsOwned (use_buffers b u) us (use_buffers-IsOwned b u inv)

empty_pointer : (x c : ℕ) → pointer [] c ≢ some x
empty_pointer x c e = cc

no_buffers-IsOwned : IsOwned [] no_buffers
no_buffers-IsOwned = record {
  once = λ x. omega arith;
  new = λ x h. omega arith;
  reset = λ x h. refl;
  reads = λ x c h. absurd (empty_pointer x c h);
  writes = λ x c h. absurd (empty_pointer x c h);
  flushed = tt;
  paired = refl;
}

-- Through any sequence of opens and flushes, whatever the pools give, a buffer is in a pool once, or is
-- a buffer of one connection, or neither; none is put twice.
pub run_once : (us : List Use) (x : ℕ) → total x (run no_buffers us) ≤ 1
run_once us x = omega (arith, (run-IsOwned no_buffers us no_buffers-IsOwned).once x)

-- The connection that a buffer of a connection reads from or writes to.
owner :
    (b : Buffers) (x c : ℕ)
    → IsOwned [] b
    → (pointer b.bufr c ≡ some x) ⊎ (pointer b.bufw c ≡ some x)
    → b.target x ≡ some c
owner b x c inv (inl e) = inv.reads x c e
owner b x c inv (inr e) = inv.writes x c e

same_some : (c d : ℕ) → ◌≡◌ {A = Option ℕ} (some c) (some d) → c ≡ d
same_some c d e = ground arith

-- No two connections ever have a buffer in common.
pub run_apart :
    (us : List Use) (x c d : ℕ)
    → (pointer (run no_buffers us).bufr c ≡ some x) ⊎ (pointer (run no_buffers us).bufw c ≡ some x)
    → (pointer (run no_buffers us).bufr d ≡ some x) ⊎ (pointer (run no_buffers us).bufw d ≡ some x)
    → c ≡ d
run_apart us x c d h k =
    let inv = run-IsOwned no_buffers us no_buffers-IsOwned in
    same_some c d (sym (owner _ x c inv h) ∙ owner _ x d inv k)

-- Every Flush writes to the connection that calls it.
pub run-flushed : (us : List Use) → All (λ f. f.1 ≡ some f.0) (run no_buffers us).flushed
run-flushed us = (run-IsOwned no_buffers us no_buffers-IsOwned).flushed

pointer-cleared : (c : ℕ) (os : List (Option ℕ)) → pointer (set os c none) c ≡ none
pointer-cleared c os = pointer-set c c os ∙ rw ((==_iff c c).1 refl) refl

flush_reader_clears :
    (b : Buffers) (c : ℕ) (o : Option ℕ)
    → pointer b.bufr c ≡ o
    → pointer (flush_reader o b c).bufr c ≡ none
unfolding put_bufio_reader
flush_reader_clears b c none e = e
flush_reader_clears b c (some br) e = pointer-cleared c b.bufr

put_writer_frame :
    (p : WriterPool) (b : Buffers) (bw : ℕ)
    → ((put_writer p b bw).bufr ≡ b.bufr) × ((put_writer p b bw).bufw ≡ b.bufw)
put_writer_frame pool_2k b bw = (refl, refl)
put_writer_frame pool_4k b bw = (refl, refl)
put_writer_frame no_pool b bw = (refl, refl)

flush_writer_clears :
    (b : Buffers) (c : ℕ) (o : Option ℕ)
    → pointer b.bufw c ≡ o
    → (pointer (flush_writer o b c).bufw c ≡ none) × ((flush_writer o b c).bufr ≡ b.bufr)
unfolding put_bufio_writer
flush_writer_clears b c none e = (e, refl)
flush_writer_clears b c (some bw) e =
    let (p, q) = put_writer_frame (bufio_writer_pool (b.size bw)) _ bw in
    (ap (λ os. pointer os c) q ∙ pointer-cleared c b.bufw, p)

final_flush_clears :
    (b : Buffers) (c : ℕ)
    → (pointer (final_flush b c).bufr c ≡ none) × (pointer (final_flush b c).bufw c ≡ none)
unfolding final_flush
final_flush_clears b c =
    let b' = flush_reader (pointer b.bufr c) b c in
    let (p, q) = flush_writer_clears b' c (pointer b'.bufw c) refl in
    (ap (λ os. pointer os c) q ∙ flush_reader_clears b c (pointer b.bufr c) refl, p)

no_buffers_left :
    (b : Buffers) (c : ℕ) → pointer b.bufr c ≡ none → pointer b.bufw c ≡ none → final_flush b c ≡ b
unfolding final_flush
no_buffers_left b c p q = rw (p, q) refl

-- A second finalFlush, as that of Close after closeWriteAndWait, changes nothing.
pub final_flush_twice : (b : Buffers) (c : ℕ) → final_flush (final_flush b c) c ≡ final_flush b c
final_flush_twice b c =
    let (p, q) = final_flush_clears b c in no_buffers_left (final_flush b c) c p q
