-- ===== src/Io/Buffers.antt =====
-- The pools of bufio readers and writers of stratum/server/server.go, and the part of the connections
-- of stratum/server/conn.go that takes buffers and gives them back. A buffer and a connection are
-- known by a number. sync.Pool may give any buffer that was put, or none; which one it gives is an
-- argument, the place in the list.
pub mod Counts
pub mod Owned
pub mod Runs
use stratumserver.Prelude.{
  ℕ, zero, suc, length, ◌+◌, ◌*◌, ◌==◌, Bool, true, false, List, [], ◌∷◌, ◌++◌, Option, none, some,
  get_elem?, set, if◌then◌else◌,
}

-- What a buffer reads from or writes to: nothing after `Reset(nil)`, or a connection.
pub record Buffers : Type 0 where
  pub readers : List ℕ
  pub writers_2k : List ℕ
  pub writers_4k : List ℕ
  pub target : ℕ → Option ℕ
  pub size : ℕ → ℕ
  pub next : ℕ
  -- `bufr` and `bufw` of each connection; `none` is nil
  pub bufr : List (Option ℕ)
  pub bufw : List (Option ℕ)
  -- of each Flush the connection that called it and where the writer wrote to, latest first
  pub flushed : List (ℕ × Option ℕ)

abbrev pub update {ℓ} : {A : Type ℓ} → ℕ → A → (ℕ → A) → ℕ → A
update i v f j = if j == i then v else f j

abbrev pub remove_at : List ℕ → ℕ → List ℕ
remove_at [] i = []
remove_at (x ∷ xs) zero = xs
remove_at (x ∷ xs) (suc i) = x ∷ remove_at xs i

-- The pool for writers of a size: `&bufioWriter2kPool`, `&bufioWriter4kPool` or nil.
pub data WriterPool : Type 0 where
  pool_2k pool_4k no_pool : WriterPool

unfoldable pub bufio_writer_pool : ℕ → WriterPool
bufio_writer_pool size =
    if size == 2 * 1024 then pool_2k else if size == 4 * 1024 then pool_4k else no_pool

unfoldable pub put_bufio_reader : Buffers → ℕ → Buffers
put_bufio_reader b br = record b { readers = br ∷ b.readers; target = update br none b.target }

abbrev put_writer : WriterPool → Buffers → ℕ → Buffers
put_writer pool_2k b bw = record b { writers_2k = bw ∷ b.writers_2k }
put_writer pool_4k b bw = record b { writers_4k = bw ∷ b.writers_4k }
put_writer no_pool b bw = b

-- After Reset nothing is buffered, and Available is the size.
unfoldable pub put_bufio_writer : Buffers → ℕ → Buffers
unfolding bufio_writer_pool
put_bufio_writer b bw =
    put_writer (bufio_writer_pool (b.size bw)) (record b { target = update bw none b.target }) bw

abbrev fresh : Buffers → ℕ → ℕ → Buffers × ℕ
fresh b c size = (
  record b {
    target = update b.next (some c) b.target;
    size = update b.next size b.size;
    next = suc b.next;
  },
  b.next,
)

abbrev reused : Buffers → ℕ → ℕ → Buffers × ℕ
reused b c buf = (record b { target = update buf (some c) b.target }, buf)

-- What Get gave: nothing, or a buffer that left its pool, which makes the state `left`.
abbrev got : Option ℕ → Buffers → Buffers → ℕ → ℕ → Buffers × ℕ
got none left b c size = fresh b c size
got (some buf) left b c size = reused left c buf

-- newBufioReader for the connection `c`; bufio.NewReader makes one of 4096 bytes.
unfoldable pub new_bufio_reader : Buffers → ℕ → ℕ → Buffers × ℕ
new_bufio_reader b i c =
    got (get_elem? b.readers i) (record b { readers = remove_at b.readers i }) b c 4096

abbrev take_writer : WriterPool → Buffers → ℕ → ℕ → ℕ → Buffers × ℕ
take_writer pool_2k b i c size =
    got (get_elem? b.writers_2k i) (record b { writers_2k = remove_at b.writers_2k i }) b c size
take_writer pool_4k b i c size =
    got (get_elem? b.writers_4k i) (record b { writers_4k = remove_at b.writers_4k i }) b c size
take_writer no_pool b i c size = fresh b c size

unfoldable pub new_bufio_writer_size : Buffers → ℕ → ℕ → ℕ → Buffers × ℕ
unfolding bufio_writer_pool
new_bufio_writer_size b i c size = take_writer (bufio_writer_pool size) b i c size

-- serve of a new connection, whose number is the next: `c.bufr` and `c.bufw`.
unfoldable pub open_conn : Buffers → ℕ → ℕ → Buffers
open_conn b i j =
    let c = length b.bufr in
    let (b1, br) = new_bufio_reader b i c in
    let (b2, bw) = new_bufio_writer_size b1 j c (4 * 1024) in
    record b2 { bufr = b2.bufr ++ some br ∷ []; bufw = b2.bufw ++ some bw ∷ [] }

-- An element of a list of pointers; out of range there is none.
abbrev pub pointer : List (Option ℕ) → ℕ → Option ℕ
pointer [] i = none
pointer (o ∷ os) zero = o
pointer (o ∷ os) (suc i) = pointer os i

abbrev flush_reader : Option ℕ → Buffers → ℕ → Buffers
flush_reader none b c = b
flush_reader (some br) b c = put_bufio_reader (record b { bufr = set b.bufr c none }) br

abbrev flush_writer : Option ℕ → Buffers → ℕ → Buffers
flush_writer none b c = b
flush_writer (some bw) b c =
    put_bufio_writer (record b { bufw = set b.bufw c none; flushed = (c, b.target bw) ∷ b.flushed })
      bw

-- finalFlush. No other goroutine sees the buffers of the connection between a put and the nil.
unfoldable pub final_flush : Buffers → ℕ → Buffers
final_flush b c =
    let b' = flush_reader (pointer b.bufr c) b c in flush_writer (pointer b'.bufw c) b' c

-- What the connections do: they open, with the places that the pools choose, and flush for good, in
-- Close or in closeWriteAndWait, as often as they like.
pub data Use : Type 0 where
  opens : ℕ → ℕ → Use
  flushes : ℕ → Use

unfoldable pub use_buffers : Buffers → Use → Buffers
use_buffers b (opens i j) = open_conn b i j
use_buffers b (flushes c) = final_flush b c

pub run : Buffers → List Use → Buffers
run b [] = b
run b (u ∷ us) = run (use_buffers b u) us

abbrev pub no_buffers : Buffers
no_buffers = record {
  readers = [];
  writers_2k = [];
  writers_4k = [];
  target = λ x. none;
  size = λ x. 0;
  next = 0;
  bufr = [];
  bufw = [];
  flushed = [];
}
