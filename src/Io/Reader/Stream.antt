-- ===== src/Io/Reader/Stream.antt =====
-- The goroutines that use a connReader, one step for each hold of its lock, over the bytes that the
-- client sends.
use stratumserver.Prelude.{
  ℕ, ◌+◌, ◌≤◌, ◌<◌, ◌^◌, ◌≡◌, Bool, true, false, List, [], ◌∷◌, ◌++◌, none, some, length,
}
use stratumserver.Prelude.Int.{pos}
use stratumserver.Io.Reader.{
  no_deadline, ConnReader, ReadError, set_read_limit, answered, waiting, begin_read, end_read,
  start_background_read, background_read, abort_pending_read, end_abort,
}

-- Who waits for the network connection: nobody, a Read for so many bytes, or the background read.
pub data Waiting : Type 0 where
  nobody : Waiting
  reader_for : ℕ → Waiting
  watcher : Waiting

-- The reader, who waits, the bytes that the network connection will still give, those that Read has
-- returned, the last limit, and how many bytes Read took from the network connection since it was set.
pub record Stream : Type 0 where
  pub reader : ConnReader
  pub doing : Waiting
  pub incoming : List ℕ
  pub delivered : List ℕ
  pub limit : ℕ
  pub taken : ℕ

-- `&connReader{conn: c}`, before the client's bytes `sent` arrive.
abbrev pub connected : List ℕ → Stream
connected sent = record {
  reader = record {
    has_byte = false;
    byte_buf = 0;
    in_read = false;
    aborted = false;
    remain = pos 0;
    read_deadline = no_deadline;
    cancelled = false;
  };
  doing = nobody;
  incoming = sent;
  delivered = [];
  limit = 0;
  taken = 0;
}

pub data Step (s : Stream) : Stream → Type 0 where
  -- The limit is set by the goroutine that reads, when it does not.
  limits :
      (n : ℕ)
      → n < 2 ^ 63
      → s.doing ≡ nobody
      → Step s (record s { reader = set_read_limit (pos n) s.reader; limit = n; taken = 0 })
  answers :
      (len : ℕ) (cr : ConnReader) (bytes : List ℕ) (eof : Bool)
      → begin_read s.reader len ≡ (cr, answered bytes eof)
      → Step s (record s { reader = cr; delivered = s.delivered ++ bytes })
  waits :
      (len n : ℕ) (cr : ConnReader)
      → begin_read s.reader len ≡ (cr, waiting n)
      → Step s (record s { reader = cr; doing = reader_for n })
  receives :
      (n : ℕ) (bytes rest : List ℕ) (err : ReadError)
      → s.doing ≡ reader_for n
      → s.incoming ≡ bytes ++ rest
      → length bytes ≤ n
      → Step s (record s {
        reader = end_read s.reader (length bytes) err;
        doing = nobody;
        incoming = rest;
        delivered = s.delivered ++ bytes;
        taken = s.taken + length bytes;
      })
  watches :
      (cr : ConnReader)
      → start_background_read s.reader ≡ some (cr, true)
      → Step s (record s { reader = cr; doing = watcher })
  sees :
      (b : ℕ) (rest : List ℕ) (err : ReadError)
      → s.doing ≡ watcher
      → s.incoming ≡ b ∷ rest
      → Step s (record s {
        reader = background_read s.reader (some b) err;
        doing = nobody;
        incoming = rest;
      })
  sees_nothing :
      (err : ReadError)
      → s.doing ≡ watcher
      → Step s (record s { reader = background_read s.reader none err; doing = nobody })
  aborts : Step s (record s { reader = (abort_pending_read s.reader).0 })
  aborted : Step s (record s { reader = end_abort s.reader })

pub data Reaches (s : Stream) : Stream → Type 0 where
  here : Reaches s s
  next : {t u : Stream} → Reaches s t → Step t u → Reaches s u
