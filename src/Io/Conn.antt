-- ===== src/Io/Conn.antt =====
-- readMessage, Close and closeWriteAndWait of stratum/server/conn.go, and checkConnErrorWriter of
-- stratum/server/server.go. Times are int64 nanoseconds; `none` is a deadline that is not set.
pub mod Session
use stratumserver.Prelude.{
  ℕ, ◌==◌, Bool, true, false, not, ◌&&◌, ◌||◌, List, [], ◌∷◌, Option, none, some, if◌then◌else◌,
}
use stratumserver.Prelude.Int.{ℤ, pos, pos_part, neg_part}
use stratumserver.Prelude.Int64.{add64}
use stratumserver.Server.{Server, header_timeout, initial_read_limit_size}
use stratumserver.Server.Shutdown.{first_error}
use stratumserver.Worker.{JsonRpcRequest}
use stratumserver.Worker.Loop.{Reading, message, no_message, end_of_file, other_error, net_error}
use stratumserver.Io.Reader.{Deadline, no_deadline, deadline_at, ConnReader, set_read_limit}

-- The connection: its reader, the write deadline, the first write error, whether `bufr` and `bufw` are
-- there, and whether the network connection is closed for writing or closed.
pub record Conn : Type 0 where
  pub reader : ConnReader
  pub write_deadline : Deadline
  pub werr : Option ℕ
  pub has_bufr : Bool
  pub has_bufw : Bool
  pub write_shut : Bool
  pub closed : Bool

abbrev is_some : Option ℕ → Bool
is_some none = false
is_some (some e) = true

-- Write of checkConnErrorWriter, with the error of the network connection.
unfoldable pub check_conn_write : Conn → Option ℕ → Conn
check_conn_write c err = record c {
  werr = first_error c.werr err;
  reader = record c.reader {
    cancelled = c.reader.cancelled || (is_some err && not (is_some c.werr));
  };
}

unfoldable pub flush_conn : Conn → Conn
flush_conn c = record c { has_bufr = false; has_bufw = false }

-- Close
unfoldable pub close : Conn → Conn
unfolding flush_conn
close c = record (flush_conn c) { closed = true }

-- closeWriteAndWait, of a connection that is or is not a TCP connection.
unfoldable pub close_write_and_wait : Bool → Conn → Conn
unfolding flush_conn
close_write_and_wait is_tcp c = record (flush_conn c) { write_shut = c.write_shut || is_tcp }

-- What ReadBytes gives: a line, or an error, which is io.EOF, a net.Error with its Timeout and its
-- Temporary, or another.
pub data Line : Type 0 where
  line : List ℕ → Line
  line_eof : Line
  line_net_error : Bool → Bool → Line
  line_error : Line

abbrev is_zero : ℤ → Bool
is_zero z = pos_part z == 0 && neg_part z == 0

abbrev deadline : ℤ → ℤ → Deadline
deadline t d = if not (is_zero d) then deadline_at (add64 t d) else no_deadline

-- json.Unmarshal into a pointer to a request, as a parameter: an error, the pointer left nil, or a
-- request.
abbrev pub Unmarshal : Type 0
Unmarshal = List ℕ → Option (Option JsonRpcRequest)

abbrev unmarshalled : Bool → Conn → Option (Option JsonRpcRequest) → Conn × Reading
unmarshalled is_tcp c none = (close_write_and_wait is_tcp c, other_error)
unmarshalled is_tcp c (some none) = (c, no_message)
unmarshalled is_tcp c (some (some m)) = (c, message m)

abbrev read_line : Unmarshal → Bool → Conn → Line → Conn × Reading
read_line unmarshal is_tcp c (line raw) = unmarshalled is_tcp c (unmarshal raw)
read_line unmarshal is_tcp c line_eof = (c, end_of_file)
read_line unmarshal is_tcp c (line_net_error timeout temporary) = (c, net_error timeout temporary)
read_line unmarshal is_tcp c line_error = (c, other_error)

-- What readMessage sets up at the time `t`.
unfoldable pub prepare : Server → ℤ → Conn → Conn
prepare s t c = record c {
  reader =
      set_read_limit (initial_read_limit_size s)
        (record c.reader { read_deadline = deadline t (header_timeout s) });
}

-- The deferred call, at the time `t`.
unfoldable pub after_read : Server → ℤ → Conn → Conn
after_read s t c =
    if not (is_zero s.write_timeout)
    then record c { write_deadline = deadline_at (add64 t s.write_timeout) }
    else c

-- readMessage, from `t0` to `t1`; `took` is what the reads of the connection's reader did meanwhile.
unfoldable pub read_message :
    Unmarshal → Bool → Server → ℤ → ℤ → (ConnReader → ConnReader) → Line → Conn → Conn × Reading
unfolding prepare after_read
read_message unmarshal is_tcp s t0 t1 took l c =
    let ready = prepare s t0 c in
    let (c', reading) =
      read_line unmarshal is_tcp (record ready { reader = took ready.reader }) l in
    (after_read s t1 c', reading)
