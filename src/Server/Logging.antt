-- ===== src/Server/Logging.antt =====
-- loggingConn of stratum/server/server.go, which a constant of the source turns off: its name, and what
-- it logs beside the calls that it hands on. The lock is held for the whole of newLoggingConn.
pub mod Names
use stratumserver.Prelude.{
  ℕ, suc, Bool, List, [], ◌∷◌, ◌++◌, Option, none, some, length, bytes_eq, if◌then◌else◌,
}
use stratumserver.Prelude.Int.{ℤ, pos, negsuc}
use stratumserver.Prelude.Int64.{add64}
use stratumserver.Prelude.Decimal.{decimal}

-- uniqNameNext: a missing key is 0.
abbrev pub Counts : Type 0
Counts = List ℕ → ℤ

-- `%d`
abbrev pub signed : ℤ → List ℕ
signed (pos n) = decimal n
signed (negsuc n) = 45 ∷ decimal (suc n)

abbrev pub name_of : List ℕ → ℤ → List ℕ
name_of base k = base ++ 45 ∷ signed k

abbrev pub put_count : List ℕ → ℤ → Counts → Counts
put_count base k m b = if bytes_eq b base then k else m b

-- newLoggingConn, by the name that it gives.
unfoldable pub new_logging_conn : Counts → List ℕ → Counts × List ℕ
new_logging_conn m base = let k = add64 (m base) (pos 1) in (put_count base k m, name_of base k)

-- What is logged of a call: that it begins, with the length, and how it ended, with the count.
pub data Entry : Type 0 where
  begins : List ℕ → ℕ → Entry
  fails : List ℕ → ℕ → ℕ → Entry
  ends : List ℕ → ℕ → Entry

abbrev ended : List ℕ → ℕ × Option ℕ → Entry
ended name (n, none) = ends name n
ended name (n, some e) = fails name n e

-- Write; the answer of the connection inside is a parameter.
unfoldable pub logged_write :
    (List ℕ → ℕ × Option ℕ) → List ℕ → List ℕ → (ℕ × Option ℕ) × List Entry
logged_write write name p = let r = write p in (r, begins name (length p) ∷ ended name r ∷ [])

-- Read into a slice of a length.
unfoldable pub logged_read : (ℕ → ℕ × Option ℕ) → List ℕ → ℕ → (ℕ × Option ℕ) × List Entry
logged_read read name len = let r = read len in (r, begins name len ∷ ended name r ∷ [])

unfoldable pub logged_close : Option ℕ → List ℕ → Option ℕ × List Entry
logged_close answer name = (answer, begins name 0 ∷ ended name (0, answer) ∷ [])

-- The names of the connections that are made one after the other.
unfoldable pub names : Counts → List (List ℕ) → List (List ℕ)
unfolding new_logging_conn
names m [] = []
names m (base ∷ bases) = let (m', name) = new_logging_conn m base in name ∷ names m' bases
