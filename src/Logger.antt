-- ===== src/Logger.antt =====
-- logger/log.go: the writers of the log, its level, and the line that configure writes. How zerolog
-- lays a line out, with its time, is not modelled.
use stratumserver.Prelude.{
  ℕ, ◌≡◌, ◌↔◌, Bool, true, false, ◌&&◌, List, [], ◌∷◌, ◌++◌, Option, none, some, if◌then◌else◌,
  ◌>>=◌, arith,
}
use stratumserver.Prelude.Int.{ℤ, pos}

pub record Config : Type 0 where
  pub console_logging_enabled : Bool
  pub encode_logs_as_json : Bool
  pub file_logging_enabled : Bool
  pub directory : List ℕ
  pub filename : List ℕ
  pub max_size_mb : ℤ
  pub max_backups : ℤ
  pub max_age_days : ℤ

-- The fields of lumberjack's Logger that the code sets.
pub record RollingFile : Type 0 where
  pub filename : List ℕ
  pub max_backups : ℤ
  pub max_size : ℤ
  pub max_age : ℤ

-- An io.Writer of the code; nil_writer is the interface that holds nothing.
pub data Writer : Type 0 where
  console_writer : Writer
  rolling_file : RollingFile → Writer
  nil_writer : Writer

-- The levels of zerolog that the code names.
pub data Level : Type 0 where
  trace_level : Level
  info_level : Level

-- The value of a field of a line: Bool, Str or Int.
pub data Field : Type 0 where
  bool_field : Bool → Field
  str_field : List ℕ → Field
  int_field : ℤ → Field

-- A line of the log: its level and its fields in their order. Their names and the message of the only
-- line are constants.
pub record Line : Type 0 where
  pub level : Level
  pub fields : List Field

-- What configure leaves: the writers of the logger, the global level, the line, and the writers that
-- took it.
pub record Configured : Type 0 where
  pub writers : List Writer
  pub global_level : Level
  pub line : Line
  pub taken : List Writer

-- os.MkdirAll: whether it gave an error; path.Join; whether zerolog writes a line of a level under a
-- global level; and whether the writers before the first nil one take the line, for else
-- io.MultiWriter stops before it.
pub record System : Type 0 where
  pub mkdir_fails : List ℕ → Bool
  pub join : List ℕ → List ℕ → List ℕ
  pub emits : Level → Level → Bool
  pub takes : Writer → Bool

module _ (sys : System) where
  unfoldable pub new_rolling_file : Config → Writer
  new_rolling_file config =
      if sys.mkdir_fails config.directory
      then nil_writer
      else rolling_file (record {
        filename = sys.join config.directory config.filename;
        max_backups = config.max_backups;
        max_size = config.max_size_mb;
        max_age = config.max_age_days;
      })

  unfoldable pub writers : Config → List Writer
  unfolding new_rolling_file
  writers config =
      (if config.console_logging_enabled then console_writer ∷ [] else [])
      ++ (if config.file_logging_enabled then new_rolling_file config ∷ [] else [])

  -- A line to the writers of io.MultiWriter, in their order, up to the first error; `none` is the
  -- panic of a nil writer.
  unfoldable pub write_line : List Writer → Option (List Writer)
  write_line [] = some []
  write_line (nil_writer ∷ ws) = none
  write_line (w ∷ ws) =
      let rest = write_line ws in if sys.takes w then (do done ← rest; some (w ∷ done)) else some []

  unfoldable pub first_line : Config → Line
  first_line config = record {
    level = info_level;
    fields =
        bool_field config.file_logging_enabled
        ∷ bool_field config.encode_logs_as_json
        ∷ str_field config.directory
        ∷ str_field config.filename
        ∷ int_field config.max_size_mb
        ∷ int_field config.max_backups
        ∷ int_field config.max_age_days
        ∷ [];
  }

  -- Msg of a line under a global level: the writers that took it.
  unfoldable pub send : Level → Line → List Writer → Option (List Writer)
  send global line ws =
      let rest = write_line ws in if sys.emits global line.level then rest else some []

  unfoldable pub configure : Config → Option Configured
  unfolding writers write_line first_line send
  configure config = do
    let ws : List Writer = writers config
    let line : Line = first_line config
    done ← send trace_level line ws
    some (record { writers = ws; global_level = trace_level; line = line; taken = done })

  -- `./` and `operations.log`
  abbrev pub init_config : Config
  init_config = record {
    console_logging_enabled = true;
    encode_logs_as_json = false;
    file_logging_enabled = true;
    directory = 46 ∷ 47 ∷ [];
    filename = 111 ∷ 112 ∷ 101 ∷ 114 ∷ 97 ∷ 116 ∷ 105 ∷ 111 ∷ 110 ∷ 115 ∷ 46 ∷ 108 ∷ 111 ∷ 103 ∷ [];
    max_size_mb = pos 10;
    max_backups = pos 1;
    max_age_days = pos 7;
  }

  unfoldable pub init : Option Configured
  unfolding configure
  init = configure init_config

  -- If zerolog writes at Info under Trace and the console takes lines, configure panics exactly when
  -- the log goes to a file too and the directory of that file cannot be made.
  pub configure_panics :
      (config : Config)
      → sys.emits trace_level info_level ≡ true
      → sys.takes console_writer ≡ true
      → (configure config ≡ none)
        ↔ ((config.file_logging_enabled && sys.mkdir_fails config.directory) ≡ true)
  unfolding configure writers write_line first_line send new_rolling_file
  configure_panics config emitted taken = ground (arith, emitted, taken)
