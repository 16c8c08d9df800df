-- ===== src/Logger.antt =====
-- log/logger.go: the levels, the logger that the package makes once, and the lines it writes. A line
-- is the writer, the prefix and the arguments of Println; calls run one after another, as the mutex has
-- it. M is the type of the arguments.
mod Filtered
mod Tests
use gofrog.Prelude.{
  ℕ, ◌-◌, List, [], ◌∷◌, ◌++◌, Bool, true, false, ◌&&◌, if◌then◌else◌, leb, Option, none, some,
  Bytes, codes, same_bytes, map,
}

pub data LevelType : Type 0 where
  error_level warn_level info_level debug_level : LevelType

-- The value of a level, as iota counts them.
unfoldable pub level_value : LevelType → ℕ
level_value error_level = 0
level_value warn_level = 1
level_value info_level = 2
level_value debug_level = 3

-- strings.ToUpper on ASCII.
to_upper : Bytes → Bytes
to_upper = map (λ c. if leb 97 c && leb c 122 then c - 32 else c)

-- `getLogLevel`; env is the value of JFROG_LOG_LEVEL.
unfoldable pub level_from_env : Bytes → LevelType
unfolding to_upper
level_from_env env =
    let name = to_upper env in
    if same_bytes name (codes "ERROR")
    then error_level
    else if same_bytes name (codes "WARN")
    then warn_level
    else if same_bytes name (codes "DEBUG")
    then debug_level
    else info_level

pub data Stream : Type 0 where
  std_out std_err : Stream

-- A logger of Go's package log: its writer and its prefix.
pub record Writer : Type 0 where
  pub stream : Stream
  pub prefix : Bytes

pub record Line (M : Type 0) : Type 0 where
  pub writer : Writer
  pub values : M

pub record Logger : Type 0 where
  pub log_level : LevelType
  pub output_log : Option Writer
  pub debug_log : Option Writer
  pub info_log : Option Writer
  pub warn_log : Option Writer
  pub error_log : Option Writer

unfoldable pub level_name : LevelType → Bytes
level_name error_level = codes "Error"
level_name warn_level = codes "Warn"
level_name info_level = codes "Info"
level_name debug_level = codes "Debug"

unfoldable pub get_log_prefix : LevelType → Bytes
unfolding level_name
get_log_prefix level = codes "[" ++ level_name level ++ codes "] "

unfoldable pub set_log_level : LevelType → Logger → Logger
set_log_level level logger = record logger { log_level = level }

unfoldable pub set_output_writer : Logger → Logger
set_output_writer logger = record logger {
  output_log = some (record { stream = std_out; prefix = [] });
}

std_err_writer : LevelType → Option Writer
unfolding get_log_prefix
std_err_writer level = some (record { stream = std_err; prefix = get_log_prefix level })

unfoldable pub set_logs_writer : Logger → Logger
unfolding std_err_writer
set_logs_writer logger = record logger {
  debug_log = std_err_writer debug_level;
  info_log = std_err_writer info_level;
  warn_log = std_err_writer warn_level;
  error_log = std_err_writer error_level;
}

-- The fields of a new struct are zero.
unfoldable pub new_logger : LevelType → Logger
unfolding set_log_level set_output_writer set_logs_writer
new_logger level = set_logs_writer (
    set_output_writer (
      set_log_level level (record {
        log_level = error_level;
        output_log = none;
        debug_log = none;
        info_log = none;
        warn_log = none;
        error_log = none;
      })))

pub record Package (M : Type 0) : Type 0 where
  pub instance_logger : Option Logger
  pub lines : List (Line M)

-- The functions Debug, Info, Warn, Error and Output of the package.
pub data Call (M : Type 0) : Type 0 where
  debug info warn error output : M → Call M

module _ {M : Type 0} where
  -- A nil writer does not occur with the loggers of NewLogger; Println on it would panic.
  unfoldable pub println : Option Writer → M → Option (List (Line M))
  println none values = none
  println (some w) values = some (record { writer = w; values = values } ∷ [])

  log_at : LevelType → Option Writer → Logger → M → Option (List (Line M))
  unfolding println level_value
  log_at level w logger values =
      if leb (level_value level) (level_value logger.log_level) then println w values else some []

  -- The methods of Logger: the lines that they write.
  unfoldable pub method : Call M → Logger → Option (List (Line M))
  unfolding log_at
  method (debug a) logger = log_at debug_level logger.debug_log logger a
  method (info a) logger = log_at info_level logger.info_log logger a
  method (warn a) logger = log_at warn_level logger.warn_log logger a
  method (error a) logger = log_at error_level logger.error_log logger a
  method (output a) logger = println logger.output_log a

  -- `GetLogger`: the once makes the logger by the variable's value at that time.
  unfoldable pub get_logger : Bytes → Package M → Logger × Package M
  unfolding new_logger level_from_env
  get_logger env p = elim p.instance_logger [
    | none ↦
        let logger = new_logger (level_from_env env) in
        (logger, record p { instance_logger = some logger })
    | some logger ↦ (logger, p)
  ]

  append_lines : Package M → Option (List (Line M)) → Option (Package M)
  append_lines p none = none
  append_lines p (some l) = some (record p { lines = p.lines ++ l })

  unfoldable pub call : Bytes → Call M → Package M → Option (Package M)
  unfolding get_logger method append_lines
  call env c p = let (logger, p') = get_logger env p in append_lines p' (method c logger)

  -- Calls one after another, each with the value of the variable at its time.
  call_next : List (Bytes × Call M) → Option (Package M) → Option (Package M)
  unfolding call
  call_next [] p = p
  call_next (c ∷ cs) none = none
  call_next (c ∷ cs) (some p) = call_next cs (call c.0 c.1 p)

  unfoldable pub calls : List (Bytes × Call M) → Package M → Option (Package M)
  unfolding call_next
  calls cs p = call_next cs (some p)
