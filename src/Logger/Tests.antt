-- ===== src/Logger/Tests.antt =====
-- Runs of log/logger.go, and its theorem at a concrete input.
use gofrog.Prelude.{ℕ, ◌≡◌, refl, List, [], ◌∷◌, ◌++◌, some, none, Bytes, codes, same_bytes}
use gofrog.Logger.{
  level_from_env, new_logger, get_log_prefix, level_name, warn_level, std_out, std_err, Package,
  Call, debug, warn, output, calls, call, method, println, level_value, get_logger, set_log_level,
  set_output_writer, set_logs_writer,
}
use gofrog.Logger.Filtered.{lines_of, calls-lines_of}

abbrev program : Unit {0}
unfolding level_from_env new_logger get_log_prefix level_name calls call method println level_value
    get_logger set_log_level set_output_writer set_logs_writer same_bytes
program = tt

-- The variable says WARN at the first call, and DEBUG later.
abbrev later : List (Bytes × Call ℕ)
later = (codes "DEBUG", warn 2) ∷ (codes "DEBUG", output 3) ∷ []

abbrev untouched_package : Package ℕ
untouched_package = record { instance_logger = none; lines = [] }

filtered :
    calls ((codes "warn", debug 1) ∷ later) untouched_package
    ≡ some (record {
      instance_logger = some (new_logger warn_level);
      lines =
          record { writer = record { stream = std_err; prefix = codes "[Warn] " }; values = 2 }
          ∷ record { writer = record { stream = std_out; prefix = [] }; values = 3 }
          ∷ [];
    })
unfolding program
filtered = refl

calls-lines_of_example :
    calls ((codes "warn", debug 1) ∷ later) untouched_package
    ≡ some (record {
      instance_logger = some (new_logger (level_from_env (codes "warn")));
      lines = [] ++ lines_of (level_from_env (codes "warn")) ((codes "warn", debug 1) ∷ later);
    })
calls-lines_of_example = calls-lines_of (codes "warn") (debug 1) later []
