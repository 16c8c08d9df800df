-- ===== src/Logger/Filtered.antt =====
-- log/logger.go: which of a sequence of calls are written.
use mathlib.Core.List.{append_assoc, append-nil}
use gofrog.Prelude.{◌≡◌, ◌∙◌, ap, List, [], ◌∷◌, ◌++◌, if◌then◌else◌, leb, none, some, Bytes, arith}
use gofrog.Logger.{
  LevelType, error_level, warn_level, info_level, debug_level, level_value, level_from_env, std_out,
  std_err, Line, get_log_prefix, new_logger, Call, debug, info, warn, error, output, println,
  log_at, method, get_logger, append_lines, call, call_next, calls,
}

module _ {M : Type 0} where
  abbrev pub at_level : LevelType → LevelType → M → List (Line M)
  at_level threshold level a =
      if leb (level_value level) (level_value threshold)
      then record {
        writer = record { stream = std_err; prefix = get_log_prefix level };
        values = a;
      }
        ∷ []
      else []

  -- The lines of a call at a level, without a logger.
  abbrev pub line_of : LevelType → Call M → List (Line M)
  line_of threshold (output a) =
      record { writer = record { stream = std_out; prefix = [] }; values = a } ∷ []
  line_of threshold (debug a) = at_level threshold debug_level a
  line_of threshold (info a) = at_level threshold info_level a
  line_of threshold (warn a) = at_level threshold warn_level a
  line_of threshold (error a) = at_level threshold error_level a

  abbrev pub lines_of : LevelType → List (Bytes × Call M) → List (Line M)
  lines_of threshold [] = []
  lines_of threshold (c ∷ cs) = line_of threshold c.1 ++ lines_of threshold cs

  method_lem :
      (c : Call M) (level : LevelType) → method c (new_logger level) ≡ some (line_of level c)
  unfolding method new_logger println log_at
  method_lem (debug a) level = ground arith
  method_lem (info a) level = ground arith
  method_lem (warn a) level = ground arith
  method_lem (error a) level = ground arith
  method_lem (output a) level = ground arith

  call_made :
      (env : Bytes) (c : Call M) (level : LevelType) (l : List (Line M))
      → call env c (record { instance_logger = some (new_logger level); lines = l })
        ≡ some (record { instance_logger = some (new_logger level); lines = l ++ line_of level c })
  unfolding call get_logger append_lines
  call_made env c level l = ground (arith, method_lem c level)

  call_next_made :
      (cs : List (Bytes × Call M)) (level : LevelType) (l : List (Line M))
      → call_next cs (some (record { instance_logger = some (new_logger level); lines = l }))
        ≡ some
            (record { instance_logger = some (new_logger level); lines = l ++ lines_of level cs })
  unfolding call_next
  call_next_made [] level l = ground (arith, append-nil l)
  call_next_made (c ∷ cs) level l =
      ap (call_next cs) (call_made c.0 c.1 level l)
      ∙ call_next_made cs level (l ++ line_of level c.1)
      ∙ ap (λ m. some (record { instance_logger = some (new_logger level); lines = m }))
          (append_assoc l (line_of level c.1) (lines_of level cs))

  -- From a package that has made no logger, a sequence of calls never fails, and it writes the lines of
  -- exactly those calls that the level allows: the level is what the environment variable said at
  -- the first call, and later values are ignored. Output is written at every level, to the standard
  -- output and without a prefix; the others go to the standard error with the prefix of their level.
  pub calls-lines_of :
      (env : Bytes) (c : Call M) (cs : List (Bytes × Call M)) (l : List (Line M))
      → calls ((env, c) ∷ cs) (record { instance_logger = none; lines = l })
        ≡ some (record {
          instance_logger = some (new_logger (level_from_env env));
          lines = l ++ lines_of (level_from_env env) ((env, c) ∷ cs);
        })
  unfolding calls call_next call get_logger append_lines
  calls-lines_of env c cs l = call_next_made ((env, c) ∷ cs) (level_from_env env) l
