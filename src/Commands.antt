-- ===== src/Commands.antt =====
-- io/cmd.go: external processes, and the patterns that the lines of their output are run through. The
-- process, the environment and the regular expressions are parameters; X is the type of the errors.
pub mod Running
pub mod Traversed
pub mod Closed
mod Tests
use gofrog.Prelude.{
  List, [], ◌∷◌, ◌++◌, Bool, true, false, if◌then◌else◌, Option, none, some, Bytes,
}
use gofrog.Version.{is_empty}

-- W is a writer that the caller gives, none for nil.
pub record Command (W : Type 0) : Type 0 where
  pub executable : Bytes
  pub cmd_name : Bytes
  pub cmd_args : List Bytes
  pub dir : Bytes
  pub str_writer : Option W
  pub err_writer : Option W

unfoldable pub new_command : {W : Type 0} → Bytes → Bytes → List Bytes → Command W
new_command executable cmd_name cmd_args = record {
  executable = executable;
  cmd_name = cmd_name;
  cmd_args = cmd_args;
  dir = [];
  str_writer = none;
  err_writer = none;
}

-- exec.Cmd: the arguments begin with the name.
pub record Cmd : Type 0 where
  pub args : List Bytes
  pub dir : Bytes

unfoldable pub get_cmd : {W : Type 0} → Command W → Cmd
unfolding is_empty
get_cmd config = record {
  args =
      config.executable ∷ (if is_empty config.cmd_name then [] else config.cmd_name ∷ [])
      ++ config.cmd_args;
  dir = config.dir;
}

-- An interface that a Command implements.
pub record CmdConfig (W : Type 0) : Type 0 where
  pub cmd : Cmd
  pub env : List (Bytes × Bytes)
  pub std_writer : Option W
  pub err_writer : Option W

unfoldable pub config_of : {W : Type 0} → Command W → CmdConfig W
unfolding get_cmd
config_of config = record {
  cmd = get_cmd config;
  env = [];
  std_writer = config.str_writer;
  err_writer = config.err_writer;
}

-- The regular expression of a pattern, and its function of the submatches and the line.
pub record CmdOutputPattern (X : Type 0) : Type 0 where
  pub match_string : Bytes → Bool
  pub find_string_submatch : Bytes → List Bytes
  pub exec_func : List Bytes → Bytes → Bytes × Option X

abbrev pub newline : Bytes
newline = 10 ∷ []

module _ {X : Type 0} where
  -- The line then, and the error that is sent.
  unfoldable pub after_exec : (Bytes → Bytes × Option X) → Bytes × Option X → Bytes × Option X
  after_exec next (line, some e) = (line, some e)
  after_exec next (line, none) = next line

  unfoldable pub process_line : List (CmdOutputPattern X) → Bytes → Bytes × Option X
  unfolding after_exec
  process_line [] line = (line, none)
  process_line (r ∷ rs) line =
      if r.match_string line
      then after_exec (process_line rs) (r.exec_func (r.find_string_submatch line) line)
      else process_line rs line

  -- The text of the builder, and the errors sent.
  unfoldable pub add_line : Bytes × Option X → Bytes × List X → Bytes × List X
  add_line (line, none) (text, errors) = (line ++ newline ++ text, errors)
  add_line (line, some e) (text, errors) = (line ++ newline ++ text, e ∷ errors)

  unfoldable pub scan_stdout : List (CmdOutputPattern X) → List Bytes → Bytes × List X
  unfolding process_line add_line
  scan_stdout rs [] = ([], [])
  scan_stdout rs (line ∷ lines) = add_line (process_line rs line) (scan_stdout rs lines)

  -- The loop over the errors stops at the first one.
  unfoldable pub add_until_error : Bytes × Option X → Bytes × List X → Bytes × List X
  add_until_error (line, none) (text, errors) = (line ++ newline ++ text, errors)
  add_until_error (line, some e) later = (line ++ newline, e ∷ [])

  unfoldable pub scan_stderr : List (CmdOutputPattern X) → List Bytes → Bytes × List X
  unfolding process_line add_until_error
  scan_stderr rs [] = ([], [])
  scan_stderr rs (line ∷ lines) = add_until_error (process_line rs line) (scan_stderr rs lines)

  -- The error that the unbuffered channel hands over first: each goroutine waits with its first one,
  -- and the flag says whether that of stdout comes first when both have one.
  unfoldable pub received : Bool → List X → List X → Option X
  received stdout_first [] [] = none
  received stdout_first (e ∷ es) [] = some e
  received stdout_first [] (f ∷ fs) = some f
  received stdout_first (e ∷ es) (f ∷ fs) = some (if stdout_first then e else f)
