-- ===== src/Commands/Tests.antt =====
-- Runs of commands, and their theorems at concrete inputs.
use gofrog.Prelude.{ℕ, ◌≡◌, refl, List, [], ◌∷◌, Option, inl, none, some, Bytes, codes, same_bytes}
use gofrog.Version.{is_empty}
use gofrog.Strings.{join_texts}
use gofrog.Commands.{new_command, get_cmd, CmdConfig, CmdOutputPattern}
use gofrog.Commands.Running.{run_with_output, CmdError, exit_error, Process, run_cmd_output}

-- An environment as the list of what was set, last first.
abbrev setenv : List (Bytes × Bytes) → Bytes → Bytes → List (Bytes × Bytes) × Option ℕ
setenv s k v = ((k, v) ∷ s, none)

abbrev process : Option (CmdError ℕ) → List Bytes → Process ℕ
process end lines = record {
  stdout_pipe_error = none;
  stderr_pipe_error = none;
  start_error = none;
  stdout_lines = lines;
  stderr_lines = codes "warn" ∷ [];
  output = [];
  wait_error = end;
}

-- Marks a line "b", and fails at a line "bad".
abbrev marks : CmdOutputPattern ℕ
marks = record {
  match_string = λ line. same_bytes line (codes "b");
  find_string_submatch = λ line. line ∷ [];
  exec_func = λ results line. (codes "<b>", none);
}

abbrev fails : CmdOutputPattern ℕ
fails = record {
  match_string = λ line. same_bytes line (codes "bad");
  find_string_submatch = λ line. line ∷ [];
  exec_func = λ results line. (line, some 7);
}

abbrev config : CmdConfig ℕ
config = record {
  cmd = record { args = codes "ls" ∷ []; dir = [] };
  env = (codes "K", codes "v") ∷ [];
  std_writer = some 1;
  err_writer = some 2;
}

named :
    (get_cmd {W = ℕ} (new_command (codes "go") (codes "mod") (codes "tidy" ∷ []))).args
    ≡ codes "go" ∷ codes "mod" ∷ codes "tidy" ∷ []
unfolding get_cmd new_command is_empty
named = refl

-- The directory, the whole command line and what went to stderr are in the error.
failed_running :
    run_with_output {X = ℕ}
      (λ cmd. record { stdout = codes "o"; stderr = codes "why"; error = some 4 })
      (new_command {W = ℕ} (codes "go") (codes "mod") (codes "tidy" ∷ []))
    ≡ inl (record { dir = []; command_line = codes "go mod tidy"; error = 4; stderr = codes "why" })
unfolding run_with_output get_cmd new_command is_empty join_texts
failed_running = refl

partial_output :
    run_cmd_output setenv (process (some (exit_error 3)) []) config []
    ≡ ((codes "K", codes "v") ∷ [], 2 ∷ [], [], some (exit_error 3))
unfolding run_cmd_output
partial_output = refl
