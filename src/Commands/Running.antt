-- ===== src/Commands/Running.antt =====
-- io/cmd.go: RunCmdOutput, RunCmd, RunCmdWithOutputParser and RunWithOutput.
use gofrog.Prelude.{
  ◌⊎◌, inl, inr, List, [], ◌∷◌, ◌++◌, Bool, true, false, Option, none, some, Bytes,
}
use gofrog.Strings.{join_texts}
use gofrog.Commands.{
  Command, Cmd, get_cmd, CmdConfig, CmdOutputPattern, scan_stdout, scan_stderr, received,
}

-- An error of the process is an ExitError or another one; `plain` is a new error with its text.
pub data CmdError (X : Type 0) : Type 0 where
  exit_error of_os plain : X → CmdError X

-- What the process answers.
pub record Process (X : Type 0) : Type 0 where
  pub stdout_pipe_error : Option X
  pub stderr_pipe_error : Option X
  pub start_error : Option X
  pub stdout_lines : List Bytes
  pub stderr_lines : List Bytes
  pub output : Bytes
  pub wait_error : Option (CmdError X)

-- stdOut, errorOut, exitOk and err.
pub record Parsed (X : Type 0) : Type 0 where
  pub std_out : Bytes
  pub error_out : Bytes
  pub exit_ok : Bool
  pub err : Option (CmdError X)

-- S is the environment of the program.
module _ {S X : Type 0} (setenv : S → Bytes → Bytes → S × Option X) where
  after_setenv : (S → S × Option X) → S × Option X → S × Option X
  after_setenv next (s, some e) = (s, some e)
  after_setenv next (s, none) = next s

  unfoldable pub set_all : List (Bytes × Bytes) → S → S × Option X
  unfolding after_setenv
  set_all [] s = (s, none)
  set_all (p ∷ ps) s = after_setenv (set_all ps) (setenv s p.0 p.1)

-- The deferred Close of a writer that is not nil.
abbrev pub closes : {W : Type 0} → Option W → List W
closes none = []
closes (some w) = w ∷ []

module _ {X : Type 0} where
  unfoldable pub hide_exit : Option (CmdError X) → Option (CmdError X)
  hide_exit none = none
  hide_exit (some (exit_error e)) = some (plain e)
  hide_exit (some (of_os e)) = some (of_os e)
  hide_exit (some (plain e)) = some (plain e)

  unfoldable pub started_error : Option X → Option (CmdError X) → Option (CmdError X)
  unfolding hide_exit
  started_error (some e) waited = some (of_os e)
  started_error none waited = hide_exit waited

  abbrev pub failed : Option (CmdError X) → Parsed X
  failed err = record { std_out = []; error_out = []; exit_ok = false; err = err }

  unfoldable pub waited : Bytes → Bytes → Option (CmdError X) → Parsed X
  waited std_out error_out (some e) = record {
    std_out = std_out;
    error_out = error_out;
    exit_ok = false;
    err = some e;
  }
  waited std_out error_out none = record {
    std_out = std_out;
    error_out = error_out;
    exit_ok = true;
    err = none;
  }

  unfoldable pub parsed : Option (CmdError X) → Bool → Bytes × List X → Bytes × List X → Parsed X
  unfolding waited
  parsed end stdout_first (out, es) (err, fs) = elim (received stdout_first es fs) [
    | some e ↦ failed (some (of_os e))
    | none ↦ waited out err end
  ]

  module _ {S : Type 0} (setenv : S → Bytes → Bytes → S × Option X) (process : Process X) where
    unfoldable pub with_env :
        {W : Type 0} → S × Option X → CmdConfig W → S × List W × Option (CmdError X)
    unfolding started_error
    with_env (s, some e) config = (s, [], some (of_os e))
    with_env (s, none) config = (
      s,
      closes config.err_writer ++ closes config.std_writer,
      started_error process.start_error process.wait_error,
    )

    -- The environment, the writers closed, in order, and the error.
    unfoldable pub run_cmd : {W : Type 0} → CmdConfig W → S → S × List W × Option (CmdError X)
    unfolding set_all with_env
    run_cmd config s = with_env (set_all setenv config.env s) config

    output_with_env :
        {W : Type 0} → S × Option X → CmdConfig W → S × List W × Bytes × Option (CmdError X)
    output_with_env (s, some e) config = (s, [], [], some (of_os e))
    output_with_env (s, none) config = elim process.start_error [
      | some e ↦ (s, closes config.err_writer, [], some (of_os e))
      | none ↦ (s, closes config.err_writer, process.output, process.wait_error)
    ]

    unfoldable pub run_cmd_output :
        {W : Type 0} → CmdConfig W → S → S × List W × Bytes × Option (CmdError X)
    unfolding set_all output_with_env
    run_cmd_output config s = output_with_env (set_all setenv config.env s) config

    -- The error of a pipe, or none: the readers then give the lines of the process.
    unfoldable pub create_command_readers : Option X
    create_command_readers = elim process.stdout_pipe_error [
      | some e ↦ some e
      | none ↦ process.stderr_pipe_error
    ]

    unfoldable pub parse_with_env : Bool → List (CmdOutputPattern X) → S × Option X → S × Parsed X
    unfolding parsed create_command_readers
    parse_with_env stdout_first rs (s, some e) = (s, failed (some (of_os e)))
    parse_with_env stdout_first rs (s, none) = elim create_command_readers [
      | some e ↦ (s, failed (some (of_os e)))
      | none ↦ elim process.start_error [
        | some e ↦ (s, failed (some (of_os e)))
        | none ↦ (
          s,
          parsed process.wait_error stdout_first (scan_stdout rs process.stdout_lines)
              (scan_stderr rs process.stderr_lines),
        )
      ]
    ]

    unfoldable pub run_cmd_with_output_parser :
        {W : Type 0} → Bool → CmdConfig W → List (CmdOutputPattern X) → S → S × Parsed X
    unfolding set_all parse_with_env
    run_cmd_with_output_parser stdout_first config rs s =
        parse_with_env stdout_first rs (set_all setenv config.env s)

-- What is in the two buffers after Run, and its error.
pub record Ran (X : Type 0) : Type 0 where
  pub stdout : Bytes
  pub stderr : Bytes
  pub error : Option X

-- What the error text of RunWithOutput shows: the directory, the arguments with spaces between them, the
-- error of Run, and what the process wrote to stderr.
pub record FailedRunning (X : Type 0) : Type 0 where
  pub dir : Bytes
  pub command_line : Bytes
  pub error : X
  pub stderr : Bytes

module _ {X : Type 0} where
  run_data : Cmd → Ran X → FailedRunning X ⊎ Bytes
  run_data cmd ran = elim ran.error [
    | some e ↦ inl (record {
      dir = cmd.dir;
      command_line = join_texts (32 ∷ []) cmd.args;
      error = e;
      stderr = ran.stderr;
    })
    | none ↦ inr ran.stdout
  ]

  -- Run is a parameter.
  unfoldable pub run_with_output :
      {W : Type 0} → (Cmd → Ran X) → Command W → FailedRunning X ⊎ Bytes
  unfolding run_data
  run_with_output run config = run_data (get_cmd config) (run (get_cmd config))
