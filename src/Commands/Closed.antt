-- ===== src/Commands/Closed.antt =====
-- io/cmd.go: RunCmd closes the writers it is given, and returns no ExitError.
use gofrog.Prelude.{◌≡◌, [], ◌++◌, Bool, true, false, ◌&&◌, Option, none, some, Bytes, arith}
use gofrog.Commands.{CmdConfig}
use gofrog.Commands.Running.{
  CmdError, exit_error, of_os, plain, Process, set_all, closes, hide_exit, started_error, with_env,
  run_cmd,
}

abbrev pub is_exit_error : {X : Type 0} → Option (CmdError X) → Bool
is_exit_error none = false
is_exit_error (some (exit_error e)) = true
is_exit_error (some (of_os e)) = false
is_exit_error (some (plain e)) = false

abbrev pub is_nil : {X : Type 0} → Option X → Bool
is_nil none = true
is_nil (some _) = false

-- RunCmd never returns an ExitError; it returns no error just when the environment is set, the
-- process starts, and Wait gives none; and once the environment is set it closes the writers of the
-- configuration, that of stderr before that of stdout, whatever becomes of the process.
pub run_cmd-closes :
    {S W X : Type 0} (setenv : S → Bytes → Bytes → S × Option X) (process : Process X)
    (config : CmdConfig W) (s : S)
    → (is_exit_error (run_cmd setenv process config s).2 ≡ false)
      × (is_nil (run_cmd setenv process config s).2
          ≡ is_nil (set_all setenv config.env s).1
            && is_nil process.start_error
            && is_nil process.wait_error)
      × ((run_cmd setenv process config s).1 ≡ elim (set_all setenv config.env s).1 [
        | some e ↦ []
        | none ↦ closes config.err_writer ++ closes config.std_writer
      ])
unfolding run_cmd with_env started_error hide_exit
run_cmd-closes setenv process config s = ground arith
