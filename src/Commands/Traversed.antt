-- ===== src/Commands/Traversed.antt =====
-- io/cmd.go: the output of a process whose lines are run through patterns.
use gofrog.Prelude.{
  true, false, ◌≡◌, refl, List, [], ◌∷◌, ◌++◌, Bool, if◌then◌else◌, Option, none, some, Bytes,
  arith, Bool-cases, inl, inr,
}
use gofrog.Commands.{CmdOutputPattern, after_exec, process_line, newline}
use gofrog.Commands.Running.{CmdError, of_os, Parsed, failed}

module _ {X : Type 0} where
  after_exec_twice :
      (f g h : Bytes → Bytes × Option X)
      → ((l : Bytes) → h l ≡ after_exec g (f l))
      → (x : Bytes × Option X) → after_exec h x ≡ after_exec g (after_exec f x)
  unfolding after_exec
  after_exec_twice f g h same (l, some e) = refl
  after_exec_twice f g h same (l, none) = same l

  -- Patterns in two groups: the second group goes on with the line that the first one leaves,
  -- unless a pattern of the first one fails.
  pub process_line-append :
      (rs ts : List (CmdOutputPattern X)) (line : Bytes)
      → process_line (rs ++ ts) line ≡ after_exec (process_line ts) (process_line rs line)
  unfolding process_line after_exec
  process_line-append [] ts line = ground arith
  process_line-append (r ∷ rs) ts line = elim (Bool-cases (r.match_string line)) [
    | inl matches ↦ rw (matches) (
        after_exec_twice (process_line rs) (process_line ts) (process_line (rs ++ ts))
          (process_line-append rs ts) (r.exec_func (r.find_string_submatch line) line))
    | inr other ↦ rw (other) (process_line-append rs ts line)
  ]

module _ {X : Type 0} (rs : List (CmdOutputPattern X)) where
  -- The description: the error of the first line that has one, and the text of all lines.
  abbrev pub first_failing : List Bytes → Option X
  first_failing [] = none
  first_failing (line ∷ lines) = elim (process_line rs line).1 [
    | some e ↦ some e
    | none ↦ first_failing lines
  ]

  abbrev pub all_text : List Bytes → Bytes
  all_text [] = []
  all_text (line ∷ lines) = (process_line rs line).0 ++ newline ++ all_text lines

  abbrev pub first_sent : List X → Option X
  first_sent [] = none
  first_sent (e ∷ es) = some e

  -- The error that reaches the caller, by the flag that says which stream's comes first.
  abbrev pub first_of : Bool → Option X → Option X → Option X
  first_of stdout_first none f = f
  first_of stdout_first (some e) none = some e
  first_of stdout_first (some e) (some f) = some (if stdout_first then e else f)

  -- What the caller gets of the lines, whichever goroutine is first.
  abbrev pub expected : Bool → Option (CmdError X) → List Bytes → List Bytes → Parsed X
  expected stdout_first end outs errs =
      elim (first_of stdout_first (first_failing outs) (first_failing errs)) [
        | some e ↦ failed (some (of_os e))
        | none ↦ record {
          std_out = all_text outs;
          error_out = all_text errs;
          exit_ok = elim end [ none ↦ true | some _ ↦ false ];
          err = end;
        }
      ]
