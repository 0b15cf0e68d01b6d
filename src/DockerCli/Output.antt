-- ===== src/DockerCli/Output.antt =====
-- What the runner of dockercli/run.go hands on of a command's output.
use garden_docker.Base.{
  ℕ, zero, suc, Str, false, none, some, [], ◌∷◌, ◌++◌, ◌≡◌, refl, arith, ◌=?◌, Error, Option,
  Outcome, ok, fail, txt, text, message, CommandRunner, ExecCmd,
}
use garden_docker.DockerCli.{
  trim_newlines, RunCmd, InspectCmd, run, inspect, run_command, inspect_command,
}

-- `n` newlines.
abbrev pub newlines : ℕ → Str
newlines zero = []
newlines (suc n) = 10 ∷ newlines n

-- The string is empty or its last byte is no newline.
abbrev pub EndsTrimmed : Str → Type 0
EndsTrimmed [] = Unit
EndsTrimmed (c ∷ []) = (c =? 10) ≡ false
EndsTrimmed (c ∷ d ∷ s) = EndsTrimmed (d ∷ s)

-- What TrimRight keeps ends with no newline.
trim_newlines-EndsTrimmed : (s : Str) → EndsTrimmed (trim_newlines s)
unfolding trim_newlines
trim_newlines-EndsTrimmed [] = tt
trim_newlines-EndsTrimmed (c ∷ s) = ground (arith, trim_newlines-EndsTrimmed s)

trim_newlines-newlines : (n : ℕ) → trim_newlines (newlines n) ≡ []
unfolding trim_newlines
trim_newlines-newlines zero = refl
trim_newlines-newlines (suc n) = ground (arith, trim_newlines-newlines n)

-- Text that ends with no newline comes back whole, however many newlines follow it.
trim_newlines-append : (s : Str) (n : ℕ) → EndsTrimmed s → trim_newlines (s ++ newlines n) ≡ s
unfolding trim_newlines
trim_newlines-append [] n h = trim_newlines-newlines n
trim_newlines-append (c ∷ []) n h = ground (arith, trim_newlines-newlines n)
trim_newlines-append (c ∷ d ∷ s) n h = ground (arith, trim_newlines-append (d ∷ s) n h)

-- What a method answers, by how the command ended, its output and what it wrote to its standard
-- error.
abbrev pub answer_of : Str → Option Error → Str → Str → Outcome Str
answer_of verb none output reason = ok output
answer_of verb (some cause) output reason =
    fail (text (verb ++ (message cause ++ (txt ": " ++ reason))))

-- A call of the one or the other method.
pub data Request : Type 0 where
  to_run : RunCmd → Request
  to_inspect : InspectCmd → Request

-- Its command, and how its errors begin.
abbrev pub line_of : Request → ExecCmd
line_of (to_run cmd) = run_command cmd
line_of (to_inspect query) = inspect_command query

abbrev pub verb_of : Request → Str
verb_of (to_run cmd) = txt "run: "
verb_of (to_inspect query) = txt "inspect: "

module _ {W : Type 0} (runner : CommandRunner W) (w w' : W) where
  abbrev pub made : Request → Outcome Str × W
  made (to_run cmd) = run runner cmd w
  made (to_inspect query) = inspect runner query w

  -- For a call of Run and for one of Inspect, each by itself, with any number of newlines at the end
  -- of what the command writes: if the command succeeds, the method answers with its output less
  -- these newlines, and if it fails, with an error that names the method, the cause, and what the
  -- command wrote to its standard error, less these newlines; and the world is as the command left
  -- it. The output and the errors may have no newline at their ends but these.
  pub run-inspect :
      (request : Request) (err : Option Error) (output reason : Str) (n k : ℕ)
      → EndsTrimmed output
      → EndsTrimmed reason
      → runner.run (line_of request) w
        ≡ (record { err = err; stdout = output ++ newlines n; stderr = reason ++ newlines k }, w')
      → made request ≡ (answer_of (verb_of request) err output reason, w')
  unfolding run inspect
  run-inspect (to_run cmd) none output reason n k h j p =
      ground (arith, trim_newlines-append output n h)
  run-inspect (to_run cmd) (some cause) output reason n k h j p =
      ground (arith, trim_newlines-append reason k j)
  run-inspect (to_inspect query) none output reason n k h j p =
      ground (arith, trim_newlines-append output n h)
  run-inspect (to_inspect query) (some cause) output reason n k h j p =
      ground (arith, trim_newlines-append reason k j)

  -- Whatever a command wrote, an answer without error does not end with a newline.
  run_answer_trimmed : (cmd : RunCmd) (id : Str) → (run runner cmd w).0 ≡ ok id → EndsTrimmed id
  unfolding run
  run_answer_trimmed cmd id h =
      ground (arith, trim_newlines-EndsTrimmed (runner.run (run_command cmd) w).0.stdout)
