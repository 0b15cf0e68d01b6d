-- ===== src/GardenDocker/Commands/Calls.antt =====
-- A call of dockercli's runner on a runner of commands that notes them, and how a failed step ends.
use garden_docker.Base.{
  Str, txt, Option, none, some, List, [], ◌∷◌, ◌++◌, ◌≡◌, ◌⊎◌, inl, inr, refl, Error, Outcome, ok,
  fail, ExecCmd, RunResult, CommandRunner,
}
use mathlib.Core.Path.{subst}
use garden_docker.DockerCli.{
  RunCmd, InspectCmd, trim_newlines, command_error, answer, run, inspect, run_command,
  inspect_command,
}
use garden_docker.GardenDocker.Commands.{noting_commands}

-- What a method of the runner answers to what its command yielded.
abbrev pub Answered : Str → RunResult → Outcome Str → Type 0
Answered verb r o =
    ((r.err ≡ none) × (o ≡ ok (trim_newlines r.stdout)))
    ⊎ ((e : Error) × (r.err ≡ some e) × (o ≡ fail (command_error verb e r.stderr)))

answer-Answered : (verb : Str) (r : RunResult) → Answered verb r (answer verb r)
unfolding answer
answer-Answered verb r = by_err r.err refl
  where
    by_err : (e : Option Error) → r.err ≡ e → Answered verb r (answer verb r)
    by_err none p = inl (p, rw p refl)
    by_err (some e) p = inr (e, p, rw p refl)

module _ {W : Type 0} (runner : CommandRunner W) where
  abbrev pub noted : ExecCmd → W × List ExecCmd → W × List ExecCmd
  noted cmd w = ((runner.run cmd w.0).1, w.1 ++ (cmd ∷ []))

  -- A call of docker, known by its result, ran this command line.
  abbrev pub Called : Str → ExecCmd → W × List ExecCmd → Outcome Str × (W × List ExecCmd) → Type 0
  Called verb line w r = Answered verb (runner.run line w.0).0 r.0 × (r.1 ≡ noted line w)

  pub run-Called :
      (cmd : RunCmd) (line : ExecCmd) (w : W × List ExecCmd) (r : Outcome Str × (W × List ExecCmd))
      → run_command cmd ≡ line
      → run (noting_commands runner) cmd w ≡ r
      → Called (txt "run: ") line w r
  unfolding run
  run-Called cmd line w r same h =
      subst (Called (txt "run: ") line w) h
        (rw same (answer-Answered (txt "run: ") (runner.run line w.0).0, refl))

  pub inspect-Called :
      (cmd : InspectCmd) (line : ExecCmd) (w : W × List ExecCmd)
      (r : Outcome Str × (W × List ExecCmd))
      → inspect_command cmd ≡ line
      → inspect (noting_commands runner) cmd w ≡ r
      → Called (txt "inspect: ") line w r
  unfolding inspect
  inspect-Called cmd line w r same h =
      subst (Called (txt "inspect: ") line w) h
        (rw same (answer-Answered (txt "inspect: ") (runner.run line w.0).0, refl))
