-- ===== src/DockerCli.antt =====
-- dockercli/cmds.go and dockercli/run.go: the docker command lines, and running them.
pub mod RoundTrip
pub mod Output
use garden_docker.Base.{
  ℕ, Str, txt, Bool, true, false, Option, none, some, List, [], ◌∷◌, ◌++◌, ◌&&◌, Outcome, ok, fail,
  Go, Error, text, message, ExecCmd, exec_command, RunResult, CommandRunner, ◌=?◌, if◌then◌else◌,
}

pub record Volume : Type 0 where
  pub host_path : Str
  pub container_path : Str

pub record RunCmd : Type 0 where
  pub volumes : List Volume
  pub image : Str
  pub program : Str
  pub program_args : List Str
  pub detach : Bool

pub record InspectCmd : Type 0 where
  pub container_id : Str
  pub field : Str

-- `fmt.Sprintf("%s:%s", v.HostPath, v.ContainerPath)`
unfoldable pub arg : Volume → Str
arg v = v.host_path ++ (b':' ∷ v.container_path)

unfoldable pub volume_args : List Volume → List Str
volume_args [] = []
volume_args (v ∷ vs) = txt "-v" ∷ arg v ∷ volume_args vs

unfoldable pub image_args : RunCmd → List Str
image_args cmd = volume_args cmd.volumes ++ (cmd.image ∷ (cmd.program ∷ cmd.program_args))

-- `(cmd *RunCmd) Cmd()`
unfoldable pub run_command : RunCmd → ExecCmd
unfolding image_args
run_command cmd =
    exec_command (txt "docker")
      (txt "run" ∷ (if cmd.detach then txt "-d" ∷ image_args cmd else image_args cmd))

-- `(cmd *InspectCmd) Cmd()`
unfoldable pub inspect_command : InspectCmd → ExecCmd
inspect_command cmd =
    exec_command (txt "docker")
      (txt "inspect" ∷ (txt "--format='{{." ++ (cmd.field ++ txt "}}'")) ∷ cmd.container_id ∷ [])

-- `strings.TrimRight(s, "\n")`
unfoldable pub trim_newlines : Str → Str
trim_newlines [] = []
trim_newlines (c ∷ s) = elim (trim_newlines s) [
  | [] ↦ if c =? 10 then [] else c ∷ []
  | d ∷ t ↦ c ∷ d ∷ t
]

-- `fmt.Errorf("verb: %s: %s", err, strings.TrimRight(stderr.String(), "\n"))`
abbrev pub command_error : Str → Error → Str → Error
command_error verb err stderr = text (verb ++ (message err ++ (txt ": " ++ trim_newlines stderr)))

-- The end of both methods of the runner.
unfoldable pub answer : Str → RunResult → Outcome Str
answer verb r = elim r.err [
  | none ↦ ok (trim_newlines r.stdout)
  | some e ↦ fail (command_error verb e r.stderr)
]

module _ {W : Type 0} (runner : CommandRunner W) where
  -- `(r *Runner) Run(cmd)`
  unfoldable pub run : RunCmd → Go W Str
  unfolding answer
  run cmd w = let (r, w') = runner.run (run_command cmd) w in (answer (txt "run: ") r, w')

  -- `(r *Runner) Inspect(cmd)`
  unfoldable pub inspect : InspectCmd → Go W Str
  unfolding answer
  inspect cmd w =
      let (r, w') = runner.run (inspect_command cmd) w in (answer (txt "inspect: ") r, w')
