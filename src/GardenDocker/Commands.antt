-- ===== src/GardenDocker/Commands.antt =====
-- The docker command lines that a creator of garden-docker runs: main.go's creator over create.go's
-- Create and the runner of dockercli.
pub mod Calls
pub mod Created
pub mod Served
use garden_docker.Base.{
  ℕ, Str, txt, str_dec, Option, none, some, List, [], ◌∷◌, ◌++◌, ◌≡◌, refl, sym, ap, ◌∙◌, Error,
  text, message, Outcome, ok, fail, panic, ExecCmd, exec_command, RunResult, CommandRunner, ◌>>=◌,
}
use garden_docker.Base.Binds.{ended}
use garden_docker.Base.FilePath.{join}
use garden_docker.Garden.{ContainerSpec}
use garden_docker.Net.{PortPool}
use garden_docker.DockerCli.{
  RunCmd, trim_newlines, answer, run, inspect, arg, volume_args, image_args, run_command,
  inspect_command,
}
use garden_docker.Container.{Machine, Container, allocate}
use garden_docker.Create.{DaemonContainerCreator, run_cmd, inspect_cmd, start, create}
use garden_docker.Create.Ends.{
  at_world, HasDir, HasPath, Ends, no_depot, bad_rootfs, empty_path, no_run, no_inspect, done,
}
use garden_docker.Create.Stages.{create-Ends}
use garden_docker.GardenDocker.{MainHost, Settings, creator}

-- The same runner, which notes the commands, the latest last.
abbrev pub noting_commands : {W : Type 0} → CommandRunner W → CommandRunner (W × List ExecCmd)
noting_commands runner = record {
  run = λ cmd (w, commands). ((runner.run cmd w).0, ((runner.run cmd w).1, commands ++ (cmd ∷ [])));
}

-- The command lines, for the path of initd, the directory of the container and its image, and for
-- the identifier that docker has given.
abbrev pub run_line : Str → Str → Str → ExecCmd
run_line initd dir image = exec_command (txt "docker") (
    txt "run"
    ∷ txt "-d"
    ∷ txt "-v"
    ∷ (initd ++ txt ":/garden-bin/initd")
    ∷ txt "-v"
    ∷ (join (dir ∷ txt "run" ∷ []) ++ txt ":/run")
    ∷ image
    ∷ txt "/garden-bin/initd"
    ∷ txt "-socketPath"
    ∷ txt "/run/initd.sock"
    ∷ txt "-unmountAfterListening"
    ∷ txt "/run"
    ∷ [])

abbrev pub inspect_line : Str → ExecCmd
inspect_line docker_id =
    exec_command (txt "docker")
      (txt "inspect" ∷ txt "--format='{{.NetworkSettings.IPAddress}}'" ∷ docker_id ∷ [])

module _ {W Duration : Type 0} (given_host : MainHost (W × List ExecCmd) Duration)
    (runner : CommandRunner W) (s : Settings Duration) (initd : Str)
    (pool : PortPool (W × List ExecCmd)) where
  -- The creator of the program on a host that notes the commands.
  abbrev pub noting_creator : DaemonContainerCreator (W × List ExecCmd)
  noting_creator =
      creator (record given_host { command_runner = noting_commands runner }) s initd pool

  run_cmd-line :
      (dir image : Str) → run_command (run_cmd noting_creator dir image) ≡ run_line initd dir image
  unfolding creator run_cmd run_command image_args volume_args arg txt str_dec
  run_cmd-line dir image = refl

  inspect_cmd-line :
      (docker_id : Str)
      → inspect_command (inspect_cmd noting_creator docker_id) ≡ inspect_line docker_id
  unfolding inspect_cmd inspect_command txt str_dec
  inspect_cmd-line docker_id = refl

  module _ (given : ContainerSpec) (m : Machine (W × List ExecCmd)) (dir : Str)
      (before : W × List ExecCmd) where
    -- What `docker run` yields.
    abbrev pub ran : Str → RunResult × W
    ran image = runner.run (run_line initd dir image) before.0

    -- The identifier that it writes.
    abbrev pub id_of : Str → Str
    id_of image = trim_newlines (ran image).0.stdout

    -- What `docker inspect` yields behind it.
    abbrev pub inspected : Str → RunResult × W
    inspected image = runner.run (inspect_line (id_of image)) (ran image).1

    abbrev pub after_run : Str → W × List ExecCmd
    after_run image = ((ran image).1, before.1 ++ (run_line initd dir image ∷ []))

    abbrev pub after_inspect : Str → W × List ExecCmd
    after_inspect image = (
      (inspected image).1,
      (before.1 ++ (run_line initd dir image ∷ [])) ++ (inspect_line (id_of image) ∷ []),
    )

    abbrev pub Made : Type 0
    Made = Outcome (Container (W × List ExecCmd)) × Machine (W × List ExecCmd)

    -- The container is known by what the two commands wrote.
    pub record IsOf (image : Str) (x : Container (W × List ExecCmd)) : Type 0 where
      pub its_id : x.info_handler.docker_id ≡ id_of image
      pub its_ip : x.info_handler.container_ip ≡ trim_newlines (inspected image).0.stdout
      pub its_path : x.info_handler.container_path ≡ dir

    -- The ways in which a Create that has a directory can end, by the commands.
    pub data Ran (result : Made) : Type 0 where
      neither :
          ((first : ℕ) (image : Str) → ¬ (HasPath noting_creator given m (first ∷ image)))
          → ((x : Container (W × List ExecCmd)) → ¬ (result.0 ≡ ok x))
          → result.1 ≡ at_world noting_creator given m before
          → Ran result
      run_failed :
          (first : ℕ) (image : Str) (cause : Error)
          → HasPath noting_creator given m (first ∷ image)
          → (ran image).0.err ≡ some cause
          → result.0
            ≡ fail (
                text (
                  txt "create: run: "
                  ++ (message cause ++ (txt ": " ++ trim_newlines (ran image).0.stderr))))
          → result.1 ≡ at_world noting_creator given m (after_run image)
          → Ran result
      inspect_failed :
          (first : ℕ) (image : Str) (cause : Error)
          → HasPath noting_creator given m (first ∷ image)
          → (ran image).0.err ≡ none
          → (inspected image).0.err ≡ some cause
          → result.0
            ≡ fail (
                text (
                  txt "create: inspect "
                  ++ (id_of image
                      ++ (txt ": inspect: "
                          ++ (message cause
                              ++ (txt ": " ++ trim_newlines (inspected image).0.stderr))))))
          → result.1 ≡ at_world noting_creator given m (after_inspect image)
          → Ran result
      both :
          (first : ℕ) (image : Str) (x : Container (W × List ExecCmd))
          → HasPath noting_creator given m (first ∷ image)
          → (ran image).0.err ≡ none
          → (inspected image).0.err ≡ none
          → result.0 ≡ ok x
          → IsOf image x
          → result.1.outside ≡ after_inspect image
          → Ran result
