-- ===== src/GardenDocker/Commands/Served.antt =====
-- From the arguments of garden-docker to the docker commands that its backend runs.
use garden_docker.Base.{Str, List, ◌≡◌, sym, ok, ExecCmd, CommandRunner}
use mathlib.Core.Path.{subst}
use garden_docker.Garden.{ContainerSpec}
use garden_docker.Container.{Machine, Container}
use garden_docker.Repo.{Repo}
use garden_docker.Create.{DaemonContainerCreator, create}
use garden_docker.Create.Ends.{HasDir}
use garden_docker.GardenDocker.{creator, MainHost, Settings, serving, main}
use garden_docker.GardenDocker.Serving.{main-IsStarted}
use garden_docker.GardenDocker.Commands.{noting_commands, Ran}
use garden_docker.GardenDocker.Commands.Created.{create-Ran}

module _ {W Duration : Type 0} (host : MainHost (W × List ExecCmd) Duration)
    (runner : CommandRunner W) where
  -- The host on this runner, which notes the commands.
  abbrev pub noting_host : MainHost (W × List ExecCmd) Duration
  noting_host = record host { command_runner = noting_commands runner }

  -- If main goes on to serve, with any arguments, and the depot then makes a directory for a
  -- container, then Create of the creator that it serves with, whatever the runner of commands
  -- answers, runs these commands and no other: none, if the root file system's URL has no image, and
  -- then it makes no container; else the one line `docker run -d` of `run_line`, with the initd and
  -- its arguments and the two volumes, and, just if that ended without error, the one line `docker
  -- inspect` of `inspect_line` for the identifier that it wrote. A command that fails ends it with
  -- an error that names the step, the cause and what the command wrote to its standard error. If
  -- both go well, it returns a container with the identifier and the address that they wrote, less
  -- the newlines at their ends, and with the depot's directory.
  pub main-Ran :
      (args : List Str) (w : W × List ExecCmd) (s : Settings Duration)
      (c : DaemonContainerCreator (W × List ExecCmd)) (r : Repo (Container (W × List ExecCmd)))
      (given : ContainerSpec) (m : Machine (W × List ExecCmd)) (dir : Str)
      (before : W × List ExecCmd)
      → (main noting_host args w).0 ≡ ok (serving s c r)
      → HasDir c given m dir before
      → Ran host runner s c.initd_path c.port_pool given m dir before (create c given m)
  unfolding creator
  main-Ran args w s c r given m dir before h has_dir =
      let same = (main-IsStarted noting_host args w s c r h).0.its_creator in
      subst (λ x. Ran host runner s c.initd_path c.port_pool given m dir before (create x given m))
        (sym same)
        (create-Ran host runner s c.initd_path c.port_pool given m dir before
          (subst (λ x. HasDir x given m dir before) same has_dir))
