-- ===== src/Run.antt =====
-- run.go, and the `doshcmd` of create.go: starting a process in the container through dosh.
use garden_docker.Base.{
  ℕ, Str, txt, Option, none, List, [], ◌∷◌, ◌++◌, Go, panics, Bool, ExecCmd, exec_command,
}
use garden_docker.Garden.{ProcessSpec, ProcessIo, TtySpec, Process}

-- The interface `ContainerCmder`.
pub record ContainerCmder : Type 0 where
  pub cmd : Str → List Str → ExecCmd

-- garden-linux's `ProcessTracker`, as far as the handler calls it. A signaller is a number that
-- names it.
pub record ProcessTracker (W : Type 0) : Type 0 where
  pub run : ℕ → ExecCmd → ProcessIo → Option TtySpec → Option ℕ → Go W (Process W)
  pub attach : ℕ → ProcessIo → Go W (Process W)

pub record RunHandler (W : Type 0) : Type 0 where
  pub container_cmd : ContainerCmder
  pub process_tracker : ProcessTracker W

module _ {W : Type 0} (c : RunHandler W) where
  unfoldable pub run : ProcessSpec → ProcessIo → Go W (Process W)
  run spec io = c.process_tracker.run 0 (c.container_cmd.cmd spec.path spec.args) io spec.tty none

  unfoldable pub attach : ℕ → ProcessIo → Go W (Process W)
  attach process_id io = c.process_tracker.attach process_id io

  unfoldable pub stop : Bool → Go W (Unit {0})
  stop kill = panics (txt "not implemented: stop")

pub record DoshCmd : Type 0 where
  pub path : Str
  pub initd_sock : Str

-- `(d doshcmd) Cmd(path, args...)`
unfoldable pub dosh_command : DoshCmd → Str → List Str → ExecCmd
dosh_command d path args =
    exec_command d.path
      ((txt "-socketPath" ∷ d.initd_sock ∷ txt "-user" ∷ txt "root" ∷ []) ++ (path ∷ args))

-- `doshcmd` as a `ContainerCmder`
abbrev pub dosh_cmder : DoshCmd → ContainerCmder
dosh_cmder d = record { cmd = dosh_command d }
