-- ===== src/Base/Exec.antt =====
-- The commands of Go's os/exec, and what running one yields.
use mathlib.Core.Option.{Option}
use mathlib.Core.List.{List, ◌∷◌}
use garden_docker.Base.Text.{Str}
use garden_docker.Base.Effects.{Error}

-- `*exec.Cmd` as far as the program fills it in. `args` has the name of the command at its head,
-- as Go's `Args` has. `path` is the name before the search of the PATH.
pub record ExecCmd : Type 0 where
  pub path : Str
  pub args : List Str

-- `exec.Command(name, args...)`
abbrev pub exec_command : Str → List Str → ExecCmd
exec_command name args = record { path = name; args = name ∷ args }

-- The error that a run returns, and what the command wrote to its two buffers.
pub record RunResult : Type 0 where
  pub err : Option Error
  pub stdout : Str
  pub stderr : Str

-- gunk's `CommandRunner`, as far as the program calls it, over a world `W`.
pub record CommandRunner {ℓ} (W : Type ℓ) : Type ℓ where
  pub run : ExecCmd → W → RunResult × W
