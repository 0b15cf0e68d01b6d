-- ===== src/Dosh.antt =====
-- cmd/dosh/main.go: connects to the daemon in the container, has it start a process, and exits as
-- the process does.
pub mod Arguments
use garden_docker.Base.{
  ℕ, Str, txt, Option, none, false, List, [], ◌∷◌, ◌++◌, Error, message, Outcome, ok, fail, panic,
  Go,
}
use garden_docker.Base.GoMap
use garden_docker.Base.GoMap.{GoMap}
use garden_docker.Base.Flags
use garden_docker.Base.Flags.{parsed, refused}
use garden_docker.Garden.{ProcessSpec, no_limits}

-- garden-linux's container_daemon: `NewProcess`, which has the daemon behind a socket start a
-- process, and its `Wait`. The process is a number that names it.
pub record Daemon (W : Type 0) : Type 0 where
  pub new_process : Str → ProcessSpec → Go W ℕ
  pub wait : ℕ → Go W ℕ

-- The exit status, and what stands on the standard error before it.
pub record Exit : Type 0 where
  pub status : ℕ
  pub stderr : Str

-- `container_daemon.UnknownExitStatus`
abbrev pub unknown_exit_status : ℕ
unknown_exit_status = 255

-- The flags with their defaults.
abbrev pub defaults : GoMap Str
defaults = (txt "socketPath", txt "./run/initd.sock") ∷ (txt "dir", []) ∷ (txt "user", []) ∷ []

abbrev or_empty : Option Str → Str
or_empty none = []
or_empty (mathlib.Core.Option.some v) = v

-- `*name`, after the flags are parsed.
unfoldable pub value : Str → GoMap Str → Str
value name flags = or_empty (GoMap.get name flags)

abbrev pub unknown : Str → Outcome Exit
unknown s = ok (record { status = unknown_exit_status; stderr = s })

unfoldable pub process_spec : GoMap Str → Str → List Str → ProcessSpec
unfolding value
process_spec flags path args = record {
  path = path;
  args = args;
  env = txt "HELLO=1" ∷ [];
  dir = value (txt "dir") flags;
  privileged = false;
  user = value (txt "user") flags;
  limits = no_limits;
  tty = none;
}

module _ {W : Type 0} (daemon : Daemon W) where
  abbrev pub exit_with : Outcome ℕ × W → Outcome Exit × W
  exit_with (ok code, w) = (ok (record { status = code; stderr = [] }), w)
  exit_with (fail e, w) = (unknown (txt "Waiting for process to complete: " ++ message e), w)
  exit_with (panic m, w) = (panic m, w)

  abbrev pub wait_for : Outcome ℕ × W → Outcome Exit × W
  wait_for (ok proc, w) = exit_with (daemon.wait proc w)
  wait_for (fail e, w) = (unknown (txt "Starting process: " ++ message e), w)
  wait_for (panic m, w) = (panic m, w)

  -- The program behind `flag.Parse`.
  unfoldable pub start : GoMap Str → List Str → Go W Exit
  start flags [] w = (unknown (txt "Command name not provided."), w)
  start flags (path ∷ args) w =
      wait_for
        (daemon.new_process (value (txt "socketPath") flags) (process_spec flags path args) w)

  -- `main`, from the arguments behind the program's name. The message that the flag package prints
  -- when it refuses them is left out.
  unfoldable pub main : List Str → Go W Exit
  unfolding start
  main args w = elim (Flags.parse args defaults) [
    | parsed flags rest ↦ start flags rest w
    | refused ↦ (ok (record { status = 2; stderr = [] }), w)
  ]
