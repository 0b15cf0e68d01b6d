-- ===== src/Integration.antt =====
-- integration/runner: starts a garden-docker process for the tests, passes signals on to it, and
-- cleans up; and the mounting of a file system for the tests.
pub mod Destroy
pub mod Notes
pub mod Signals
pub mod Running
pub mod Arguments
pub mod Defaults
use garden_docker.Base.{
  ℕ, Str, txt, decimal, Bool, true, false, Option, none, some, List, [], ◌∷◌, ◌++◌, Error, Outcome,
  ok, fail, panic, Go, pure, must, raise, panics, ◌>>=◌, ◌>>◌, ◌==◌, ◌||◌, if◌then◌else◌, ExecCmd,
  exec_command,
}
use garden_docker.Base.FilePath.{join}
use garden_docker.Garden.Api.{GardenContainer, Client}
use garden_docker.GardenDocker.{Signal, sighup, sigint, sigquit, sigkill, sigterm}

-- The fields of the Go struct but `Command`, which `run` sets.
pub record Runner : Type 0 where
  pub network : Str
  pub addr : Str
  pub bin : Str
  pub argv : List Str
  pub tmpdir : Str

-- `New`. The first arguments are `os.TempDir()` and the number of ginkgo's parallel node.
unfoldable pub new : Str → ℕ → Str → Str → Str → List Str → Runner
new temp_dir node network addr bin argv = record {
  network = network;
  addr = addr;
  bin = bin;
  argv = argv;
  tmpdir = join (temp_dir ∷ (txt "test-garden-" ++ decimal node) ∷ []);
}

unfoldable pub mentions : List Str → Str → Bool
mentions [] key = false
mentions (a ∷ argv) key = a == key || mentions argv key

-- `appendDefaultFlag`, with the arguments of the runner first.
unfoldable pub append_default_flag : List Str → List Str → Str → Str → List Str
append_default_flag argv ar key value =
    if mentions argv key
    then ar
    else if value == []
    then ar ++ (key ∷ [])
    else ar ++ (key ∷ value ∷ [])

-- The arguments of the process.
unfoldable pub garden_args : Runner → List Str
garden_args r =
    append_default_flag r.argv
      (append_default_flag r.argv
        (append_default_flag r.argv r.argv (txt "--listenNetwork") r.network) (txt "--listenAddr")
        r.addr)
      (txt "--logLevel") (txt "debug")

-- What the runner calls of the operating system and of ifrit. `invoke` starts the process, and
-- returns when it is ready or has ended; `signal` sends a signal to it. `exists` is false where `os.Stat` has an error of which `os.IsNotExist` holds. A file
-- system is mounted with the source, the target, and its type.
pub record RunnerHost (S : Type 0) : Type 0 where
  pub mkdir_all : Str → ℕ → Go S (Unit {0})
  pub remove_all : Str → Go S (Unit {0})
  pub invoke : ExecCmd → S → S
  pub signal : Signal → S → S
  pub exists : Str → S → Bool
  pub mount : Str → Str → Str → Go S (Unit {0})
  pub dial : Str → Str → Go S (Unit {0})

-- The constructors of garden's packages client and client/connection, with the connections.
pub record GardenClients (C S : Type 0) : Type 0 where
  pub connection : Str → Str → C
  pub client : C → Client S

-- `NewClient`
unfoldable pub new_client : {C S : Type 0} → GardenClients C S → Runner → Client S
new_client lib r = lib.client (lib.connection r.network r.addr)

-- What happens while the loop of `Run` is on: it receives a signal; the process ends, and its runner
-- calls `Cleanup`; the loop receives, then or later, that the process has ended, with an error or
-- without.
pub data Event : Type 0 where
  signalled : Signal → Event
  process_ended : Event
  process_exited : Option Error → Event

-- Where the loop is: it waits for an event, with the signal that it received last, or it has
-- returned without an error.
pub data Loop : Type 0 where
  waiting : Option Signal → Loop
  done : Loop

abbrev pub is_quit : Signal → Bool
is_quit sigquit = true
is_quit _ = false

module _ {S : Type 0} where
  unfoldable pub destroy_each : Client S → List (GardenContainer S) → Go S (Unit {0})
  destroy_each client [] = pure tt
  destroy_each client (c ∷ cs) = do client.destroy c.handle; destroy_each client cs

  -- `destroyContainers`, with the client that `NewClient` makes.
  unfoldable pub destroy_containers : Client S → Go S (Unit {0})
  destroy_containers client = do containers ← client.containers none; destroy_each client containers

  module _ (host : RunnerHost S) where
    abbrev pub sending : Signal → Go S (Unit {0})
    sending s w = (ok tt, host.signal s w)

    -- `TryDial`. The connection is closed at once.
    unfoldable pub try_dial : Runner → Go S (Unit {0})
    try_dial r = host.dial r.network r.addr

    -- `MustMountTmpfs` on linux.
    unfoldable pub must_mount_tmpfs : Str → Go S (Unit {0})
    must_mount_tmpfs destination w =
        if host.exists destination w
        then (ok tt, w)
        else (must (host.mkdir_all destination 0o755)
              >> must (host.mount (txt "tmpfs") destination (txt "tmpfs")))
            w

    -- The handling of a signal.
    unfoldable pub on_signal : Client S → Signal → Go S (Unit {0})
    on_signal client s =
        if is_quit s then destroy_containers client >> sending sigterm else sending s

    -- `Cleanup`. Its error is logged.
    abbrev pub removed : Str → S → S
    removed tmpdir w = (host.remove_all tmpdir w).1

    abbrev pub cleanup : Str → Option Signal → S → S
    cleanup tmpdir none w = w
    cleanup tmpdir (some s) w = if is_quit s then removed tmpdir w else w

    abbrev pub returning : Option Error → Go S Loop
    returning none = pure done
    returning (some e) = raise e

    -- The loop of `Run`, over the events. `last` is the signal that it received last.
    unfoldable pub loop : Client S → Str → Option Signal → List Event → Go S Loop
    loop client tmpdir last [] = pure (waiting last)
    loop client tmpdir last (signalled s ∷ events) = do
      on_signal client s
      loop client tmpdir (some s) events
    loop client tmpdir last (process_ended ∷ events) =
        λ w. loop client tmpdir last events (cleanup tmpdir last w)
    loop client tmpdir last (process_exited e ∷ events) = returning e

    abbrev pub starting : ExecCmd → Go S (Unit {0})
    starting cmd w = (ok tt, host.invoke cmd w)

    -- `Run`. The channel `ready` is closed before the loop.
    unfoldable pub run : {C : Type 0} → GardenClients C S → Runner → List Event → Go S Loop
    run lib r events = do
      host.mkdir_all r.tmpdir 0o755
      starting (exec_command r.bin (garden_args r))
      loop (new_client lib r) r.tmpdir none events

-- `MustMountTmpfs` on other systems.
unfoldable pub must_mount_tmpfs_elsewhere : {S : Type 0} → Str → Go S (Unit {0})
must_mount_tmpfs_elsewhere destination = panics (txt "not supported")
