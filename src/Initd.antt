-- ===== src/Initd.antt =====
-- cmd/initd/main.go: the first process of a container, which listens on a socket and starts
-- processes for dosh.
pub mod Exits
use garden_docker.Base.{ℕ, Str, txt, List, [], ◌∷◌, ◌++◌, message, Outcome, ok, fail, panic, Go}
use garden_docker.Base.GoMap.{GoMap}
use garden_docker.Base.Flags
use garden_docker.Base.Flags.{
  flag, parsed, refused, shape, parse_waiting, parse_waiting-flag, parse_lem,
}
use garden_docker.Dosh.{value}

-- What initd calls of garden-linux: the reaper, and the listener and the daemon on a socket.
pub record InitdHost (W : Type 0) : Type 0 where
  pub start_reaper : W → W
  pub stop_reaper : W → W
  pub listen : Str → Go W (Unit {0})
  pub run_daemon : Str → Go W (Unit {0})

-- The exit status, and what stands on the standard output before it.
pub record Exit : Type 0 where
  pub status : ℕ
  pub stdout : Str

-- The flags with their defaults. The second is parsed and not read.
abbrev pub defaults : GoMap Str
defaults =
    (txt "socketPath", txt "/run/initd.sock") ∷ (txt "unmountAfterListening", txt "/run") ∷ []

abbrev pub exit : ℕ → Str → Outcome Exit
exit status stdout = ok (record { status = status; stdout = stdout })

module _ {W : Type 0} (host : InitdHost W) where
  abbrev pub after_daemon : Outcome (Unit {0}) × W → Outcome Exit × W
  after_daemon (ok _, w) = (exit 0 [], host.stop_reaper w)
  after_daemon (fail e, w) = (exit 3 (message e ++ (10 ∷ [])), w)
  after_daemon (panic m, w) = (panic m, host.stop_reaper w)

  abbrev pub after_listen : Str → Outcome (Unit {0}) × W → Outcome Exit × W
  after_listen socket_path (ok _, w) = after_daemon (host.run_daemon socket_path w)
  after_listen socket_path (fail e, w) =
      (exit 1 (txt "listen on " ++ (socket_path ++ (txt ": " ++ message e))), w)
  after_listen socket_path (panic m, w) = (panic m, host.stop_reaper w)

  -- `main` behind `flag.Parse`. `os.Exit` does not run the deferred stop of the reaper; a panic
  -- does.
  unfoldable pub serve : Str → Go W Exit
  serve socket_path w = after_listen socket_path (host.listen socket_path (host.start_reaper w))

  -- `main`, from the arguments behind the program's name. The message that the flag package prints
  -- when it refuses them is left out.
  unfoldable pub main : List Str → Go W Exit
  unfolding serve value
  main args w = elim (Flags.parse args defaults) [
    | parsed flags rest ↦ serve (value (txt "socketPath") flags) w
    | refused ↦ (exit 2 [], w)
  ]
