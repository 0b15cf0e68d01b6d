-- ===== src/Dosh/Arguments.antt =====
-- What cmd/dosh makes of the command line that the `doshcmd` of create.go writes.
use garden_docker.Base.{
  ℕ, ◌++◌, message, Outcome, ok, fail, panic, Go, Str, txt, str_dec, none, some, List, [], ◌∷◌, ◌≡◌,
  refl, ◌∙◌, ap, false, ExecCmd,
}
use garden_docker.Base.GoMap
use garden_docker.Base.GoMap.{GoMap, get-put}
use garden_docker.Base.Flags
use garden_docker.Base.Flags.{
  flag, plain, parsed, refused, shape, parse_waiting, parse_waiting-flag, parse_waiting-plain,
  any_string, parse_lem,
}
use garden_docker.Garden.{ProcessSpec, no_limits}
use garden_docker.Run.{DoshCmd, dosh_command}
use garden_docker.Dosh.{Daemon, defaults, value, process_spec, main, wait_for, exit_with, Exit}

-- The arguments behind the name of the program.
abbrev pub behind_name : ExecCmd → List Str
behind_name cmd = mathlib.Core.List.tail cmd.args

socket_flag : shape (txt "-socketPath") ≡ flag (txt "socketPath") none
unfolding shape txt
socket_flag = refl

user_flag : shape (txt "-user") ≡ flag (txt "user") none
unfolding shape txt
user_flag = refl

-- The flags as `doshcmd` sets them.
abbrev pub dosh_flags : DoshCmd → GoMap Str
dosh_flags d = (txt "socketPath", d.initd_sock) ∷ (txt "dir", []) ∷ (txt "user", txt "root") ∷ []

flags_put :
    (d : DoshCmd)
    → GoMap.put (txt "user") (txt "root") (GoMap.put (txt "socketPath") d.initd_sock defaults)
      ≡ dosh_flags d
unfolding GoMap.put txt str_dec
flags_put d = refl

behind_name-dosh_command :
    (d : DoshCmd) (path : Str) (args : List Str)
    → behind_name (dosh_command d path args)
      ≡ txt "-socketPath" ∷ d.initd_sock ∷ txt "-user" ∷ txt "root" ∷ path ∷ args
unfolding dosh_command
behind_name-dosh_command d path args = refl

socket_path_default : GoMap.get (txt "socketPath") defaults ≡ some (txt "./run/initd.sock")
unfolding GoMap.get txt str_dec
socket_path_default = refl

user_default :
    (sock : Str) → GoMap.get (txt "user") (GoMap.put (txt "socketPath") sock defaults) ≡ some []
unfolding GoMap.get GoMap.put txt str_dec
user_default sock = refl

-- The flags and the rest that dosh parses from the command line.
pub parse-dosh_command :
    (d : DoshCmd) (path : Str) (args : List Str)
    → shape path ≡ plain
    → Flags.parse (behind_name (dosh_command d path args)) defaults
      ≡ parsed (dosh_flags d) (path ∷ args)
parse-dosh_command d path args h = rw (behind_name-dosh_command d path args) (
    parse_lem _ defaults
    ∙ parse_waiting-flag any_string _ _ d.initd_sock _ defaults _ socket_flag socket_path_default
        refl
    ∙ parse_waiting-flag any_string _ _ (txt "root") _ _ [] user_flag (user_default d.initd_sock)
        refl
    ∙ parse_waiting-plain any_string path args _ h
    ∙ ap (λ (flags : GoMap Str). parsed flags (path ∷ args)) (flags_put d))

-- What dosh asks the daemon for.
abbrev pub requested : Str → List Str → ProcessSpec
requested path args = record {
  path = path;
  args = args;
  env = txt "HELLO=1" ∷ [];
  dir = [];
  privileged = false;
  user = txt "root";
  limits = no_limits;
  tty = none;
}

process_spec-dosh_flags :
    (d : DoshCmd) (path : Str) (args : List Str)
    → process_spec (dosh_flags d) path args ≡ requested path args
unfolding process_spec GoMap.get txt str_dec
process_spec-dosh_flags d path args = refl

value-dosh_flags : (d : DoshCmd) → value (txt "socketPath") (dosh_flags d) ≡ d.initd_sock
unfolding value GoMap.get txt str_dec
value-dosh_flags d = refl

module _ {W : Type 0} (daemon : Daemon W) where
  -- How dosh exits by what the wait for its process answers.
  abbrev pub exit_for : Outcome ℕ → Outcome Exit
  exit_for (ok code) = ok (record { status = code; stderr = [] })
  exit_for (fail e) =
      ok (record { status = 255; stderr = txt "Waiting for process to complete: " ++ message e })
  exit_for (panic m) = panic m

  -- How dosh ends by what the daemon answers to the request for a process.
  abbrev pub end_for : Outcome ℕ → W → Outcome Exit × W
  end_for (ok process) w = (exit_for (daemon.wait process w).0, (daemon.wait process w).1)
  end_for (fail e) w =
      (ok (record { status = 255; stderr = txt "Starting process: " ++ message e }), w)
  end_for (panic m) w = (panic m, w)

  exit_with-exit_for : (r : Outcome ℕ × W) → exit_with daemon r ≡ (exit_for r.0, r.1)
  exit_with-exit_for (ok code, w) = refl
  exit_with-exit_for (fail e, w) = refl
  exit_with-exit_for (panic m, w) = refl

  wait_for-end_for : (r : Outcome ℕ × W) → wait_for daemon r ≡ end_for r.0 r.1
  wait_for-end_for (ok process, w) = exit_with-exit_for (daemon.wait process w)
  wait_for-end_for (fail e, w) = refl
  wait_for-end_for (panic m, w) = refl

  -- What dosh asks the daemon for, and what it is answered.
  abbrev pub asked : DoshCmd → Str → List Str → Go W ℕ
  asked d path args = daemon.new_process d.initd_sock (requested path args)

  -- Dosh waits for the process that the daemon started, if it did.
  pub main-wait_for :
      (d : DoshCmd) (path : Str) (args : List Str) (w : W)
      → shape path ≡ plain
      → main daemon (behind_name (dosh_command d path args)) w
        ≡ wait_for daemon (asked d path args w)
  unfolding main
  main-wait_for d path args w h =
      rw (parse-dosh_command d path args h, main, value-dosh_flags, process_spec-dosh_flags)

  -- Run as `doshcmd` says, with a path that the flag package does not take for a flag, dosh asks
  -- the daemon behind the socket of `doshcmd` for the path with the arguments, as root, in the
  -- default directory, with the environment HELLO=1 alone; then it waits for the process and exits
  -- with its status, or with 255 and, on its standard error, a message that names the call that
  -- failed and the cause; and it panics just as the two calls do.
  pub main-dosh_command :
      (d : DoshCmd) (path : Str) (args : List Str) (w : W)
      → shape path ≡ plain
      → main daemon (behind_name (dosh_command d path args)) w
        ≡ end_for (asked d path args w).0 (asked d path args w).1
  main-dosh_command d path args w h =
      main-wait_for d path args w h ∙ wait_for-end_for (asked d path args w)
