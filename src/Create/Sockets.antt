-- ===== src/Create/Sockets.antt =====
-- The socket on which initd listens in the container, by create.go and cmd/initd, and the one that
-- dosh dials on the host, by `doshcmd`.
use garden_docker.Base.{
  Str, txt, str_dec, Option, none, some, true, List, [], ◌∷◌, ◌++◌, ◌≡◌, refl, sym, ap, ◌∙◌, ◌=?◌,
}
use garden_docker.Base.FilePath.{join, split, rooted}
use garden_docker.Base.FilePath.Laws.{IsElement, join_two}
use garden_docker.Base.GoMap
use garden_docker.Base.Flags
use garden_docker.Dosh.{value}
use garden_docker.Initd
use garden_docker.Initd.{InitdHost}
use garden_docker.DockerCli.{Volume}
use garden_docker.Create.{DaemonContainerCreator, run_cmd, dosh_in, initd_socket}

-- What stands behind the prefix.
unfoldable pub behind : Str → Str → Option Str
behind [] s = some s
behind (p ∷ ps) [] = none
behind (p ∷ ps) (c ∷ s) = elim (p =? c) [ true ↦ behind ps s | _ ↦ none ]

-- The file on the host that a container sees as `path`: that of the first volume whose path in the
-- container is a directory above it.
unfoldable pub host_file : List Volume → Str → Option Str
unfolding behind
host_file [] path = none
host_file (v ∷ vs) path = elim (behind (v.container_path ++ txt "/") path) [
  | some rest ↦ some (v.host_path ++ (b'/' ∷ rest))
  | none ↦ host_file vs path
]

pub run-IsElement : IsElement (txt "run")
unfolding txt str_dec split rooted
run-IsElement = record {
  not_empty = refl;
  not_dot = refl;
  not_dots = refl;
  not_split = refl;
  not_rooted = refl;
}

pub sock-IsElement : IsElement (txt "initd.sock")
unfolding txt str_dec split rooted
sock-IsElement = record {
  not_empty = refl;
  not_dot = refl;
  not_dots = refl;
  not_split = refl;
  not_rooted = refl;
}

module _ {W : Type 0} (c : DaemonContainerCreator W) where
  pub host_file-socket :
      (dir image : Str)
      → host_file (run_cmd c dir image).volumes initd_socket
        ≡ some (join (dir ∷ txt "run" ∷ []) ++ (b'/' ∷ txt "initd.sock"))
  unfolding host_file run_cmd txt
  host_file-socket dir image = refl

  -- It is the one that dosh dials.
  pub dialled :
      (dir image : Str)
      → host_file (run_cmd c dir image).volumes initd_socket ≡ some (dosh_in dir).initd_sock
  dialled dir image =
      host_file-socket dir image
      ∙ ap some (sym (join_two dir (txt "run") (txt "initd.sock") run-IsElement sock-IsElement))

  -- initd listens where Create tells it to.
  main-program_args :
      {V : Type 0} (host : InitdHost V) (dir image : Str) (v : V)
      → Initd.main host (run_cmd c dir image).program_args v ≡ Initd.serve host initd_socket v
  unfolding Initd.main run_cmd Flags.parse GoMap.get GoMap.put value txt str_dec
  main-program_args host dir image v = refl

  -- For every directory and image: run as the first program of the container with the arguments
  -- that Create gives it, initd listens on and serves a socket that the container sees, by its
  -- volumes, as the very file on the host that dosh is told to dial.
  pub sockets_meet :
      {V : Type 0} (host : InitdHost V) (dir image : Str) (v : V)
      → (socket : Str) × (Initd.main host (run_cmd c dir image).program_args v
          ≡ Initd.serve host socket v)
        × (host_file (run_cmd c dir image).volumes socket ≡ some (dosh_in dir).initd_sock)
  sockets_meet host dir image v =
      (initd_socket, main-program_args host dir image v, dialled dir image)
