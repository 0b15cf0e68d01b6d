-- ===== src/Create.antt =====
-- create.go: making a container. `doshcmd` is in Run.
pub mod Ends
pub mod Stages
pub mod Outcomes
pub mod Process
pub mod Programs
pub mod Sockets
pub mod Apart
pub mod Ports
use garden_docker.Base.{
  ℕ, Str, txt, true, List, [], ◌∷◌, ◌++◌, Error, text, message, Outcome, ok, fail, panic, Go, pure,
  wrapping, prefixed, ◌>>=◌, ◌==◌, if◌then◌else◌,
}
use garden_docker.Base.FilePath.{join}
use garden_docker.Garden.{ContainerSpec}
use garden_docker.Props.{new_props_handler}
use garden_docker.Depot.{Depot}
use garden_docker.Net.{Chain, PortPool}
use garden_docker.Run.{ProcessTracker, DoshCmd, dosh_cmder}
use garden_docker.DockerCli.{Volume, RunCmd, InspectCmd}
use garden_docker.Container.{Machine, InfoHandler, Container, lifted, allocate}

-- The interface `DockerRunner`.
pub record DockerRunner (W : Type 0) : Type 0 where
  pub run : RunCmd → Go W Str
  pub inspect : InspectCmd → Go W Str

-- The fields of the Go struct. `new_tracker` is
-- `process_tracker.New` with the command runner, and `url_path` is Go's `url.Parse` as far as it is
-- used: the path of the URL, or an error.
pub record DaemonContainerCreator (W : Type 0) : Type 0 where
  pub default_rootfs : Str
  pub depot : Depot W
  pub dosh_path : Str
  pub initd_path : Str
  pub chain : Chain W
  pub port_pool : PortPool W
  pub docker_runner : DockerRunner W
  pub new_tracker : Str → ProcessTracker W
  pub url_path : Str → Outcome Str

abbrev pub slice_bounds : Str
slice_bounds = txt "slice bounds out of range"

-- `path[1:]`
abbrev pub behind_first : Str → Outcome Str
behind_first [] = panic slice_bounds
behind_first (c ∷ s) = ok s

abbrev pub initd_socket : Str
initd_socket = txt "/run/initd.sock"

abbrev pub initd_args : List Str
initd_args = txt "-socketPath" ∷ initd_socket ∷ txt "-unmountAfterListening" ∷ txt "/run" ∷ []

-- `fmt.Errorf("create: inspect %s: %s", dockerID, err)`
abbrev pub inspect_error : Str → Error → Error
inspect_error docker_id e = text (txt "create: inspect " ++ (docker_id ++ (txt ": " ++ message e)))

abbrev pub dosh_in : Str → DoshCmd
dosh_in dir = record {
  path = join (dir ∷ txt "bin" ∷ txt "dosh" ∷ []);
  initd_sock = join (dir ∷ txt "run" ∷ txt "initd.sock" ∷ []);
}

module _ {W : Type 0} (c : DaemonContainerCreator W) where
  -- The spec with the default root file system where it names none.
  unfoldable pub with_rootfs : ContainerSpec → ContainerSpec
  with_rootfs spec =
      if spec.root_fs_path == [] then record spec { root_fs_path = c.default_rootfs } else spec

  -- The command line of the container.
  unfoldable pub run_cmd : Str → Str → RunCmd
  run_cmd dir image = record {
    volumes =
        record { host_path = c.initd_path; container_path = txt "/garden-bin/initd" }
        ∷ record { host_path = join (dir ∷ txt "run" ∷ []); container_path = txt "/run" }
        ∷ [];
    image = image;
    program = txt "/garden-bin/initd";
    program_args = initd_args;
    detach = true;
  }

  unfoldable pub inspect_cmd : Str → InspectCmd
  inspect_cmd docker_id = record {
    container_id = docker_id;
    field = txt "NetworkSettings.IPAddress";
  }

  -- The container that is returned, with the number of its new properties handler.
  unfoldable pub container : ContainerSpec → Str → Str → Str → ℕ → Container W
  container spec dir docker_id ip props = record {
    limits_handler = record {};
    stream_handler = record {};
    info_handler = record {
      spec = spec;
      host_ip = [];
      container_ip = ip;
      container_path = dir;
      docker_id = docker_id;
      props_handler = props;
    };
    net_handler = record { container_ip = ip; chain = c.chain; port_pool = c.port_pool };
    run_handler = record {
      process_tracker = c.new_tracker dir;
      container_cmd = dosh_cmder (dosh_in dir);
    };
  }

  abbrev pub outcome : {A : Type 0} → Outcome A → Go (Machine W) A
  outcome o s = (o, s)

  -- `Create`, from the call of docker run on.
  unfoldable pub start : ContainerSpec → Str → Str → Go (Machine W) (Container W)
  start spec dir image = do
    docker_id ←
        wrapping (prefixed (txt "create: ")) (lifted (c.docker_runner.run (run_cmd dir image)))
    ip ←
        wrapping (inspect_error docker_id)
          (lifted (c.docker_runner.inspect (inspect_cmd docker_id)))
    props ← allocate new_props_handler
    pure (container spec dir docker_id ip props)

  -- `Create`
  unfoldable pub create : ContainerSpec → Go (Machine W) (Container W)
  create given = do
    dir ← wrapping (prefixed (txt "create depot dir: ")) (lifted c.depot.create)
    let spec = with_rootfs given
    path ←
        wrapping (prefixed (txt "create: not a valid rootfs path: "))
          (outcome (c.url_path spec.root_fs_path))
    image ← outcome (behind_first path)
    start spec dir image
