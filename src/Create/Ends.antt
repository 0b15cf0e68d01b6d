-- ===== src/Create/Ends.antt =====
-- The ways in which create.go's Create can end.
use garden_docker.Base.{
  exec_command, Error, text, message, ℕ, Str, txt, none, some, [], ◌∷◌, ◌++◌, ◌≡◌, Outcome, ok,
  panic, prefixed,
}
use garden_docker.Base.Binds.{ended}
use garden_docker.Base.Lists.{length}
use garden_docker.Garden.{ContainerSpec}
use garden_docker.Container.{Machine, Container}
use garden_docker.Base.FilePath.{join}
use garden_docker.DockerCli.{RunCmd, InspectCmd}
use garden_docker.Create.{DaemonContainerCreator}

-- The error of a failed `docker inspect` of a container.
abbrev pub not_inspected : Str → Error → Error
not_inspected docker_id e = text (txt "create: inspect " ++ (docker_id ++ (txt ": " ++ message e)))

-- The root file system of a container: the default one where none is named.
abbrev pub rootfs_or : Str → Str → Str
rootfs_or default [] = default
rootfs_or default (b ∷ bs) = b ∷ bs

module _ {W : Type 0} (c : DaemonContainerCreator W) (given : ContainerSpec) (s : Machine W) where
  -- The spec that the container is made with.
  abbrev pub spec_for : ContainerSpec
  spec_for = record given { root_fs_path = rootfs_or c.default_rootfs given.root_fs_path }

  -- What docker is asked to run: detached, initd in the image, with initd and the directory's `run`
  -- mounted.
  abbrev pub run_for : Str → Str → RunCmd
  run_for dir image = record {
    volumes =
        record { host_path = c.initd_path; container_path = txt "/garden-bin/initd" }
        ∷ record { host_path = join (dir ∷ txt "run" ∷ []); container_path = txt "/run" }
        ∷ [];
    image = image;
    program = txt "/garden-bin/initd";
    program_args =
        txt "-socketPath" ∷ txt "/run/initd.sock" ∷ txt "-unmountAfterListening" ∷ txt "/run" ∷ [];
    detach = garden_docker.Base.true;
  }

  -- What docker is asked of the container that runs.
  abbrev pub inspect_for : Str → InspectCmd
  inspect_for docker_id = record {
    container_id = docker_id;
    field = txt "NetworkSettings.IPAddress";
  }

  -- The container of a Create that goes well, for its directory, its identifier and its address.
  abbrev pub container_for : Str → Str → Str → Container W
  container_for dir docker_id ip = record {
    limits_handler = record {};
    stream_handler = record {};
    info_handler = record {
      spec = spec_for;
      host_ip = [];
      container_ip = ip;
      container_path = dir;
      docker_id = docker_id;
      props_handler = length s.heap;
    };
    net_handler = record { container_ip = ip; chain = c.chain; port_pool = c.port_pool };
    run_handler = record {
      process_tracker = c.new_tracker dir;
      container_cmd = record {
        cmd = λ path args. exec_command (join (dir ∷ txt "bin" ∷ txt "dosh" ∷ [])) (
            txt "-socketPath"
            ∷ join (dir ∷ txt "run" ∷ txt "initd.sock" ∷ [])
            ∷ txt "-user"
            ∷ txt "root"
            ∷ path
            ∷ args);
      };
    };
  }

  -- The machine with another world outside.
  abbrev pub at_world : W → Machine W
  at_world w = record s { outside = w }

  -- The depot has made `dir`.
  abbrev pub HasDir : Str → W → Type 0
  HasDir dir w = c.depot.create s.outside ≡ (ok dir, w)

  -- The root file system is a URL with the path `path`.
  abbrev pub HasPath : Str → Type 0
  HasPath path = c.url_path spec_for.root_fs_path ≡ ok path

  -- Docker runs the image under the name `docker_id`.
  abbrev pub HasStarted : Str → Str → W → Str → W → Type 0
  HasStarted dir image w docker_id v = c.docker_runner.run (run_for dir image) w ≡ (ok docker_id, v)

  abbrev pub Result : Type 0
  Result = Outcome (Container W) × Machine W

  -- The ways in which Create can end, in the order of its steps. At each way, the steps before have
  -- gone well, the machine is as they and the last step left it, and no later step was taken.
  pub data Ends (r : Result) : Type 0 where
    no_depot :
        (o : Outcome Str) (w : W) (b : Outcome (Container W))
        → c.depot.create s.outside ≡ (o, w)
        → ended (prefixed (txt "create depot dir: ")) o ≡ some b
        → r ≡ (b, at_world w)
        → Ends r
    bad_rootfs :
        (dir : Str) (w : W) (o : Outcome Str) (b : Outcome (Container W))
        → HasDir dir w
        → c.url_path spec_for.root_fs_path ≡ o
        → ended (prefixed (txt "create: not a valid rootfs path: ")) o ≡ some b
        → r ≡ (b, at_world w)
        → Ends r
    empty_path :
        (dir : Str) (w : W)
        → HasDir dir w
        → HasPath []
        → r ≡ (panic (txt "slice bounds out of range"), at_world w)
        → Ends r
    no_run :
        (dir : Str) (w : W) (first : ℕ) (image : Str) (o : Outcome Str) (v : W)
        (b : Outcome (Container W))
        → HasDir dir w
        → HasPath (first ∷ image)
        → c.docker_runner.run (run_for dir image) w ≡ (o, v)
        → ended (prefixed (txt "create: ")) o ≡ some b
        → r ≡ (b, at_world v)
        → Ends r
    no_inspect :
        (dir : Str) (w : W) (first : ℕ) (image docker_id : Str) (v : W) (o : Outcome Str) (u : W)
        (b : Outcome (Container W))
        → HasDir dir w
        → HasPath (first ∷ image)
        → HasStarted dir image w docker_id v
        → c.docker_runner.inspect (inspect_for docker_id) v ≡ (o, u)
        → ended (not_inspected docker_id) o ≡ some b
        → r ≡ (b, at_world u)
        → Ends r
    done :
        (dir : Str) (w : W) (first : ℕ) (image docker_id : Str) (v : W) (ip : Str) (u : W)
        → HasDir dir w
        → HasPath (first ∷ image)
        → HasStarted dir image w docker_id v
        → c.docker_runner.inspect (inspect_for docker_id) v ≡ (ok ip, u)
        → r ≡ (
          ok (container_for dir docker_id ip),
          record { heap = s.heap ++ (record { props = none } ∷ []); outside = u },
        )
        → Ends r
