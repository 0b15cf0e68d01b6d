-- ===== src/GardenDocker/Serving.antt =====
-- What cmd/garden-docker has put together when it serves.
use garden_docker.Base.{
  Str, txt, List, [], ◌∷◌, ◌≡◌, refl, sym, ap, ◌∙◌, inl, inr, ok, ◌%◌, ◌^◌, Outcome,
}
use garden_docker.Base.Binds.{bind_next, must_ok}
use garden_docker.Base.GoMap
use garden_docker.Base.GoMap.{GoMap}
use garden_docker.Base.Uint.{parse_uint}
use garden_docker.Net.{PortPool}
use garden_docker.DockerCli
use garden_docker.Depot
use garden_docker.Create
use garden_docker.Garden.Api.{GardenBackend}
use garden_docker.Repo.Interface.{as_repo}
use garden_docker.Backend.{Server}
use garden_docker.Backend.Api.{as_backend}
use garden_docker.Base.Ensures.{ok-injective}
use mathlib.Core.Path.{subst}
use garden_docker.Container.{Container, handle}
use garden_docker.Repo.{Repo, new_repo}
use garden_docker.Create.{DaemonContainerCreator}
use garden_docker.GardenDocker.{
  MainHost, Settings, Progress, serving, or_empty, or_zero, duration_value, value, uint_value,
  settings, creator, serve, main,
}
use garden_docker.GardenDocker.Arguments.{ReadsPorts, main-ReadsPorts}

module _ {W Duration : Type 0} (host : MainHost W Duration) where
  -- What the flags say, field by field.
  abbrev pub settings_for : GoMap Str → Settings Duration
  settings_for flags = record {
    listen_network = or_empty (GoMap.get (txt "listenNetwork") flags);
    listen_addr = or_empty (GoMap.get (txt "listenAddr") flags);
    depot_dir = or_empty (GoMap.get (txt "depotDir") flags);
    container_grace_time =
        duration_value host.no_duration host.parse_duration
          (or_empty (GoMap.get (txt "containerGraceTime") flags));
    port_pool_start = or_zero (parse_uint (or_empty (GoMap.get (txt "portPoolStart") flags)));
    port_pool_size = or_zero (parse_uint (or_empty (GoMap.get (txt "portPoolSize") flags)));
  }

  -- The creator, for the settings, the path of initd and the port pool: its default root file system
  -- is busybox, it has no path of a dosh, and its chain is DOCKER on docker0.
  abbrev pub creator_for : Settings Duration → Str → PortPool W → DaemonContainerCreator W
  creator_for s initd_path pool = record {
    default_rootfs = txt "docker:///busybox";
    depot = record { create = Depot.create host.depot_host (record { dir = s.depot_dir }) };
    dosh_path = [];
    initd_path = initd_path;
    chain = host.iptables_chain (txt "DOCKER") (txt "docker0");
    port_pool = pool;
    docker_runner = record {
      run = DockerCli.run host.command_runner;
      inspect = DockerCli.inspect host.command_runner;
    };
    new_tracker = host.new_process_tracker;
    url_path = host.url_path;
  }

  -- The backend that makes its containers by Create of the creator, and keeps them in the repository
  -- of repo.go.
  abbrev pub backend_for : DaemonContainerCreator W → GardenBackend (Server W (Repo (Container W)))
  backend_for c =
      as_backend host.host_net host.exec host.orders.properties
        (record { creator = Create.create c; repo = as_repo handle host.orders.stores })

  -- The parts of a program that serves, each from the call that made it.
  pub record IsStarted (s : Settings Duration) (c : DaemonContainerCreator W)
      (r : Repo (Container W)) : Type 0 where
    pub before_build : W
    pub before_pool : W
    pub before_listen : W
    pub its_initd :
        (host.build
          (txt "github.com/julz/garden-docker/cmd/initd")
          (txt "-a" ∷ txt "-installsuffix" ∷ txt "static" ∷ [])
          before_build).0
        ≡ ok c.initd_path
    pub its_pool :
        (host.new_port_pool (s.port_pool_start % 2 ^ 32) (s.port_pool_size % 2 ^ 32) before_pool).0
        ≡ ok c.port_pool
    pub its_depot :
        c.depot ≡ record { create = Depot.create host.depot_host (record { dir = s.depot_dir }) }
    pub its_repo : r ≡ new_repo
    pub its_creator : c ≡ creator_for s c.initd_path c.port_pool
    pub listens :
        (host.listen s.listen_network s.listen_addr s.container_grace_time
          (backend_for c)
          r
          before_listen).0
        ≡ ok tt

  data Started (s : Settings Duration) : Progress W Duration → Type 0 where
    started :
        {c : DaemonContainerCreator W} {r : Repo (Container W)}
        → IsStarted s c r
        → Started s (serving s c r)

  serve-Started :
      (flags : GoMap Str) (s : Settings Duration) (w : W) (p : Progress W Duration)
      → (serve host flags s w).0 ≡ ok p
      → Started s p
  unfolding serve creator
  serve-Started flags s w p h =
      let (_, _, h₁) = bind_next _ _ _ p h in
      let (_, _, h₂) = bind_next _ _ _ p h₁ in
      let (initd, built, h₃) = bind_next _ _ _ p h₂ in
      let (pool, pooled, h₄) = bind_next _ _ _ p h₃ in
      let (_, listened, h₅) = bind_next _ _ _ p h₄ in
      subst (Started s) (ok-injective _ p h₅) (
        started (record {
          before_build = _;
          before_pool = _;
          before_listen = _;
          its_initd = must_ok _ initd built;
          its_pool = pooled;
          its_depot = refl;
          its_repo = refl;
          its_creator = refl;
          listens = must_ok _ tt listened;
        }))

  of_serving :
      {s t : Settings Duration} {c : DaemonContainerCreator W} {r : Repo (Container W)}
      → Started t (serving s c r)
      → (t ≡ s) × IsStarted s c r
  of_serving (started h) = (refl, h)

  settings-flags : (flags : GoMap Str) → settings host flags ≡ settings_for flags
  unfolding settings value uint_value
  settings-flags flags = refl

  -- If main goes on to serve, then the settings are what some flags say, each from the flag of its
  -- name, and the texts of the two for the port pool are numbers below 2^64; the pool is the one made
  -- for the low 32 bits of these, and the path of initd the one that it was built at; the creator has
  -- these, the depot of the flag's directory, docker:///busybox as the default root file system, the
  -- chain DOCKER on docker0 and the docker runner over the commands of the host; and the server
  -- listens, on the settings' network and address and with their grace time, for the backend of just
  -- this creator and an empty repository.
  pub main-IsStarted :
      (args : List Str) (w : W) (s : Settings Duration) (c : DaemonContainerCreator W)
      (r : Repo (Container W))
      → (main host args w).0 ≡ ok (serving s c r)
      → IsStarted s c r × ((flags : GoMap Str) × (s ≡ settings_for flags) × ReadsPorts host flags s)
  main-IsStarted args w s c r h = elim (main-ReadsPorts host args w) [
    | inl e ↦ cc (e, h)
    | inr (flags, e, reads) ↦
        let served = sym (ap (λ (x : Outcome (Progress W Duration) × W). x.0) e) ∙ h in
        let (same, made) =
          of_serving (serve-Started flags (settings host flags) w (serving s c r) served) in
        (made, (flags, sym same ∙ settings-flags flags, subst (ReadsPorts host flags) same reads))
  ]
