-- ===== src/GardenDocker.antt =====
-- cmd/garden-docker/main.go: the program that parses the flags, puts the parts together and serves
-- them until a signal.
pub mod Arguments
pub mod PortFlags
pub mod Serving
pub mod Commands
use garden_docker.Base.{
  ℕ, Str, txt, Bool, true, Option, none, some, List, [], ◌∷◌, ◌++◌, ◌%◌, ◌^◌, Outcome, ok, fail,
  panic, Go, pure, must, ◌>>=◌, ◌>>◌, ◌==◌, if◌then◌else◌, CommandRunner, ExecCmd,
}
use garden_docker.Base.GoMap
use garden_docker.Base.GoMap.{GoMap}
use garden_docker.Base.Flags
use garden_docker.Base.Flags.{parsed, refused, parse_waiting}
use garden_docker.Base.Uint.{parse_uint}
use garden_docker.Net.{Chain, PortPool}
use garden_docker.Run.{ProcessTracker}
use garden_docker.DockerCli
use garden_docker.Depot
use garden_docker.Depot.{DepotHost, as_depot}
use garden_docker.Create
use garden_docker.Create.{DaemonContainerCreator}
use garden_docker.Container.{Container, handle}
use garden_docker.Repo.{Repo, new_repo}
use garden_docker.Net.{HostNet}
use garden_docker.Garden.Api.{GardenBackend}
use garden_docker.Repo.Interface.{as_repo}
use garden_docker.Base.GoMap.{RangeOrder}
use garden_docker.Backend.{Server}
use garden_docker.Backend.Api.{as_backend}

-- The orders in which the runtime visits the two kinds of maps.
pub record Orders (W : Type 0) : Type 0 where
  pub stores : RangeOrder (Container W)
  pub properties : RangeOrder Str

-- What main calls of other code. `Duration` is Go's time.Duration, with `ParseDuration`. cf_lager
-- adds flags of its own, all of them strings, and `new_logger` panics on a log level that it does
-- not know. `listen` is the vendored server's `New` and `Start`, for a backend with its repository,
-- and `stop` its `Stop`. `host_net`, `exec` and `orders` are what the backend uses of Go.
pub record MainHost (W Duration : Type 0) : Type 0 where
  pub parse_duration : Str → Option Duration
  pub no_duration : Duration
  pub logger_flags : GoMap Str
  pub new_logger : GoMap Str → Go W (Unit {0})
  pub set_env : Str → Str → W → W
  pub build : Str → List Str → Go W Str
  pub new_port_pool : ℕ → ℕ → Go W (PortPool W)
  pub iptables_chain : Str → Str → Chain W
  pub command_runner : CommandRunner W
  pub new_process_tracker : Str → ProcessTracker W
  pub url_path : Str → Outcome Str
  pub depot_host : DepotHost W
  pub host_net : HostNet W
  pub exec : ExecCmd → W → W
  pub orders : Orders W
  pub listen :
      Str
      → Str
      → Duration
      → GardenBackend (Server W (Repo (Container W)))
      → Repo (Container W)
      → Go W (Unit {0})
  pub stop : W → W

-- What the flags say.
pub record Settings (Duration : Type 0) : Type 0 where
  pub listen_network : Str
  pub listen_addr : Str
  pub depot_dir : Str
  pub container_grace_time : Duration
  pub port_pool_start : ℕ
  pub port_pool_size : ℕ

-- The signals of package syscall that the program and its tests name.
pub data Signal : Type 0 where
  sighup sigint sigquit sigkill sigterm : Signal

-- Where the program is: it has exited with a status, or serves with a creator of containers and a
-- repository.
pub data Progress (W Duration : Type 0) : Type 0 where
  exited : ℕ → Progress W Duration
  serving : Settings Duration → DaemonContainerCreator W → Repo (Container W) → Progress W Duration

-- `uint32(n)`
abbrev pub uint32 : ℕ → ℕ
uint32 n = n % 2 ^ 32

-- The flags with the text of their defaults, where the flag package has none for the grace time: it
-- is 0 until it is set. `ParseDuration` fails on no text.
abbrev pub own_defaults : GoMap Str
own_defaults =
    (txt "listenNetwork", txt "tcp")
    ∷ (txt "listenAddr", txt "0.0.0.0:7777")
    ∷ (txt "depotDir", txt "/var/vcap/data/gardendocker/depot")
    ∷ (txt "containerGraceTime", [])
    ∷ (txt "portPoolStart", txt "61001")
    ∷ (txt "portPoolSize", txt "5000")
    ∷ []

abbrev or_empty : Option Str → Str
or_empty none = []
or_empty (some v) = v

unfoldable pub value : Str → GoMap Str → Str
value name flags = or_empty (GoMap.get name flags)

abbrev is_some : {A : Type 0} → Option A → Bool
is_some none = garden_docker.Base.false
is_some (some a) = true

abbrev pub or_zero : Option ℕ → ℕ
or_zero none = 0
or_zero (some n) = n

abbrev or_default : {A : Type 0} → A → Option A → A
or_default a none = a
or_default a (some b) = b

-- A duration flag that is not set has no text.
abbrev pub duration_value : {A : Type 0} → A → (Str → Option A) → Str → A
duration_value zero_value parse [] = zero_value
duration_value zero_value parse (c ∷ s) = or_default zero_value (parse (c ∷ s))

unfoldable pub uint_value : Str → GoMap Str → ℕ
uint_value name flags = or_zero (parse_uint (value name flags))

abbrev pub bridge : Str
bridge = txt "docker0"

abbrev pub initd_package : Str
initd_package = txt "github.com/julz/garden-docker/cmd/initd"

-- The signals that `signal.Notify` has sent to the channel.
abbrev pub notified : List Signal
notified = sigint ∷ sigterm ∷ sighup ∷ []

module _ {W Duration : Type 0} (host : MainHost W Duration) where
  abbrev pub defaults : GoMap Str
  defaults = own_defaults ++ host.logger_flags

  -- Whether a flag takes the value: the two uint flags and the duration flag parse it.
  unfoldable pub accepts : Str → Str → Bool
  accepts name v =
      if name == txt "portPoolStart"
      then is_some (parse_uint v)
      else if name == txt "portPoolSize"
      then is_some (parse_uint v)
      else if name == txt "containerGraceTime"
      then is_some (host.parse_duration v)
      else true

  unfoldable pub settings : GoMap Str → Settings Duration
  settings flags = record {
    listen_network = value (txt "listenNetwork") flags;
    listen_addr = value (txt "listenAddr") flags;
    depot_dir = value (txt "depotDir") flags;
    container_grace_time =
        duration_value host.no_duration host.parse_duration
          (value (txt "containerGraceTime") flags);
    port_pool_start = uint_value (txt "portPoolStart") flags;
    port_pool_size = uint_value (txt "portPoolSize") flags;
  }

  -- The creator that the backend is given.
  unfoldable pub creator : Settings Duration → Str → PortPool W → DaemonContainerCreator W
  creator s initd_path pool = record {
    default_rootfs = txt "docker:///busybox";
    depot = as_depot host.depot_host (record { dir = s.depot_dir });
    dosh_path = [];
    initd_path = initd_path;
    chain = host.iptables_chain (txt "DOCKER") bridge;
    port_pool = pool;
    docker_runner = record {
      run = DockerCli.run host.command_runner;
      inspect = DockerCli.inspect host.command_runner;
    };
    new_tracker = host.new_process_tracker;
    url_path = host.url_path;
  }

  -- The backend that the server is given.
  abbrev pub backend : DaemonContainerCreator W → GardenBackend (Server W (Repo (Container W)))
  backend c =
      as_backend host.host_net host.exec host.orders.properties
        (record { creator = Create.create c; repo = as_repo handle host.orders.stores })

  abbrev setting_env : Str → Str → Go W (Unit {0})
  setting_env k v w = (ok tt, host.set_env k v w)

  -- From the settings on. `logger.Fatal` panics with the error.
  unfoldable pub serve : GoMap Str → Settings Duration → Go W (Progress W Duration)
  serve flags s = do
    host.new_logger flags
    setting_env (txt "CGO_ENABLED") (txt "0")
    initd_path ←
        must (host.build initd_package (txt "-a" ∷ txt "-installsuffix" ∷ txt "static" ∷ []))
    pool ← host.new_port_pool (uint32 s.port_pool_start) (uint32 s.port_pool_size)
    let c = creator s initd_path pool
    must (host.listen s.listen_network s.listen_addr s.container_grace_time (backend c) new_repo)
    pure (serving s c new_repo)

  -- `main`, from the arguments behind the program's name up to where it waits.
  unfoldable pub main : List Str → Go W (Progress W Duration)
  main args w = elim (parse_waiting accepts args none defaults) [
    | parsed flags rest ↦ serve flags (settings flags) w
    | refused ↦ (ok (exited 2), w)
  ]

  -- A signal that was notified, while the program serves.
  unfoldable pub on_signal : Go W (Progress W Duration)
  on_signal w = (ok (exited 0), host.stop w)
