-- ===== src/Tests/Program.antt =====
-- The garden-docker program and its arguments, on a host that counts.
use garden_docker.Base.{
  ℕ, suc, Str, txt, str_dec, decimal, false, none, some, List, [], ◌∷◌, ◌≡◌, ◌⊎◌, refl, arith, ok,
  Go, ◌==◌,
}
use garden_docker.Base.GoMap
use garden_docker.Base.GoMap.{GoMap, In, backwards}
use garden_docker.Base.Flags.{Reads, nothing, apart, shape}
use garden_docker.GardenDocker.{MainHost, exited, defaults, accepts, settings, serve, main}
use garden_docker.GardenDocker.Arguments.{ReadsPorts, main-ReadsPorts}
use garden_docker.GardenDocker.PortFlags.{main-port_flags}
use garden_docker.Integration.{Runner, mentions, garden_args}
use garden_docker.Integration.Arguments.{HasLogLevel, main-garden_args}
use garden_docker.Integration.Defaults.{MentionsNone}
use garden_docker.Tests.Creation.{creator}
use garden_docker.GardenDocker
use garden_docker.GardenDocker.{Settings, serving}
use garden_docker.GardenDocker.Serving.{IsStarted, settings_for, main-IsStarted}
use garden_docker.Create
use garden_docker.Repo.{new_repo}
use garden_docker.Base.Flags.{parse_waiting}
use garden_docker.Base.{◌>>=◌}

abbrev counting : {A : Type 0} → A → Go ℕ A
counting a n = (ok a, suc n)

-- Every duration is 0.
abbrev host : MainHost ℕ ℕ
host = record {
  parse_duration = λ s. some 0;
  no_duration = 0;
  logger_flags = (txt "logLevel", txt "info") ∷ [];
  new_logger = λ flags. counting tt;
  set_env = λ k v n. n;
  build = λ package_path args. counting (txt "/tmp/initd");
  new_port_pool = λ start size. counting creator.port_pool;
  iptables_chain = λ name bridge. creator.chain;
  command_runner = record { run = λ cmd n. (record { err = none; stdout = []; stderr = [] }, n) };
  new_process_tracker = creator.new_tracker;
  url_path = creator.url_path;
  depot_host = record {
    new_v4 = counting (txt "id1");
    mkdir_all = λ path mode. counting tt;
    build = λ package_path. counting (txt "/tmp/built");
    run = λ cmd. counting tt;
  };
  host_net = record { local_ip = counting (txt "10.0.0.1"); parse_ip = λ s. s };
  exec = λ cmd n. suc n;
  orders = record { stores = backwards; properties = backwards };
  listen = λ network addr grace_time b repo. counting tt;
  stop = λ n. n;
}

abbrev some_args : List Str
some_args = txt "-portPoolSize" ∷ txt "0x10" ∷ []

main-ReadsPorts_example :
    (main host some_args 0 ≡ (ok (exited 2), 0))
    ⊎ ((flags : GoMap Str) × (main host some_args 0 ≡ serve host flags (settings host flags) 0)
        × ReadsPorts host flags (settings host flags))
main-ReadsPorts_example = main-ReadsPorts host some_args 0

main-port_flags_example :
    (flags : GoMap Str) × (main host
        (txt "-portPoolStart" ∷ decimal 7000 ∷ txt "-portPoolSize" ∷ decimal 10 ∷ [])
        0
      ≡ serve host flags (settings host flags) 0)
    × ((settings host flags).port_pool_start ≡ 7000)
    × ((settings host flags).port_pool_size ≡ 10)
    × ((settings host flags).listen_network ≡ txt "tcp")
    × ((settings host flags).listen_addr ≡ txt "0.0.0.0:7777")
main-port_flags_example = main-port_flags host 7000 10 0 (omega arith) (omega arith)

abbrev runner : Runner
runner = record {
  network = txt "unix";
  addr = txt "/tmp/garden.sock";
  bin = txt "/tmp/garden-docker";
  argv = txt "-depotDir" ∷ txt "/tmp/depot" ∷ [];
  tmpdir = txt "/tmp/test-garden-1";
}

abbrev with_depot_dir : GoMap Str
with_depot_dir = GoMap.put (txt "depotDir") (txt "/tmp/depot") (defaults host)

argv_read : Reads (accepts host) runner.argv (defaults host) with_depot_dir
unfolding shape txt str_dec GoMap.get accepts
argv_read =
    apart {name = txt "depotDir"} {old = txt "/var/vcap/data/gardendocker/depot"} refl refl refl
      nothing

argv-MentionsNone : MentionsNone runner.argv
unfolding mentions txt str_dec
argv-MentionsNone = record { no_network = refl; no_addr = refl; no_level = refl }

host-HasLogLevel : HasLogLevel host
unfolding GoMap.get txt str_dec
host-HasLogLevel = (txt "info", refl)

network_given : (runner.network == []) ≡ false
unfolding txt str_dec
network_given = refl

addr_given : (runner.addr == []) ≡ false
unfolding txt str_dec
addr_given = refl

main-garden_args_example :
    (given : GoMap Str) × (main host (garden_args runner) 0
      ≡ serve host given (settings host given) 0)
    × (settings host given ≡ record (settings host with_depot_dir) {
      listen_network = txt "unix";
      listen_addr = txt "/tmp/garden.sock";
    })
main-garden_args_example =
    main-garden_args host runner with_depot_dir 0 host-HasLogLevel argv_read argv-MentionsNone
      network_given addr_given

-- Without arguments, all flags have their defaults.
abbrev default_settings : Settings ℕ
default_settings = settings host (defaults host)

abbrev default_creator : Create.DaemonContainerCreator ℕ
default_creator = GardenDocker.creator host default_settings (txt "/tmp/initd") creator.port_pool

serves_default : (main host [] 0).0 ≡ ok (serving default_settings default_creator new_repo)
unfolding main parse_waiting serve ◌>>=◌ txt
serves_default = refl

main-IsStarted_example :
    IsStarted host default_settings default_creator new_repo
    × ((flags : GoMap Str) × (default_settings ≡ settings_for host flags)
        × ReadsPorts host flags default_settings)
main-IsStarted_example =
    main-IsStarted host [] 0 default_settings default_creator new_repo serves_default
