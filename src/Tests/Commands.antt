-- ===== src/Tests/Commands.antt =====
-- The docker commands of garden-docker's creator, on a host whose depot works and whose docker
-- writes an identifier and a newline.
use garden_docker.Base.{
  Str, ◌≡◌, ℕ, suc, txt, str_dec, none, some, List, [], ◌∷◌, ◌++◌, refl, ok, Go, ExecCmd,
  CommandRunner, ◌>>=◌,
}
use garden_docker.Base.FilePath.{join}
use garden_docker.Base.GoMap.{backwards}
use garden_docker.Net.{Chain, PortPool}
use garden_docker.Container.{Machine}
use garden_docker.Depot
use garden_docker.Create.{DaemonContainerCreator, create}
use garden_docker.Create.Ends.{HasDir}
use garden_docker.GardenDocker.{
  MainHost, Settings, creator, settings, defaults, serving, value, serve, main,
}
use garden_docker.Base.Flags.{parse_waiting}
use garden_docker.Base.GoMap
use garden_docker.Repo.{new_repo}
use garden_docker.GardenDocker.Commands.{Ran}
use garden_docker.GardenDocker.Commands.Served.{noting_host, main-Ran}
use garden_docker.Tests.Creation.{named, process_one}

-- A count of the calls, and the commands.
abbrev Noting : Type 0
Noting = ℕ × List ExecCmd

abbrev counting : {A : Type 0} → A → Go Noting A
counting a (n, commands) = (ok a, (suc n, commands))

abbrev docker : CommandRunner ℕ
docker = record {
  run = λ cmd n. (record { err = none; stdout = txt "abc" ++ (10 ∷ []); stderr = [] }, suc n);
}

abbrev chain : Chain Noting
chain = record { forward = λ action ip from protocol container_ip to. counting tt }

abbrev pool : PortPool Noting
pool = record { acquire = counting 61001 }

abbrev host : MainHost Noting ℕ
host = record {
  parse_duration = λ s. some 0;
  no_duration = 0;
  logger_flags = (txt "logLevel", txt "info") ∷ [];
  new_logger = λ flags. counting tt;
  set_env = λ k v n. n;
  build = λ package_path args. counting (txt "/tmp/initd");
  new_port_pool = λ start size. counting pool;
  iptables_chain = λ name bridge. chain;
  command_runner = record { run = λ cmd n. (record { err = none; stdout = []; stderr = [] }, n) };
  new_process_tracker = λ dir. record {
    run = λ id cmd io tty signaller. counting process_one;
    attach = λ id io. counting process_one;
  };
  url_path = λ url. ok (txt "/busybox");
  depot_host = record {
    new_v4 = counting (txt "id1");
    mkdir_all = λ path mode. counting tt;
    build = λ package_path. counting (txt "/tmp/built");
    run = λ cmd. counting tt;
  };
  host_net = record { local_ip = counting (txt "10.0.0.1"); parse_ip = λ s. s };
  exec = λ cmd n. n;
  orders = record { stores = backwards; properties = backwards };
  listen = λ network addr grace_time b repo. counting tt;
  stop = λ n. n;
}

abbrev default_settings : Settings ℕ
default_settings = settings (noting_host host docker) (defaults (noting_host host docker))

abbrev default_creator : DaemonContainerCreator Noting
default_creator = creator (noting_host host docker) default_settings (txt "/tmp/initd") pool

serves_default :
    (main (noting_host host docker) [] (0, [])).0
    ≡ ok (serving default_settings default_creator new_repo)
unfolding main parse_waiting serve ◌>>=◌ txt
serves_default = refl

abbrev at_first : Machine Noting
at_first = record { heap = []; outside = (0, []) }

abbrev first_dir : Str
first_dir = txt "/var/vcap/data/gardendocker/depot/id1"

depot_works : HasDir default_creator (named (txt "h")) at_first first_dir (9, [])
unfolding creator settings value GoMap.get Depot.create txt str_dec ◌>>=◌ join
depot_works = refl

main-Ran_example :
    Ran host docker default_settings
      (txt "/tmp/initd")
      pool
      (named (txt "h"))
      at_first
      first_dir
      (9, [])
      (create default_creator (named (txt "h")) at_first)
unfolding creator
main-Ran_example =
    main-Ran host docker [] (0, []) default_settings default_creator new_repo (named (txt "h"))
      at_first first_dir (9, []) serves_default depot_works
