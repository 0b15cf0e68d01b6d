-- ===== src/Tests/Creation.antt =====
-- Creators, with a depot and a docker that count their calls.
use garden_docker.Base.{
  ℕ, suc, Str, txt, none, some, List, [], ◌∷◌, ◌≡◌, ◌⊎◌, refl, Outcome, ok, fail, Go,
}
use garden_docker.Garden.{ContainerSpec}
use garden_docker.Container.{Machine}
use garden_docker.Base.{ExecCmd, ◌>>=◌, false}
use garden_docker.Base.Flags.{plain, shape}
use garden_docker.Garden.{Process, ProcessSpec, no_limits, ProcessIo}
use garden_docker.Container.{Container, allocate}
use garden_docker.Run
use garden_docker.Dosh
use garden_docker.Dosh.{Daemon}
use garden_docker.Dosh.Arguments.{behind_name, requested}
use garden_docker.Create.{container, start}
use garden_docker.Create.Process.{run-create}
use garden_docker.Initd
use garden_docker.Initd.{InitdHost}
use garden_docker.Initd.Exits.{noting_acts, Exits, main-Exits}
use garden_docker.Create.{DaemonContainerCreator, with_rootfs, run_cmd, dosh_in, create}
use garden_docker.Create.Ends.{Ends}
use garden_docker.Create.Stages.{create-Ends}
use garden_docker.Create.Sockets.{host_file, sockets_meet}

abbrev counting : {A : Type 0} → A → Go ℕ A
counting a n = (ok a, suc n)

-- Process 1, which ends with status 7.
abbrev pub process_one : {S : Type 0} → Process S
process_one = record {
  id = 1;
  wait = λ s. (ok 7, s);
  set_tty = λ tty s. (ok tt, s);
  signal = λ sent s. (ok tt, s);
}

abbrev pub creator : DaemonContainerCreator ℕ
creator = record {
  default_rootfs = txt "docker:///busybox";
  depot = record { create = counting (txt "/depot/1") };
  dosh_path = [];
  initd_path = txt "/tmp/initd";
  chain = record { forward = λ action ip from protocol container_ip to. counting tt };
  port_pool = record { acquire = counting 61001 };
  docker_runner = record {
    run = λ cmd. counting (txt "abc");
    inspect = λ cmd. counting (txt "172.17.0.2");
  };
  new_tracker = λ dir. record {
    run = λ id cmd io tty signaller. counting process_one;
    attach = λ id io. counting process_one;
  };
  url_path = λ url. ok (txt "/busybox");
}

abbrev pub named : Str → ContainerSpec
named handle = record {
  handle = handle;
  grace_time = 0;
  root_fs_path = [];
  bind_mounts = [];
  network = [];
  properties = none;
  env = [];
  privileged = garden_docker.Base.false;
}

abbrev pub fresh : Machine ℕ
fresh = record { heap = []; outside = 0 }

create-Ends_example :
    Ends creator (named (txt "one")) fresh (create creator (named (txt "one")) fresh)
create-Ends_example = create-Ends creator (named (txt "one")) fresh

abbrev initd_host : InitdHost ℕ
initd_host = record {
  start_reaper = suc;
  stop_reaper = suc;
  listen = λ socket. counting tt;
  run_daemon = λ socket. counting tt;
}

sockets_meet_example :
    (socket : Str) × (Initd.main initd_host
        (run_cmd creator (txt "/depot/1") (txt "busybox")).program_args
        0
      ≡ Initd.serve initd_host socket 0)
    × (host_file (run_cmd creator (txt "/depot/1") (txt "busybox")).volumes socket
        ≡ some (dosh_in (txt "/depot/1")).initd_sock)
sockets_meet_example = sockets_meet creator initd_host (txt "/depot/1") (txt "busybox") 0

abbrev pub one : Container ℕ
one =
    container creator (with_rootfs creator (named (txt "one"))) (txt "/depot/1") (txt "abc")
      (txt "172.17.0.2") 0

pub created_one : (create creator (named (txt "one")) fresh).0 ≡ ok one
unfolding create ◌>>=◌ txt start allocate with_rootfs
created_one = refl

abbrev list_files : ProcessSpec
list_files = record {
  path = txt "ls";
  args = txt "-l" ∷ [];
  env = [];
  dir = txt "/tmp";
  privileged = false;
  user = txt "alice";
  limits = no_limits;
  tty = none;
}

ls-plain : shape list_files.path ≡ plain
unfolding shape txt
ls-plain = refl

-- A daemon that starts process 1, and every process ends with status 7.
abbrev sevens : Daemon ℕ
sevens = record { new_process = λ socket spec n. (ok 1, n); wait = λ process n. (ok 7, n) }

abbrev no_io : ProcessIo
no_io = record { stdin = 0; stdout = 1; stderr = 2 }

run-create_example :
    (cmd : ExecCmd) × (inner : Str) × (outer : Str) × (Run.run one.run_handler list_files no_io 0
      ≡ (creator.new_tracker (txt "/depot/1")).run 0 cmd no_io none none 0)
    × (Dosh.main sevens (behind_name cmd) 0
        ≡ Dosh.wait_for sevens (sevens.new_process outer (requested (txt "ls") (txt "-l" ∷ [])) 0))
    × (host_file (run_cmd creator (txt "/depot/1") (txt "busybox")).volumes inner ≡ some outer)
    × (Initd.main initd_host (run_cmd creator (txt "/depot/1") (txt "busybox")).program_args 0
        ≡ Initd.serve initd_host inner 0)
unfolding container
run-create_example =
    run-create creator (named (txt "one")) fresh one created_one list_files no_io sevens initd_host
      (txt "busybox") 0 0 0 ls-plain

main-Exits_example :
    Exits initd_host 0
      (txt "-socketPath" ∷ txt "/run/initd.sock" ∷ [])
      (Initd.main (noting_acts initd_host) (txt "-socketPath" ∷ txt "/run/initd.sock" ∷ []) (0, []))
main-Exits_example = main-Exits initd_host 0 (txt "-socketPath" ∷ txt "/run/initd.sock" ∷ [])
