-- ===== src/Tests/Doubles.antt =====
-- The doubles of fakes/, and Create on them.
use garden_docker.Base.{ℕ, Str, txt, none, some, List, [], ◌∷◌, ◌≡◌, ◌+◌, text, ok}
use garden_docker.Base.Lists.{length, get_elem?}
use garden_docker.Create.{DaemonContainerCreator}
use garden_docker.Fakes.{Fake, Results, indexed, call, call_count, args_of_call, always, new_fake}
use garden_docker.Fakes.Recorded.{after_calls, after_calls-noted}
use garden_docker.Fakes.Depot.{new_fake_depot}
use garden_docker.Fakes.DockerRunner.{new_fake_docker_runner}
use garden_docker.Fakes.Creation.{
  Doubles, depot_create, docker_run, docker_inspect, ExpectedNotes, created, url, image_of,
  create-Notes,
}
use garden_docker.Tests.Creation.{named, process_one}

abbrev naming : Fake ℕ Str ℕ
naming = new_fake 0

abbrev names : List Str
names = txt "a" ∷ txt "b" ∷ []

after_calls-noted_example :
    (call_count (after_calls names (naming, 0)).0 ≡ call_count naming + length names)
    × (args_of_call (after_calls names (naming, 0)).0 (call_count naming + 1)
        ≡ indexed (get_elem? names 1))
    × ((call (txt "c") (after_calls names (always 7 naming, 0))).0 ≡ ok 7)
after_calls-noted_example = after_calls-noted names naming 0 7 1 (txt "c")

abbrev doubles : Doubles ℕ
doubles = record { depot = new_fake_depot; docker_runner = new_fake_docker_runner; outside = 0 }

abbrev on_new_doubles : DaemonContainerCreator (Doubles ℕ)
on_new_doubles = record {
  default_rootfs = txt "docker:///busybox";
  depot = record { create = depot_create };
  dosh_path = [];
  initd_path = txt "/tmp/initd";
  chain = record { forward = λ action ip from protocol container_ip to d. (ok tt, d) };
  port_pool = record { acquire = λ d. (ok 61001, d) };
  docker_runner = record { run = docker_run; inspect = docker_inspect };
  new_tracker = λ dir. record {
    run = λ id cmd io tty signaller d. (ok process_one, d);
    attach = λ id io d. (ok process_one, d);
  };
  url_path = λ u. ok (txt "/busybox");
}

abbrev dir : Results Str
dir = (txt "/depot/1", none)

abbrev failed_run : Results Str
failed_run = ([], some (text (txt "docker docker docker")))

abbrev no_ip : Results Str
no_ip = ([], none)

create-Notes_example :
    ExpectedNotes on_new_doubles
      (named (txt "one"))
      []
      doubles
      (created on_new_doubles (named (txt "one")) [] doubles dir failed_run no_ip)
      dir
      (image_of (url on_new_doubles (named (txt "one")) [] doubles))
      failed_run
create-Notes_example =
    create-Notes on_new_doubles (named (txt "one")) [] doubles dir failed_run no_ip
