-- ===== src/Tests/Docker.antt =====
-- The docker command lines, dosh and initd, with a runner that answers always the same.
use garden_docker.Base.{
  ℕ, txt, str_dec, true, some, [], ◌∷◌, ◌++◌, ◌≡◌, refl, arith, Error, text, ok, CommandRunner,
}
use garden_docker.Base.Flags.{plain, shape}
use garden_docker.Run.{DoshCmd, dosh_command}
use garden_docker.Dosh
use garden_docker.Dosh.{Daemon}
use garden_docker.Dosh.Arguments.{main-dosh_command, behind_name}
use garden_docker.DockerCli.{RunCmd, InspectCmd, inspect, run_command}
use garden_docker.DockerCli.RoundTrip.{HaveNoColon, IsImage, read_run, read_run-run_command}
use garden_docker.DockerCli.Output.{newlines, EndsTrimmed, answer_of, to_inspect, run-inspect}

abbrev busybox : RunCmd
busybox = record {
  volumes = record { host_path = txt "/depot/1/run"; container_path = txt "/run" } ∷ [];
  image = txt "busybox";
  program = txt "/garden-bin/initd";
  program_args = txt "-socketPath" ∷ txt "/run/initd.sock" ∷ [];
  detach = true;
}

abbrev address : InspectCmd
address = record { container_id = txt "abc"; field = txt "NetworkSettings.IPAddress" }

busybox-HaveNoColon : HaveNoColon busybox.volumes
unfolding txt
busybox-HaveNoColon = ground arith

busybox-IsImage : IsImage busybox.image
unfolding txt str_dec
busybox-IsImage = record { not_detach = refl; not_volume = refl }

read_run-run_command_example : read_run (run_command busybox) ≡ some busybox
read_run-run_command_example = read_run-run_command busybox busybox-HaveNoColon busybox-IsImage

abbrev exit_status : Error
exit_status = text (txt "exit status 1")

abbrev broken : CommandRunner ℕ
broken = record {
  run = λ cmd n. (
    record { err = some exit_status; stdout = []; stderr = txt "no such image" ++ newlines 2 },
    n,
  );
}

no_such_image-EndsTrimmed : EndsTrimmed (txt "no such image")
unfolding txt
no_such_image-EndsTrimmed = refl

run-inspect_example :
    inspect broken address 0
    ≡ (answer_of (txt "inspect: ") (some exit_status) [] (txt "no such image"), 0)
run-inspect_example =
    run-inspect broken 0 0 (to_inspect address) (some exit_status) [] (txt "no such image") 0 2 tt
      no_such_image-EndsTrimmed refl

abbrev dosh : DoshCmd
dosh = record { path = txt "/depot/1/bin/dosh"; initd_sock = txt "/depot/1/run/initd.sock" }

-- A daemon that starts process 1, and every process ends with status 7.
abbrev sevens : Daemon ℕ
sevens = record { new_process = λ socket spec n. (ok 1, n); wait = λ process n. (ok 7, n) }

ls-plain : shape (txt "ls") ≡ plain
unfolding shape txt
ls-plain = refl

main-dosh_command_example :
    Dosh.main sevens (behind_name (dosh_command dosh (txt "ls") (txt "-l" ∷ []))) 0
    ≡ (ok (record { status = 7; stderr = [] }), 0)
main-dosh_command_example = main-dosh_command sevens dosh (txt "ls") (txt "-l" ∷ []) 0 ls-plain
