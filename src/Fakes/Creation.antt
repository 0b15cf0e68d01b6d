-- ===== src/Fakes/Creation.antt =====
-- create.go's Create on the doubles of the depot and of docker, as create_test.go runs it.
use garden_docker.Base.{
  Str, Option, none, some, List, [], ◌∷◌, ◌++◌, ◌≡◌, refl, sym, ◌∙◌, Outcome, ok, fail, panic, Go,
  ◌>>=◌,
}
use garden_docker.Garden.{ContainerSpec}
use garden_docker.DockerCli.{RunCmd, InspectCmd}
use mathlib.Core.List.{append-nil}
use garden_docker.Props.{PropsHandler}
use garden_docker.Base.{txt, wrapping, prefixed}
use garden_docker.Container.{Container, Machine, lifted, allocate}
use garden_docker.Create
use garden_docker.Create.{
  DaemonContainerCreator, with_rootfs, run_cmd, inspect_cmd, behind_first, start,
}
use garden_docker.Fakes.{Results, answer, and_answer, call, always}
use garden_docker.Fakes.Depot
use garden_docker.Fakes.Depot.{FakeDepot}
use garden_docker.Fakes.DockerRunner
use garden_docker.Fakes.DockerRunner.{FakeDockerRunner}

-- The doubles, and a world for their stubs.
pub record Doubles (W : Type 0) : Type 0 where
  pub depot : FakeDepot W
  pub docker_runner : FakeDockerRunner W
  pub outside : W

-- The image, by the path of the URL.
abbrev pub image_of : Outcome Str → Option Str
image_of (ok []) = none
image_of (ok (first ∷ image)) = some image
image_of (fail e) = none
image_of (panic m) = none

module _ {W : Type 0} where
  -- A call of a double through the interface.
  abbrev pub depot_create : Go (Doubles W) Str
  depot_create d =
      let (o, (f, w)) = Depot.create (d.depot, d.outside) in
      (and_answer answer o, record d { depot = f; outside = w })

  abbrev pub docker_run : RunCmd → Go (Doubles W) Str
  docker_run cmd d =
      let (o, (f, w)) = DockerRunner.run cmd (d.docker_runner, d.outside) in
      (and_answer answer o, record d { docker_runner = f; outside = w })

  abbrev pub docker_inspect : InspectCmd → Go (Doubles W) Str
  docker_inspect cmd d =
      let (o, (f, w)) = DockerRunner.inspect cmd (d.docker_runner, d.outside) in
      (and_answer answer o, record d { docker_runner = f; outside = w })

  -- The creator with the doubles for its depot and its docker.
  abbrev pub on_doubles : DaemonContainerCreator (Doubles W) → DaemonContainerCreator (Doubles W)
  on_doubles c = record c {
    depot = record { create = depot_create };
    docker_runner = record { run = docker_run; inspect = docker_inspect };
  }

  -- The doubles with their results fixed.
  abbrev pub fixed : Results Str → Results Str → Results Str → Doubles W → Doubles W
  fixed dir id ip d = record d {
    depot = Depot.create_returns dir.0 dir.1 d.depot;
    docker_runner =
        DockerRunner.inspect_returns ip.0 ip.1 (DockerRunner.run_returns id.0 id.1 d.docker_runner);
  }

  module _ (c : DaemonContainerCreator (Doubles W)) where
    -- The calls of `docker run` that Create is to make, from the depot's answer and the path.
    abbrev pub expected_runs : Results Str → Option Str → List RunCmd
    expected_runs (dir, some e) image = []
    expected_runs (dir, none) none = []
    expected_runs (dir, none) (some image) = run_cmd c dir image ∷ []

    -- The calls of `docker inspect`, from those of `docker run` and its answer.
    abbrev pub expected_inspects : List RunCmd → Results Str → List InspectCmd
    expected_inspects [] id = []
    expected_inspects (cmd ∷ cmds) (id, some e) = []
    expected_inspects (cmd ∷ cmds) (id, none) = inspect_cmd c id ∷ []

    -- What the doubles have noted after Create, against what they had noted before.
    pub record Notes (before after : Doubles W) (runs : List RunCmd) (inspects : List InspectCmd)
        : Type 0 where
      pub depot_called : after.depot.args_for_call ≡ before.depot.args_for_call ++ (tt ∷ [])
      pub docker_ran :
          after.docker_runner.run_fake.args_for_call
          ≡ before.docker_runner.run_fake.args_for_call ++ runs
      pub docker_inspected :
          after.docker_runner.inspect_fake.args_for_call
          ≡ before.docker_runner.inspect_fake.args_for_call ++ inspects

    module _ (given : ContainerSpec) (heap : List PropsHandler) (d : Doubles W) where
      abbrev pub url : Outcome Str
      url = c.url_path (with_rootfs (on_doubles c) given).root_fs_path

      abbrev pub created : Results Str → Results Str → Results Str → Doubles W
      created dir id ip =
          (Create.create (on_doubles c) given
            (record { heap = heap; outside = fixed dir id ip d })).1.outside

      abbrev machine : Results Str → Results Str → Results Str → Machine (Doubles W)
      machine dir id ip = record { heap = heap; outside = fixed dir id ip d }

      -- Create behind the depot's answer, by what the URL parser returns.
      abbrev behind_depot : Outcome Str → Str → Go (Machine (Doubles W)) (Container (Doubles W))
      behind_depot o dir =
          wrapping (prefixed (txt "create: not a valid rootfs path: "))
            (Create.outcome (on_doubles c) o)
          >>= λ path. Create.outcome (on_doubles c) (behind_first path) >>= λ image.
              start (on_doubles c) (with_rootfs (on_doubles c) given) dir image

      abbrev after_depot : Outcome Str → Str → Results Str → Results Str → Doubles W
      after_depot o dir id ip =
          (behind_depot o dir
            (lifted (on_doubles c).depot.create (machine (dir, none) id ip)).1).1.outside

      abbrev pub ExpectedNotes : Doubles W → Results Str → Option Str → Results Str → Type 0
      ExpectedNotes after dir image id =
          Notes d after (expected_runs dir image) (expected_inspects (expected_runs dir image) id)

      no_docker :
          (after : Doubles W)
          → after.depot.args_for_call ≡ d.depot.args_for_call ++ (tt ∷ [])
          → after.docker_runner.run_fake.args_for_call ≡ d.docker_runner.run_fake.args_for_call
          → after.docker_runner.inspect_fake.args_for_call
            ≡ d.docker_runner.inspect_fake.args_for_call
          → Notes d after [] []
      no_docker after p q r = record {
        depot_called = p;
        docker_ran = q ∙ sym (append-nil d.docker_runner.run_fake.args_for_call);
        docker_inspected = r ∙ sym (append-nil d.docker_runner.inspect_fake.args_for_call);
      }

      notes_by_url :
          (o : Outcome Str) (dir : Str) (id ip : Results Str)
          → ExpectedNotes (after_depot o dir id ip) (dir, none) (image_of o) id
      unfolding start ◌>>=◌ call always allocate Depot.create DockerRunner.run DockerRunner.inspect
          Depot.create_returns DockerRunner.run_returns DockerRunner.inspect_returns run_cmd
          inspect_cmd
      notes_by_url (ok []) dir id ip = no_docker _ refl refl refl
      notes_by_url (ok (first ∷ image)) dir (id, none) (ip, none) = record {
        depot_called = refl;
        docker_ran = refl;
        docker_inspected = refl;
      }
      notes_by_url (ok (first ∷ image)) dir (id, none) (ip, some x) = record {
        depot_called = refl;
        docker_ran = refl;
        docker_inspected = refl;
      }
      notes_by_url (ok (first ∷ image)) dir (id, some x) ip = record {
        depot_called = refl;
        docker_ran = refl;
        docker_inspected = sym (append-nil d.docker_runner.inspect_fake.args_for_call);
      }
      notes_by_url (fail x) dir id ip = no_docker _ refl refl refl
      notes_by_url (panic x) dir id ip = no_docker _ refl refl refl

      -- With doubles whose results are fixed, and whatever they had noted before: Create calls the
      -- depot once; it calls docker run once, with the one command for the directory and the
      -- image, if the depot's result is no error and the root file system has a path, and else
      -- not at all; and it calls docker inspect once, with the identifier, if docker run was called
      -- and its result is no error, and else not at all.
      pub create-Notes :
          (dir id ip : Results Str) → ExpectedNotes (created dir id ip) dir (image_of url) id
      unfolding Create.create start ◌>>=◌ call always allocate Depot.create DockerRunner.run
          DockerRunner.inspect Depot.create_returns DockerRunner.run_returns
          DockerRunner.inspect_returns run_cmd inspect_cmd
      create-Notes (dir, none) id ip = notes_by_url url dir id ip
      create-Notes (dir, some e) id ip = no_docker _ refl refl refl
