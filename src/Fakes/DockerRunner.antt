-- ===== src/Fakes/DockerRunner.antt =====
-- fakes/fake_docker_runner.go
use garden_docker.Base.{ℕ, Str, Option, none, [], Error, Outcome, Go}
use garden_docker.DockerCli.{RunCmd, InspectCmd}
use garden_docker.Fakes.{Fake, Results, call, call_count, args_of_call, always, new_fake}

-- The two methods of the double.
pub record FakeDockerRunner (W : Type 0) : Type 0 where
  pub run_fake : Fake W RunCmd (Results Str)
  pub inspect_fake : Fake W InspectCmd (Results Str)

module _ {W : Type 0} where
  abbrev pub new_fake_docker_runner : FakeDockerRunner W
  unfolding new_fake
  new_fake_docker_runner = record {
    run_fake = new_fake ([], none);
    inspect_fake = new_fake ([], none);
  }

  unfoldable pub run : RunCmd → Go (FakeDockerRunner W × W) (Results Str)
  unfolding call
  run arg1 (fake, w) =
      let (o, (f, v)) = call arg1 (fake.run_fake, w) in (o, (record fake { run_fake = f }, v))

  unfoldable pub run_call_count : FakeDockerRunner W → ℕ
  unfolding call_count
  run_call_count fake = call_count fake.run_fake

  unfoldable pub run_args_for_call : FakeDockerRunner W → ℕ → Outcome RunCmd
  unfolding args_of_call
  run_args_for_call fake i = args_of_call fake.run_fake i

  unfoldable pub run_returns : Str → Option Error → FakeDockerRunner W → FakeDockerRunner W
  unfolding always
  run_returns result1 result2 fake = record fake {
    run_fake = always (result1, result2) fake.run_fake;
  }

  unfoldable pub inspect : InspectCmd → Go (FakeDockerRunner W × W) (Results Str)
  unfolding call
  inspect arg1 (fake, w) =
      let (o, (f, v)) = call arg1 (fake.inspect_fake, w) in
      (o, (record fake { inspect_fake = f }, v))

  unfoldable pub inspect_call_count : FakeDockerRunner W → ℕ
  unfolding call_count
  inspect_call_count fake = call_count fake.inspect_fake

  unfoldable pub inspect_args_for_call : FakeDockerRunner W → ℕ → Outcome InspectCmd
  unfolding args_of_call
  inspect_args_for_call fake i = args_of_call fake.inspect_fake i

  unfoldable pub inspect_returns : Str → Option Error → FakeDockerRunner W → FakeDockerRunner W
  unfolding always
  inspect_returns result1 result2 fake = record fake {
    inspect_fake = always (result1, result2) fake.inspect_fake;
  }
