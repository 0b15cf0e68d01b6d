-- ===== src/Fakes/ContainerCmder.antt =====
-- fakes/fake_container_cmder.go
use garden_docker.Base.{ℕ, Str, Option, none, List, Outcome, Go, ExecCmd}
use garden_docker.Fakes.{Fake, call, call_count, args_of_call, always, new_fake}

-- The command is a pointer, which may be nil.
abbrev pub FakeContainerCmder : Type 0 → Type 0
FakeContainerCmder W = Fake W (Str × List Str) (Option ExecCmd)

module _ {W : Type 0} where
  abbrev pub new_fake_container_cmder : FakeContainerCmder W
  unfolding new_fake
  new_fake_container_cmder = new_fake none

  unfoldable pub cmd : Str → List Str → Go (FakeContainerCmder W × W) (Option ExecCmd)
  unfolding call
  cmd path args = call (path, args)

  unfoldable pub cmd_call_count : FakeContainerCmder W → ℕ
  unfolding call_count
  cmd_call_count fake = call_count fake

  unfoldable pub cmd_args_for_call : FakeContainerCmder W → ℕ → Outcome (Str × List Str)
  unfolding args_of_call
  cmd_args_for_call fake i = args_of_call fake i

  unfoldable pub cmd_returns : Option ExecCmd → FakeContainerCmder W → FakeContainerCmder W
  unfolding always
  cmd_returns result1 fake = always result1 fake
