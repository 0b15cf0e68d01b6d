-- ===== src/Fakes/Creator.antt =====
-- fakes/fake_creator.go
use garden_docker.Base.{ℕ, Option, none, Error, Outcome, Go}
use garden_docker.Garden.{ContainerSpec}
use garden_docker.Container.{Container}
use garden_docker.Fakes.{Fake, Results, call, call_count, args_of_call, always, new_fake}

-- The container is a pointer, which may be nil.
abbrev pub FakeCreator : Type 0 → Type 0
FakeCreator W = Fake W ContainerSpec (Results (Option (Container W)))

module _ {W : Type 0} where
  abbrev pub new_fake_creator : FakeCreator W
  unfolding new_fake
  new_fake_creator = new_fake (none, none)

  unfoldable pub create : ContainerSpec → Go (FakeCreator W × W) (Results (Option (Container W)))
  unfolding call
  create spec = call spec

  unfoldable pub create_call_count : FakeCreator W → ℕ
  unfolding call_count
  create_call_count fake = call_count fake

  unfoldable pub create_args_for_call : FakeCreator W → ℕ → Outcome ContainerSpec
  unfolding args_of_call
  create_args_for_call fake i = args_of_call fake i

  unfoldable pub create_returns :
      Option (Container W) → Option Error → FakeCreator W → FakeCreator W
  unfolding always
  create_returns result1 result2 fake = always (result1, result2) fake
