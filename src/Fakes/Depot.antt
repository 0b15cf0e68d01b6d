-- ===== src/Fakes/Depot.antt =====
-- fakes/fake_depot.go
use garden_docker.Base.{ℕ, Str, none, [], Error, Option, Go}
use garden_docker.Fakes.{Fake, Results, call, call_count, always, new_fake}

abbrev pub FakeDepot : Type 0 → Type 0
FakeDepot W = Fake W (Unit {0}) (Results Str)

module _ {W : Type 0} where
  abbrev pub new_fake_depot : FakeDepot W
  unfolding new_fake
  new_fake_depot = new_fake ([], none)

  unfoldable pub create : Go (FakeDepot W × W) (Results Str)
  unfolding call
  create = call tt

  unfoldable pub create_call_count : FakeDepot W → ℕ
  unfolding call_count
  create_call_count fake = call_count fake

  unfoldable pub create_returns : Str → Option Error → FakeDepot W → FakeDepot W
  unfolding always
  create_returns result1 result2 fake = always (result1, result2) fake
