-- ===== src/Repo.antt =====
-- repo.go: the containers by their handles. `C` is the type of container pointers and `handle` is
-- `Handle()`. Every method runs under the lock, and is one step.
pub mod Laws
pub mod Queries
pub mod Bag
pub mod Abstract
pub mod Interface
pub mod Locking
pub mod Concurrent
use garden_docker.Base.{
  Str, Bool, true, Option, none, some, List, [], ◌∷◌, Error, container_not_found, Outcome, ok, fail,
  panic, if◌then◌else◌,
}
use garden_docker.Base.GoMap
use garden_docker.Base.GoMap.{GoMap, RangeOrder}

pub record Repo (C : Type 0) : Type 0 where
  pub store : GoMap C

unfoldable pub new_repo : {C : Type 0} → Repo C
new_repo = record { store = [] }

module _ {C : Type 0} where
  abbrev found_or_not : Str → Option C → Outcome C
  found_or_not h none = fail (container_not_found h)
  found_or_not h (some c) = ok c

  unfoldable pub find_by_handle : Repo C → Str → Outcome C
  find_by_handle r h = found_or_not h (GoMap.get h r.store)

  abbrev keep_if : C → Bool → List C → List C
  keep_if c b matches = if b then c ∷ matches else matches

  abbrev with_matches : C → Bool → Outcome (List C) → Outcome (List C)
  with_matches c b (ok matches) = ok (keep_if c b matches)
  with_matches c b (fail e) = fail e
  with_matches c b (panic m) = panic m

  abbrev next : C → Outcome Bool → Outcome (List C) → Outcome (List C)
  next c (ok b) rest = with_matches c b rest
  next c (fail e) rest = fail e
  next c (panic m) rest = panic m

  -- The loop of `Query`, over the entries still to visit. The filter may panic.
  unfoldable pub matching : (C → Outcome Bool) → GoMap C → Outcome (List C)
  matching filter [] = ok []
  matching filter ((_, c) ∷ rest) = next c (filter c) (matching filter rest)

  unfoldable pub query : RangeOrder C → Repo C → (C → Outcome Bool) → Outcome (List C)
  unfolding matching
  query o r filter = matching filter (o.order r.store)

  unfoldable pub all : RangeOrder C → Repo C → Outcome (List C)
  unfolding query
  all o r = query o r (λ c. ok true)

module _ {C : Type 0} (handle : C → Str) where
  unfoldable pub add : Repo C → C → Repo C
  add r c = record r { store = GoMap.put (handle c) c r.store }

  unfoldable pub delete : Repo C → C → Repo C
  delete r c = record r { store = GoMap.delete (handle c) r.store }
