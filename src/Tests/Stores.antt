-- ===== src/Tests/Stores.antt =====
-- Properties, the repository of containers and the depot.
use garden_docker.Base.{
  ℕ, Str, txt, str_dec, Bool, true, some, List, [], ◌∷◌, ◌>>=◌, ◌≡◌, ◌↔◌, refl, ok, fail, ◌==◌,
  ==_iff, arith,
}
use garden_docker.Base.FilePath.{join}
use garden_docker.Base.GoMap
use garden_docker.Base.GoMap.{GoMap, In, backwards}
use garden_docker.Props.{PropsHandler, has_properties}
use garden_docker.Props.Laws.{Holds, has_properties_iff}
use garden_docker.Repo.{Repo, new_repo, find_by_handle, query, add}
use garden_docker.Repo.Laws.{IsWellFormed, IsWellFormed-operations}
use garden_docker.Repo.Bag.{to_bag, query-same_bag}
use garden_docker.Depot
use garden_docker.Depot.{DepotHost, ContainerDepot}
use garden_docker.Depot.Prefixes.{BeginsRun, create-BeginsRun}
use garden_docker.Base.{text, Str, Error, fail, message}
use garden_docker.Depot.Errors.{Fails, create-Fails}
use garden_docker.Depot.Steps.{recording, Completed, create_completes}

abbrev owner : GoMap Str
owner = (txt "owner", txt "alice") ∷ []

abbrev alices : PropsHandler
alices = record { props = some owner }

has_properties_iff_example :
    (has_properties backwards alices (some owner) ≡ true)
    ↔ ((e : Str × Str) → In e owner → Holds alices e)
has_properties_iff_example = has_properties_iff backwards alices (some owner)

-- Containers that are pairs of a handle and a number.
abbrev Numbered : Type 0
Numbered = Str × ℕ

abbrev name : Numbered → Str
name c = c.0

abbrev one : Numbered
one = (txt "one", 1)

abbrev two : Numbered
two = (txt "two", 2)

empty-IsWellFormed : IsWellFormed name new_repo
unfolding new_repo GoMap.get
empty-IsWellFormed = record { nodup = tt; own_handle = λ h c p. cc }

with_one-IsWellFormed : IsWellFormed name (add name new_repo one)
with_one-IsWellFormed = (IsWellFormed-operations name new_repo one empty-IsWellFormed).1

with_both-IsWellFormed : IsWellFormed name (add name (add name new_repo one) two)
with_both-IsWellFormed =
    (IsWellFormed-operations name (add name new_repo one) two with_one-IsWellFormed).1

abbrev is_one : Numbered → Bool
is_one c = c.0 == txt "one"

abbrev one_two : Repo Numbered
one_two = add name (add name new_repo one) two

abbrev two_one : Repo Numbered
two_one = add name (add name new_repo two) one

two_one-IsWellFormed : IsWellFormed name two_one
two_one-IsWellFormed =
    (IsWellFormed-operations name (add name new_repo two) one
      (IsWellFormed-operations name new_repo two empty-IsWellFormed).1).1

added_alike : (h : Str) → find_by_handle one_two h ≡ find_by_handle two_one h
unfolding find_by_handle new_repo add GoMap.get GoMap.put txt str_dec
added_alike h = ground (arith, ==_iff (txt "one") h, ==_iff (txt "two") h)

query-same_bag_example :
    (ms ns : List Numbered) × (query backwards one_two (λ c. ok (is_one c)) ≡ ok ms)
    × (query backwards two_one (λ c. ok (is_one c)) ≡ ok ns)
    × (to_bag ms ≡ to_bag ns)
query-same_bag_example =
    query-same_bag name (λ c. ok (is_one c)) is_one backwards backwards one_two two_one (λ c. refl)
      with_both-IsWellFormed two_one-IsWellFormed added_alike

-- A host on which every call works and the world never changes.
abbrev works : DepotHost (Unit {0})
works = record {
  new_v4 = λ w. (ok (txt "id1"), w);
  mkdir_all = λ path mode w. (ok tt, w);
  build = λ package_path w. (ok (txt "/tmp/built"), w);
  run = λ cmd w. (ok tt, w);
}

abbrev depot : ContainerDepot
depot = record { dir = txt "/depot" }

created_id1 : (Depot.create (recording works) depot (tt, [])).0 ≡ ok (txt "/depot/id1")
unfolding Depot.create txt str_dec ◌>>=◌ join
created_id1 = refl

create_completes_example :
    Completed works depot tt (txt "/depot/id1") (Depot.create (recording works) depot (tt, [])).1.1
create_completes_example = create_completes works depot tt (txt "/depot/id1") created_id1

-- A host on which no program can be built.
abbrev cannot_build : DepotHost (Unit {0})
cannot_build = record works { build = λ package_path w. (fail (text (txt "exit status 2")), w) }

create-BeginsRun_example :
    BeginsRun depot (Depot.create (recording cannot_build) depot (tt, [])).1.1
create-BeginsRun_example = create-BeginsRun cannot_build depot tt

abbrev not_built : Error
not_built = text (txt "build iodaemon: exit status 2")

create_not_built : (Depot.create cannot_build depot tt).0 ≡ fail not_built
unfolding Depot.create txt str_dec ◌>>=◌ join message
create_not_built = refl

create-Fails_example : (id : Str) × Fails cannot_build depot (join (depot.dir ∷ id ∷ [])) not_built
create-Fails_example = create-Fails cannot_build depot tt not_built create_not_built
