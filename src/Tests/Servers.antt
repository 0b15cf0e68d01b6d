-- ===== src/Tests/Servers.antt =====
-- A server that has created a container.
use garden_docker.Base.{
  ℕ, Str, txt, str_dec, none, some, List, [], ◌∷◌, ◌≡◌, ◌↔◌, refl, ◌>>=◌, ok, panic,
}
use garden_docker.Base.GoMap
use garden_docker.Base.GoMap.{GoMap, In, backwards}
use garden_docker.Garden.{ContainerInfoEntry, ContainerMetricsEntry}
use garden_docker.Props.{set_property, nil_map_write}
use garden_docker.Container.{Container, handle, on_handler, allocate}
use garden_docker.Repo.{new_repo, find_by_handle, add}
use garden_docker.Create
use garden_docker.Repo.{Repo}
use garden_docker.Repo.Laws.{IsWellFormed}
use garden_docker.Repo.Interface.{as_repo, as_repo-RepoLaws}
use garden_docker.Backend.Contract.{RepoLaws}
use garden_docker.Backend.{
  RepoInterface, Backend, Server, create, lookup, containers, on_machine, bulk_info, bulk_metrics,
  destroy,
}
use garden_docker.Backend.Heap.{handler_of}
use garden_docker.Backend.Reach.{backend, Reach, IsSound, here, created, destroyed}
use garden_docker.Backend.Reach.Owners.{handlers_apart}
use garden_docker.Backend.Reach.Staying.{Later, now, after, Finds, Later-Finds}
use garden_docker.Backend.Reach.Sound.{Reach-IsSound}
use garden_docker.Backend.Reach.Properties.{containers_wanted_none, set_property_panics}
use garden_docker.Backend.Containers.{found_after, lookup-create, containers_exact}
use garden_docker.Backend.Bulk.{info_entry_of, metrics_entry, bulk_exact}
use garden_docker.Backend.Bulk.Asked.{Gives}
use garden_docker.Tests.Creation.{creator, named, fresh}

-- The repository of repo.go, visited from its latest entry on.
abbrev pub repo : RepoInterface (Repo (Container ℕ)) (Container ℕ)
repo = as_repo handle backwards

pub laws : RepoLaws handle repo (IsWellFormed handle) new_repo
laws = as_repo-RepoLaws handle backwards

abbrev pub docker_backend : Backend ℕ (Repo (Container ℕ))
docker_backend = backend repo creator

abbrev empty_server : Server ℕ (Repo (Container ℕ))
empty_server = record { machine = fresh; repo = new_repo }

abbrev pub server : Server ℕ (Repo (Container ℕ))
server = (create docker_backend (named (txt "one")) empty_server).1

pub reached : Reach repo new_repo creator server
reached = ([], created repo new_repo creator empty_server [] (named (txt "one")) (here 0))

abbrev container : Container ℕ
container =
    Create.container creator (Create.with_rootfs creator (named (txt "one"))) (txt "/depot/1")
      (txt "abc") (txt "172.17.0.2") 0

looked_up : (lookup docker_backend (txt "one") server).0 ≡ ok container
unfolding lookup find_by_handle GoMap.get create Create.create ◌>>=◌ txt Create.start allocate add
    GoMap.put new_repo str_dec Create.container Create.with_rootfs
looked_up = refl

lookup-create_example :
    (lookup docker_backend (txt "two") (create docker_backend (named (txt "two")) server).1).0
    ≡ found_after
        (create docker_backend (named (txt "two")) server).0
        (txt "two")
        (txt "two")
        (lookup docker_backend (txt "two") server).0
lookup-create_example =
    lookup-create repo (IsWellFormed handle) new_repo laws creator (named (txt "two")) server
      (txt "two")

containers_exact_example :
    (ms : List (Container ℕ)) × (containers backwards docker_backend none server ≡ (ok ms, server))
    × ((c : Container ℕ) → In c ms ↔ ((lookup docker_backend (handle c) server).0 ≡ ok c))
containers_exact_example =
    containers_exact repo (IsWellFormed handle) new_repo laws creator server reached backwards

Reach-IsSound_example : IsSound repo (IsWellFormed handle) server
Reach-IsSound_example =
    Reach-IsSound repo (IsWellFormed handle) new_repo laws creator server reached

containers_wanted_none_example :
    containers backwards docker_backend (some ((txt "owner", txt "alice") ∷ [])) server
    ≡ (ok [], server)
containers_wanted_none_example =
    containers_wanted_none repo (IsWellFormed handle) new_repo laws creator server reached backwards
      (txt "owner", txt "alice") []

set_property_panics_example :
    on_machine (on_handler (handler_of container) (set_property (txt "owner") (txt "alice"))) server
    ≡ (panic nil_map_write, server)
set_property_panics_example =
    set_property_panics repo (IsWellFormed handle) new_repo laws creator server reached (txt "one")
      (txt "owner") (txt "alice") container looked_up

bulk_exact_example :
    (infos : GoMap ContainerInfoEntry) × (entries : GoMap ContainerMetricsEntry) × (bulk_info
        docker_backend
        (txt "one" ∷ [])
        server
      ≡ (ok infos, server))
    × (bulk_metrics docker_backend (txt "one" ∷ []) server ≡ (ok entries, server))
    × ((h : Str)
        → ((e : ContainerInfoEntry)
            → (GoMap.get h infos ≡ some e)
              ↔ Gives info_entry_of (txt "one" ∷ []) h (lookup docker_backend h server).0 e)
          × ((e : ContainerMetricsEntry)
              → (GoMap.get h entries ≡ some e)
                ↔ Gives metrics_entry (txt "one" ∷ []) h (lookup docker_backend h server).0 e))
bulk_exact_example =
    bulk_exact repo (IsWellFormed handle) new_repo laws creator server reached (txt "one" ∷ [])

handlers_apart_example : (txt "one" ≡ txt "one") × (container ≡ container)
handlers_apart_example =
    handlers_apart repo (IsWellFormed handle) new_repo laws creator server (txt "one") (txt "one")
      container container reached looked_up looked_up refl

as_repo-RepoLaws_example :
    RepoLaws
      (λ (c : Container ℕ). handle c)
      (as_repo (λ (c : Container ℕ). handle c) backwards)
      (IsWellFormed (λ (c : Container ℕ). handle c))
      new_repo
as_repo-RepoLaws_example = as_repo-RepoLaws (λ (c : Container ℕ). handle c) backwards

destroys_one : Later repo new_repo creator server [] server []
unfolding destroy
destroys_one = after now (destroyed (txt "one") refl refl)

Later-Finds_example : Finds repo new_repo creator (txt "one") server
Later-Finds_example =
    Later-Finds repo (IsWellFormed handle) new_repo laws creator (txt "one") server [] server []
      destroys_one (container, looked_up)
