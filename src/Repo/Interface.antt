-- ===== src/Repo/Interface.antt =====
-- The repository of repo.go as the `Repo` that the backend asks for.
use garden_docker.Base.{
  Str, Bool, true, Option, none, some, ◌≡◌, refl, arith, Outcome, ok, fail, container_not_found,
}
use garden_docker.Base.GoMap
use garden_docker.Base.GoMap.{GoMap, RangeOrder}
use garden_docker.Repo.{Repo, new_repo, found_or_not, find_by_handle, query, all, add, delete}
use garden_docker.Repo.Laws.{IsWellFormed, IsWellFormed-operations, find-new-add-delete}
use garden_docker.Repo.Abstract.{Scanned}
use garden_docker.Repo.Abstract.Histories.{Represents, matching-Scanned}
use garden_docker.Backend.{RepoInterface}
use garden_docker.Backend.Contract.{to_option, held_by, RepoLaws}

module _ {C : Type 0} (handle : C → Str) where
  -- `*repo` as a `Repo`, for the order in which the runtime visits the store.
  abbrev pub as_repo : RangeOrder C → RepoInterface (Repo C) C
  as_repo o = record {
    all = all o;
    add = add handle;
    find_by_handle = find_by_handle;
    query = query o;
    delete = delete handle;
  }

  get-found : (o : Option C) (h : Str) → o ≡ to_option (found_or_not h o)
  get-found none h = refl
  get-found (some c) h = refl

  as_repo-Represents :
      (o : RangeOrder C) (r : Repo C)
      → IsWellFormed handle r
      → Represents handle r.store (held_by (as_repo o) r)
  unfolding find_by_handle
  as_repo-Represents o r w = record {
    well_formed = w;
    holds = λ h. get-found (GoMap.get h r.store) h;
  }

  query-Scanned :
      (o : RangeOrder C) (r : Repo C) (filter : C → Outcome Bool)
      → IsWellFormed handle r
      → Scanned handle filter (held_by (as_repo o) r) (query o r filter)
  unfolding query
  query-Scanned o r filter w =
      matching-Scanned handle filter r.store (o.order r.store) (held_by (as_repo o) r)
        (as_repo-Represents o r w) (o.visits_all r.store)

  own_found :
      (r : Repo C) (h : Str) (c : C)
      → IsWellFormed handle r
      → find_by_handle r h ≡ ok c
      → h ≡ handle c
  unfolding find_by_handle
  own_found r h c w e = w.own_handle h c (ground arith)

  empty-IsWellFormed : IsWellFormed handle new_repo
  unfolding new_repo GoMap.get
  empty-IsWellFormed = record { nodup = tt; own_handle = λ h c p. cc }

  find-new_repo : (h : Str) → find_by_handle {C = C} new_repo h ≡ fail (container_not_found h)
  unfolding new_repo find_by_handle GoMap.get
  find-new_repo h = refl

  all-Scanned :
      (o : RangeOrder C) (r : Repo C)
      → IsWellFormed handle r
      → Scanned handle (λ c. ok true) (held_by (as_repo o) r) (all o r)
  unfolding all
  all-Scanned o r w = query-Scanned o r (λ c. ok true) w

  -- The repository of repo.go keeps the laws of the interface that the backend asks for, in
  -- whatever order the runtime visits its store, for the well-formed stores and from the new one on.
  pub as_repo-RepoLaws :
      (o : RangeOrder C) → RepoLaws handle (as_repo o) (IsWellFormed handle) new_repo
  as_repo-RepoLaws o = record {
    empty-IsValid = empty-IsWellFormed;
    add-IsValid = λ r c w. (IsWellFormed-operations handle r c w).1;
    delete-IsValid = λ r c w. (IsWellFormed-operations handle r c w).2;
    find-empty = λ h. find-new_repo h;
    find-add = λ r c h. (find-new-add-delete handle r c h).1;
    find-delete = λ r c h. (find-new-add-delete handle r c h).2;
    own_handle = own_found;
    queries = λ r filter w. query-Scanned o r filter w;
    lists_all = λ r w. all-Scanned o r w;
  }
