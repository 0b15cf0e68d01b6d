-- ===== src/Repo/Laws.antt =====
-- The repository of repo.go as a finite map from handles to containers.
use garden_docker.Base.{
  Str, Bool, true, some, List, [], ◌∷◌, ◌≡◌, refl, arith, container_not_found, Outcome, ok, fail,
  ◌==◌, if◌then◌else◌,
}
use mathlib.Core.List
use mathlib.Core.List.{Permᴰ}
use mathlib.Core.List.Permᴰ
use mathlib.Core.Bool.{Bool-discrete}
use garden_docker.Base.GoMap
use garden_docker.Base.GoMap.{
  GoMap, RangeOrder, In, In-order, HasNodupKeys, get-put, get-delete, put-HasNodupKeys,
  delete-HasNodupKeys, In-of_get, get_of_In,
}
use garden_docker.Repo.{Repo, new_repo, find_by_handle, matching, query, add, delete}

module _ {C : Type 0} (handle : C → Str) where
  -- No handle stands twice, and every container stands under its own handle.
  pub record IsWellFormed (r : Repo C) : Type 0 where
    pub nodup : HasNodupKeys r.store
    pub own_handle : (h : Str) (c : C) → GoMap.get h r.store ≡ some c → h ≡ handle c

  IsWellFormed-new_repo : IsWellFormed new_repo
  unfolding new_repo GoMap.get
  IsWellFormed-new_repo = record { nodup = tt; own_handle = λ h c p. cc }

  add-IsWellFormed : (r : Repo C) (c : C) → IsWellFormed r → IsWellFormed (add handle r c)
  unfolding add
  add-IsWellFormed r c w = record {
    nodup = put-HasNodupKeys (handle c) c r.store w.nodup;
    own_handle = λ h d p. ground (arith, get-put (handle c) h c r.store, w.own_handle h d);
  }

  delete-IsWellFormed : (r : Repo C) (c : C) → IsWellFormed r → IsWellFormed (delete handle r c)
  unfolding delete
  delete-IsWellFormed r c w = record {
    nodup = delete-HasNodupKeys (handle c) r.store w.nodup;
    own_handle = λ h d p. ground (arith, get-delete (handle c) h r.store, w.own_handle h d);
  }

  -- In the empty repository every container stands under its own handle and no handle stands
  -- twice, and Add and Delete keep it so.
  pub IsWellFormed-operations :
      (r : Repo C) (c : C)
      → IsWellFormed r
      → IsWellFormed new_repo × IsWellFormed (add handle r c) × IsWellFormed (delete handle r c)
  IsWellFormed-operations r c w =
      (IsWellFormed-new_repo, add-IsWellFormed r c w, delete-IsWellFormed r c w)

  -- FindByHandle after each operation: of the empty repository it fails with the handle that was
  -- asked for; after Add it finds the added container under its handle, and after Delete nothing
  -- there; under every other handle it answers as before.
  pub find-new-add-delete :
      (r : Repo C) (c : C) (h : Str)
      → (find_by_handle {C = C} new_repo h ≡ fail (container_not_found h))
        × (find_by_handle (add handle r c) h ≡ (if handle c == h then ok c else find_by_handle r h))
        × (find_by_handle (delete handle r c) h
            ≡ (if handle c == h then fail (container_not_found h) else find_by_handle r h))
  unfolding find_by_handle new_repo add delete GoMap.get
  find-new-add-delete r c h = (
    refl,
    ground (arith, get-put (handle c) h c r.store),
    ground (arith, get-delete (handle c) h r.store),
  )

-- The containers of the entries that pass.
abbrev pub matches_of : {C : Type 0} → (C → Bool) → GoMap C → List C
matches_of f es = List.map (λ e. e.1) (List.filter (λ e. Bool-discrete (f e.1) true) es)

module _ {C : Type 0} (filter : C → Outcome Bool) (f : C → Bool)
    (total : (c : C) → filter c ≡ ok (f c)) where
  matching-eq : (es : GoMap C) → matching filter es ≡ ok (matches_of f es)
  unfolding matching
  matching-eq [] = refl
  matching-eq ((k, c) ∷ es) = ground (arith, total c, matching-eq es)

  -- With a filter that does not panic, Query returns the containers that pass, each as often as the
  -- store has it, in some order.
  pub query_permutes :
      (o : RangeOrder C) (r : Repo C)
      → (ms : List C) × (query o r filter ≡ ok ms) × Permᴰ ms (matches_of f r.store)
  unfolding query
  query_permutes o r = (
    matches_of f (o.order r.store),
    matching-eq (o.order r.store),
    Permᴰ.map (λ (e : Str × C). e.1)
        (Permᴰ.filter (λ e. Bool-discrete (f e.1) true) (o.visits_all r.store)),
  )
