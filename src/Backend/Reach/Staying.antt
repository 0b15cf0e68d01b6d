-- ===== src/Backend/Reach/Staying.antt =====
-- That the servers of this program lose no container: Destroy of backend.go removes none.
use garden_docker.Base.{Str, List, ◌≡◌, inl, inr, ap, ◌∙◌, ok, ◌==◌, if◌then◌else◌, Bool-cases}
use garden_docker.Container.{Container, handle}
use garden_docker.Create.{DaemonContainerCreator}
use garden_docker.Backend.Contract.{RepoLaws}
use garden_docker.Backend.{RepoInterface, Server, lookup, destroy}
use garden_docker.Backend.Reach.{backend, Step, made, adds, destroyed, wrote, elsewhere}

module _ {W R : Type 0} (repo : RepoInterface R (Container W)) (empty : R)
    (d : DaemonContainerCreator W) where
  -- The states, with the pending containers, to which steps lead from a state.
  pub data Later (s : Server W R) (pending : List (Container W))
      : Server W R → List (Container W) → Type 0 where
    now : Later s pending s pending
    after :
        {t u : Server W R} {left rest : List (Container W)}
        → Later s pending t left
        → Step repo empty d t left u rest
        → Later s pending u rest

  -- Lookup finds a container.
  abbrev pub Finds : Str → Server W R → Type 0
  Finds h s = (c : Container W) × ((lookup (backend repo d) h s).0 ≡ ok c)

module _ {W R : Type 0} (repo : RepoInterface R (Container W)) (IsValid : R → Type 0) (empty : R)
    (laws : RepoLaws handle repo IsValid empty) (d : DaemonContainerCreator W) where
  Step-Finds :
      (h : Str) (s t : Server W R) (pending left : List (Container W))
      → Step repo empty d s pending t left
      → Finds repo empty d h s
      → Finds repo empty d h t
  unfolding lookup destroy
  Step-Finds h s t pending left (made spec e _) (c, f) =
      (c, ap (λ (x : Server W R). repo.find_by_handle x.repo h) e ∙ f)
  Step-Finds h s t pending left (adds _ _ k _ e _) (c, f) =
      let now_found =
        ap (λ (x : Server W R). repo.find_by_handle x.repo h) e ∙ laws.find-add s.repo k h in
      elim (Bool-cases (handle k == h)) [
        | inl p ↦ (k, now_found ∙ ap (λ b. if b then ok k else repo.find_by_handle s.repo h) p)
        | inr p ↦ (c, now_found ∙ ap (λ b. if b then ok k else repo.find_by_handle s.repo h) p ∙ f)
      ]
  Step-Finds h s t pending left (destroyed _ e _) (c, f) =
      (c, ap (λ (x : Server W R). repo.find_by_handle x.repo h) e ∙ f)
  Step-Finds h s t pending left (wrote k call e _) (c, f) =
      (c, ap (λ (x : Server W R). repo.find_by_handle x.repo h) e ∙ f)
  Step-Finds h s t pending left (elsewhere w e _) (c, f) =
      (c, ap (λ (x : Server W R). repo.find_by_handle x.repo h) e ∙ f)

  -- Over every repository that keeps the laws of its interface: where Lookup of a handle finds a
  -- container, it finds one in every later state, whatever the server does till then, with any
  -- calls of Destroy among it.
  pub Later-Finds :
      (h : Str) (s : Server W R) (pending : List (Container W)) (t : Server W R)
      (left : List (Container W))
      → Later repo empty d s pending t left
      → Finds repo empty d h s
      → Finds repo empty d h t
  Later-Finds h s pending t left now found = found
  Later-Finds h s pending t left (after {t = u} {left = mid} l step) found =
      Step-Finds h u t mid left step (Later-Finds h s pending u mid l found)
