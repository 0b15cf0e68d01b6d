-- ===== src/Backend/Reach.antt =====
-- The states that a backend over docker reaches, and what its containers' properties are in them.
pub mod Sound
pub mod Properties
pub mod Owners
pub mod Staying
use garden_docker.Base.{
  Str, Option, none, some, List, [], ◌∷◌, ◌++◌, ◌≡◌, ◌≢◌, ◌⊎◌, inl, inr, refl, sym, ap, ◌∙◌, arith,
  Outcome, ok, fail, panic, ◌==◌, ℕ, Bool-cases,
}
use mathlib.Core.Path.{subst}
use garden_docker.Base.GoMap
use garden_docker.Base.GoMap.{In}
use garden_docker.Base.Lists.{
  length, get_elem?, set, get_elem?-snoc, get_elem?-snoc_self, get_elem?-snoc_cases, set-get_elem?,
}
use garden_docker.Garden.{ContainerSpec}
use garden_docker.Props.{PropsHandler, new_props_handler, set_property, remove_property}
use garden_docker.Props.Laws.{PropsCall, set as set_call, remove, perform}
use garden_docker.Container.{Machine, Container, handle, on_handler}
use garden_docker.Repo
use garden_docker.Repo.{Repo, new_repo}
use garden_docker.Repo.Laws.{IsWellFormed, IsWellFormed-operations}
use garden_docker.Create
use garden_docker.Create.{DaemonContainerCreator, with_rootfs}
use garden_docker.Create.Outcomes.{Failed, Made, create_outcomes}
use garden_docker.Backend.Heap.{
  handler_of, AllNil, HaveHandlers, AllNil-snoc, on_handler_nil, HaveHandlers-snoc,
  HaveHandlers-add,
}
use garden_docker.Backend.{RepoInterface, Backend, Server, create, destroy, on_machine, added}

-- The containers that calls of Create have been given by the creator and have yet to add.
abbrev pub with_made :
    {W : Type 0} → Outcome (Container W) → List (Container W) → List (Container W)
with_made (ok c) pending = c ∷ pending
with_made (fail e) pending = pending
with_made (panic m) pending = pending

-- The backend with docker's creator and a repository.
abbrev pub backend :
    {W R : Type 0} → RepoInterface R (Container W) → DaemonContainerCreator W → Backend W R
backend i d = record { creator = Create.create d; repo = i }

module _ {W R : Type 0} (i : RepoInterface R (Container W)) (empty : R) where
  module _ (d : DaemonContainerCreator W) where
    -- A step of the server, with the pending containers before and after. Create takes two, which
    -- no lock holds together: the creator makes a container or fails, and the container is added
    -- to the repository. A container is destroyed, a caller that holds a container sets or removes a
    -- property of it, or something happens outside, such as NetIn, Run or Attach.
    pub data Step (s : Server W R) (pending : List (Container W)) (t : Server W R)
        (left : List (Container W)) : Type 0 where
      made :
          (spec : ContainerSpec)
          → t ≡ (on_machine (Create.create d spec) s).1
          → left ≡ with_made (Create.create d spec s.machine).0 pending
          → Step s pending t left
      adds :
          (earlier later : List (Container W)) (c : Container W)
          → pending ≡ earlier ++ (c ∷ later)
          → t ≡ added (backend i d) (ok c) s
          → left ≡ earlier ++ later
          → Step s pending t left
      destroyed : (h : Str) → t ≡ (destroy h s).1 → left ≡ pending → Step s pending t left
      wrote :
          (c : Container W) (call : PropsCall)
          → t ≡ (on_machine (on_handler (handler_of c) (perform call)) s).1
          → left ≡ pending
          → Step s pending t left
      elsewhere :
          (w : W)
          → t ≡ record s { machine = record s.machine { outside = w } }
          → left ≡ pending
          → Step s pending t left

    -- The states that are reached from an empty server, with the pending containers.
    pub data Reaches : Server W R → List (Container W) → Type 0 where
      here :
          (w : W)
          → Reaches (record { machine = record { heap = []; outside = w }; repo = empty }) []
      next :
          {s t : Server W R} {pending left : List (Container W)}
          → Reaches s pending
          → Step s pending t left
          → Reaches t left

    abbrev pub Reach : Server W R → Type 0
    Reach s = (pending : List (Container W)) × Reaches s pending

    -- Create without anything in between is two of the steps.
    pub created :
        (s : Server W R) (pending : List (Container W)) (spec : ContainerSpec)
        → Reaches s pending
        → Reaches (create (backend i d) spec s).1 pending
    unfolding create
    created s pending spec r = by_outcome (Create.create d spec s.machine).0 refl
      where
        by_outcome :
            (o : Outcome (Container W))
            → (Create.create d spec s.machine).0 ≡ o
            → Reaches
                (added (backend i d) o (record s { machine = (Create.create d spec s.machine).1 }))
                pending
        by_outcome (ok c) e =
            next (next r (made spec refl refl)) (adds [] pending c (rw e refl) refl refl)
        by_outcome (fail x) e = next r (made spec refl (rw e refl))
        by_outcome (panic x) e = next r (made spec refl (rw e refl))

-- What the reached states keep, for the valid states of the repository.
pub record IsSound {W R : Type 0} (i : RepoInterface R (Container W)) (IsValid : R → Type 0)
    (s : Server W R) : Type 0 where
  pub all_nil : AllNil s.machine.heap
  pub have_handlers : HaveHandlers i s.repo s.machine.heap
  pub valid : IsValid s.repo
