-- ===== src/Backend/Containers.antt =====
-- What backend.go's Lookup and Containers answer, after Create and in the reached states.
use mathlib.Core.Path.{subst}
use garden_docker.Base.{
  Str, none, List, [], ◌∷◌, ◌≡◌, ◌↔◌, inl, inr, refl, sym, ap, ◌∙◌, Outcome, ok, fail, panic, true,
  ◌==◌, if◌then◌else◌,
}
use garden_docker.Base.GoMap.{RangeOrder, In}
use garden_docker.Base.Ensures.{ok-injective}
use garden_docker.Garden.{ContainerSpec}
use garden_docker.Props.{new_props_handler}
use garden_docker.Container.{Machine, Container, handle, container_has_properties}
use garden_docker.Create
use garden_docker.Create.{DaemonContainerCreator, with_rootfs}
use garden_docker.Create.Outcomes.{Made, create_outcomes}
use garden_docker.Props.Laws.{has_properties_iff}
use garden_docker.Backend.Contract.{RepoLaws, query_total}
use garden_docker.Backend.{
  RepoInterface, Server, create, lookup, containers, added, to_garden_containers,
}
use garden_docker.Backend.Reach.{backend, Reach}
use garden_docker.Backend.Reach.Sound.{Reach-IsSound}
use garden_docker.Backend.Reach.Properties.{handler_new}

-- What Lookup of `h` answers after a Create under the handle `new`, from what Create returned and
-- from what Lookup answered before.
abbrev pub found_after :
    {W : Type 0} → Outcome (Container W) → Str → Str → Outcome (Container W) → Outcome (Container W)
found_after (ok c) new h old = if new == h then ok c else old
found_after (fail e) new h old = old
found_after (panic m) new h old = old

ok_handle : {W : Type 0} (a b : Container W) → ok a ≡ ok b → handle a ≡ handle b
ok_handle a b e = ap handle (ok-injective a b e)

module _ {W R : Type 0} (repo : RepoInterface R (Container W)) (IsValid : R → Type 0) (empty : R)
    (laws : RepoLaws handle repo IsValid empty) (d : DaemonContainerCreator W)
    (spec : ContainerSpec) (s : Server W R) where
  after_added :
      (h : Str) (o : Outcome (Container W)) (m : Machine W)
      → ((c : Container W) → o ≡ ok c → handle c ≡ spec.handle)
      → (lookup (backend repo d) h (added (backend repo d) o (record s { machine = m }))).0
        ≡ found_after o spec.handle h (lookup (backend repo d) h s).0
  unfolding lookup
  after_added h (ok c) m own =
      subst
        (λ n.
          repo.find_by_handle (repo.add s.repo c) h
          ≡ (if n == h then ok c else repo.find_by_handle s.repo h))
        (own c refl) (laws.find-add s.repo c h)
  after_added h (fail e) m own = refl
  after_added h (panic e) m own = refl

  same_handle :
      (g : Made d spec s.machine (Create.create d spec s.machine)) (c : Container W)
      → ok c ≡ ok g.made
      → handle c ≡ spec.handle
  same_handle g c e = ok_handle c g.made e ∙ ap (λ (x : ContainerSpec). x.handle) g.its_spec

  own_handle :
      (c : Container W) → (Create.create d spec s.machine).0 ≡ ok c → handle c ≡ spec.handle
  own_handle c e = elim (create_outcomes d spec s.machine) [
    | inl f ↦ absurd (f.no_container c e)
    | inr g ↦ same_handle g c (sym e ∙ g.returned)
  ]

  -- Over every repository that keeps the laws of its interface: after the docker creator's Create,
  -- whatever it returned, Lookup of every handle finds the new
  -- container if there is one and the handle is the one that the spec asks for, and answers as
  -- before otherwise.
  pub lookup-create :
      (h : Str)
      → (lookup (backend repo d) h (create (backend repo d) spec s).1).0
        ≡ found_after
            (create (backend repo d) spec s).0
            spec.handle
            h
            (lookup (backend repo d) h s).0
  unfolding create
  lookup-create h =
      after_added h (Create.create d spec s.machine).0 (Create.create d spec s.machine).1 own_handle

to_garden_containers-id : {W : Type 0} (cs : List (Container W)) → to_garden_containers cs ≡ cs
unfolding to_garden_containers
to_garden_containers-id [] = refl
to_garden_containers-id (c ∷ cs) = ap (λ (ds : List _). c ∷ ds) (to_garden_containers-id cs)

module _ {W R : Type 0} (repo : RepoInterface R (Container W)) (IsValid : R → Type 0) (empty : R)
    (laws : RepoLaws handle repo IsValid empty) (d : DaemonContainerCreator W) (s : Server W R)
    (reached : Reach repo empty d s) where
  passes :
      (o : RangeOrder Str) (c : Container W)
      → repo.find_by_handle s.repo (handle c) ≡ ok c
      → container_has_properties o s.machine.heap none c ≡ ok true
  unfolding container_has_properties
  passes o c e =
      let sound = Reach-IsSound repo IsValid empty laws d s reached in
      rw (container_has_properties, handler_new repo IsValid empty laws s sound (handle c) c e)
        (ap ok ((has_properties_iff o new_props_handler none).1 (λ e i. absurd i)))

  -- In every state that the server reaches, over every repository that keeps the laws of its
  -- interface, Containers without wanted properties returns, without error or panic, a list of
  -- exactly the containers that Lookup finds under their handles, and changes nothing.
  pub containers_exact :
      (o : RangeOrder Str)
      → (ms : List (Container W)) × (containers o (backend repo d) none s ≡ (ok ms, s))
        × ((c : Container W) → In c ms ↔ ((lookup (backend repo d) (handle c) s).0 ≡ ok c))
  unfolding containers lookup
  containers_exact o =
      let (ms, e, exact) =
        query_total handle repo IsValid empty laws s.repo
          (container_has_properties o s.machine.heap none) (λ c. true)
          (Reach-IsSound repo IsValid empty laws d s reached).valid (passes o) in
      (
        ms,
        rw (e, to_garden_containers-id ms) refl,
        λ c. (λ i. ((exact c).0 i).1, λ found. (exact c).1 (refl, found)),
      )
