-- ===== src/Backend/Reach/Properties.antt =====
-- What the properties of the containers of a reached state are: backend.go with props.go.
use garden_docker.Base.{Str, some, [], ◌∷◌, ◌≡◌, inl, refl, ap, ◌∙◌, ok, panic, false}
use garden_docker.Base.GoMap.{GoMap, RangeOrder, In}
use garden_docker.Base.Lists.{get_elem?, set-get_elem?}
use garden_docker.Props.{new_props_handler, set_property, nil_map_write}
use garden_docker.Props.Laws.{has_properties_nil}
use garden_docker.Container.{Container, on_handler, container_has_properties}
use garden_docker.Create.{DaemonContainerCreator}
use garden_docker.Backend.Contract.{RepoLaws, query_total}
use garden_docker.Base.{List}
use garden_docker.Container.{handle}
use garden_docker.Backend.{
  RepoInterface, Server, lookup, containers, on_machine, to_garden_containers,
}
use garden_docker.Backend.Heap.{handler_of}
use garden_docker.Backend.Reach.{backend, Reach, IsSound}
use garden_docker.Backend.Reach.Sound.{Reach-IsSound}

module _ {W R : Type 0} (repo : RepoInterface R (Container W)) (IsValid : R → Type 0) (empty : R)
    (laws : RepoLaws handle repo IsValid empty) where
  module _ (s : Server W R) (sound : IsSound repo IsValid s) where
    pub handler_new :
        (h : Str) (c : Container W)
        → repo.find_by_handle s.repo h ≡ ok c
        → get_elem? s.machine.heap (handler_of c) ≡ some new_props_handler
    handler_new h c e =
        let (p, f) = sound.have_handlers.handler h c e in
        f ∙ ap some (sound.all_nil.is_nil (handler_of c) p f)

    container_has_none :
        (o : RangeOrder Str) (e : Str × Str) (wanted : GoMap Str) (h : Str) (c : Container W)
        → repo.find_by_handle s.repo h ≡ ok c
        → container_has_properties o s.machine.heap (some (e ∷ wanted)) c ≡ ok false
    unfolding container_has_properties
    container_has_none o e wanted h c g =
        rw (container_has_properties, handler_new h c g) (ap ok (has_properties_nil o e wanted))

  module _ (d : DaemonContainerCreator W) (s : Server W R) (reached : Reach repo empty d s) where
    -- In every state that the server reaches, over every repository that keeps the laws of its
    -- interface, Containers with at least one wanted property returns the empty list without error,
    -- and changes nothing.
    pub containers_wanted_none :
        (o : RangeOrder Str) (e : Str × Str) (wanted : GoMap Str)
        → containers o (backend repo d) (some (e ∷ wanted)) s ≡ (ok [], s)
    unfolding containers to_garden_containers
    containers_wanted_none o e wanted =
        let sound = Reach-IsSound repo IsValid empty laws d s reached in
        let (cs, q, exact) =
          query_total handle repo IsValid empty laws s.repo
            (container_has_properties o s.machine.heap (some (e ∷ wanted))) (λ c. false) sound.valid
            (λ c p. container_has_none s sound o e wanted (handle c) c p) in
        rw (q ∙ ap ok (none_in cs (λ c i. cc ((exact c).0 i).0))) refl
      where
        none_in : (cs : List (Container W)) → ((c : Container W) → In c cs → ⊥) → cs ≡ []
        none_in [] n = refl
        none_in (c ∷ cs) n = absurd (n c (inl refl))

    -- In every state that the server reaches, over every repository that keeps the laws of its
    -- interface, SetProperty of any container that Lookup returns panics, whatever the name and the
    -- value, and changes nothing.
    pub set_property_panics :
        (h k v : Str) (c : Container W)
        → (lookup (backend repo d) h s).0 ≡ ok c
        → on_machine (on_handler (handler_of c) (set_property k v)) s ≡ (panic nil_map_write, s)
    unfolding lookup on_handler set_property
    set_property_panics h k v c e =
        let held = handler_new s (Reach-IsSound repo IsValid empty laws d s reached) h c e in
        rw (on_handler, held)
          (ap (λ x. (panic nil_map_write, record s { machine = record s.machine { heap = x } }))
            (set-get_elem? s.machine.heap (handler_of c) new_props_handler held))
