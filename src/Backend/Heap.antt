-- ===== src/Backend/Heap.antt =====
-- The heap of properties handlers, where no map is ever made, and the containers that have their
-- handlers in it: create.go and props.go.
use garden_docker.Base.{
  Str, Option, none, some, List, [], ◌∷◌, ◌++◌, ◌≡◌, inl, inr, refl, sym, ap, ◌∙◌, ℕ,
}
use garden_docker.Base.Lists.{get_elem?, set, get_elem?-snoc, get_elem?-snoc_cases, set-get_elem?}
use garden_docker.Props.{PropsHandler, new_props_handler, set_property, remove_property}
use garden_docker.Props.Laws.{PropsCall, set as set_call, remove, perform}
use garden_docker.Container.{Machine, Container, handle, on_handler}
use garden_docker.Backend.{RepoInterface}
use garden_docker.Backend.Contract.{RepoLaws, find-add_cases}
use garden_docker.Base.{ok}

-- Every handler of the heap has a nil map.
pub record AllNil (heap : List PropsHandler) : Type 0 where
  pub is_nil : (i : ℕ) (h : PropsHandler) → get_elem? heap i ≡ some h → h ≡ new_props_handler

-- The number of the container's properties handler.
abbrev pub handler_of : {W : Type 0} → Container W → ℕ
handler_of c = c.info_handler.props_handler

module _ {W R : Type 0} (i : RepoInterface R (Container W)) where
  -- Every container of the repository has its handler in the heap.
  pub record HaveHandlers (r : R) (heap : List PropsHandler) : Type 0 where
    pub handler :
        (h : Str) (c : Container W)
        → i.find_by_handle r h ≡ ok c
        → (p : PropsHandler) × (get_elem? heap (handler_of c) ≡ some p)

pub AllNil-snoc :
    (heap : List PropsHandler) → AllNil heap → AllNil (heap ++ (new_props_handler ∷ []))
AllNil-snoc heap a = record {
  is_nil = λ i h e. elim (get_elem?-snoc_cases heap new_props_handler h i e) [
    | inl old ↦ a.is_nil i h old
    | inr new ↦ new
  ];
}

-- A write to a nil map changes nothing.
perform_nil : (call : PropsCall) → (perform call new_props_handler).1 ≡ new_props_handler
unfolding set_property remove_property
perform_nil (set_call k v) = refl
perform_nil (remove k) = refl

module _ {W : Type 0} where
  pub on_handler_nil :
      (m : Machine W) (ref : ℕ) (call : PropsCall)
      → AllNil m.heap
      → (on_handler ref (perform call) m).1 ≡ m
  unfolding on_handler
  on_handler_nil m ref call a = go (get_elem? m.heap ref) refl
    where
      go :
          (o : Option PropsHandler)
          → get_elem? m.heap ref ≡ o
          → (on_handler ref (perform call) m).1 ≡ m
      go none e = rw (on_handler, e)
      go (some h) e =
          rw (on_handler, e)
            (ap (λ x. record m { heap = x })
              (ap (set m.heap ref) (
                  ap (λ x. (perform call x).1) (a.is_nil ref h e)
                  ∙ perform_nil call
                  ∙ sym (a.is_nil ref h e))
                ∙ set-get_elem? m.heap ref h e))

module _ {W R : Type 0} (i : RepoInterface R (Container W)) (IsValid : R → Type 0) (empty : R)
    (laws : RepoLaws handle i IsValid empty) where
  pub HaveHandlers-snoc :
      (r : R) (heap : List PropsHandler)
      → HaveHandlers i r heap
      → HaveHandlers i r (heap ++ (new_props_handler ∷ []))
  HaveHandlers-snoc r heap a = record {
    handler = λ h c e.
        let (p, f) = a.handler h c e in
        (p, get_elem?-snoc heap new_props_handler p (handler_of c) f);
  }

  pub HaveHandlers-add :
      (r : R) (heap : List PropsHandler) (c : Container W) (p : PropsHandler)
      → HaveHandlers i r heap
      → get_elem? heap (handler_of c) ≡ some p
      → HaveHandlers i (i.add r c) heap
  HaveHandlers-add r heap c p a f = record {
    handler = λ h d e. elim (find-add_cases handle i IsValid empty laws r c d h e) [
      | inl old ↦ a.handler h d old
      | inr new ↦ (p, ap (λ x. get_elem? heap (handler_of x)) new ∙ f)
    ];
  }
