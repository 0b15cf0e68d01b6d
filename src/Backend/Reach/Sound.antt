-- ===== src/Backend/Reach/Sound.antt =====
-- What every state that a backend over docker reaches keeps.
use garden_docker.Base.{
  some, List, [], ◌∷◌, ◌++◌, ◌≡◌, ◌≢◌, inl, inr, refl, sym, ap, ◌∙◌, Outcome, ok, fail, panic,
}
use mathlib.Core.Path.{subst}
use garden_docker.Base.GoMap.{In, In-around, In-middle}
use garden_docker.Base.Lists.{length, get_elem?, get_elem?-snoc, get_elem?-snoc_self}
use garden_docker.Garden.{ContainerSpec}
use garden_docker.Props.{PropsHandler, new_props_handler}
use garden_docker.Props.Laws.{perform}
use garden_docker.Container.{Machine, Container, handle, on_handler}
use garden_docker.Create
use garden_docker.Create.{DaemonContainerCreator, with_rootfs}
use garden_docker.Create.Outcomes.{create_outcomes}
use garden_docker.Backend.Heap.{
  handler_of, AllNil, HaveHandlers, AllNil-snoc, on_handler_nil, HaveHandlers-snoc,
  HaveHandlers-add,
}
use garden_docker.Backend.Contract.{RepoLaws}
use garden_docker.Backend.{RepoInterface, Server, destroy, on_machine, added}
use garden_docker.Backend.Reach.{
  backend, with_made, Step, made, adds, destroyed, wrote, elsewhere, Reaches, here, next, Reach,
  IsSound,
}

-- Every pending container has its handler in the heap.
abbrev pub PendingHave : {W : Type 0} → List (Container W) → List PropsHandler → Type 0
PendingHave {W} pending heap =
    (c : Container W) → In c pending → (p : PropsHandler) × (get_elem? heap (handler_of c) ≡ some p)

module _ {W R : Type 0} (repo : RepoInterface R (Container W)) (IsValid : R → Type 0) where
  pub record IsKept (s : Server W R) (pending : List (Container W)) : Type 0 where
    pub sound : IsSound repo IsValid s
    pub have : PendingHave pending s.machine.heap

module _ {W R : Type 0} (repo : RepoInterface R (Container W)) (IsValid : R → Type 0) (empty : R)
    (laws : RepoLaws handle repo IsValid empty) where
  abbrev Keeps : Server W R → List (Container W) → Type 0
  Keeps s pending = IsKept repo IsValid s pending

  -- A machine with the same heap.
  same_heap-IsKept :
      (s : Server W R) (pending : List (Container W)) (m : Machine W)
      → m.heap ≡ s.machine.heap
      → Keeps s pending
      → Keeps (record s { machine = m }) pending
  same_heap-IsKept s pending m e k = record {
    sound = record {
      all_nil = subst AllNil (sym e) k.sound.all_nil;
      have_handlers = subst (HaveHandlers repo s.repo) (sym e) k.sound.have_handlers;
      valid = k.sound.valid;
    };
    have = subst (PendingHave pending) (sym e) k.have;
  }

  -- A machine with one more handler, and its container.
  grown-IsKept :
      (s : Server W R) (pending : List (Container W)) (m : Machine W) (c : Container W)
      → m.heap ≡ s.machine.heap ++ (new_props_handler ∷ [])
      → handler_of c ≡ length s.machine.heap
      → Keeps s pending
      → Keeps (record s { machine = m }) (c ∷ pending)
  grown-IsKept s pending m c e f k = record {
    sound = record {
      all_nil = subst AllNil (sym e) (AllNil-snoc s.machine.heap k.sound.all_nil);
      have_handlers =
          subst (HaveHandlers repo s.repo) (sym e)
            (HaveHandlers-snoc repo IsValid empty laws s.repo s.machine.heap k.sound.have_handlers);
      valid = k.sound.valid;
    };
    have = subst (PendingHave (c ∷ pending)) (sym e) (λ x i. elim i [
      | inl p ↦ (
        new_props_handler,
        ap (λ y. get_elem? (s.machine.heap ++ (new_props_handler ∷ [])) (handler_of y)) p
            ∙ ap (get_elem? (s.machine.heap ++ (new_props_handler ∷ []))) f
            ∙ get_elem?-snoc_self s.machine.heap new_props_handler,
      )
      | inr j ↦
          let (p, g) = k.have x j in
          (p, get_elem?-snoc s.machine.heap new_props_handler p (handler_of x) g)
    ]);
  }

  -- The creator's part of Create.
  made-IsKept :
      (d : DaemonContainerCreator W) (spec : ContainerSpec) (s : Server W R)
      (pending : List (Container W))
      → Keeps s pending
      → Keeps
          (on_machine (Create.create d spec) s).1
          (with_made (Create.create d spec s.machine).0 pending)
  made-IsKept d spec s pending k = elim (create_outcomes d spec s.machine) [
    | inl f ↦ failing (Create.create d spec s.machine).0 f.no_container f.same_heap
    | inr g ↦
        subst
          (λ o.
            Keeps (record s { machine = (Create.create d spec s.machine).1 }) (with_made o pending))
          (sym g.returned)
          (grown-IsKept s pending (Create.create d spec s.machine).1 g.made g.new_heap g.its_handler
            k)
  ]
    where
      failing :
          (o : Outcome (Container W))
          → ((c : Container W) → o ≢ ok c)
          → (Create.create d spec s.machine).1.heap ≡ s.machine.heap
          → Keeps (record s { machine = (Create.create d spec s.machine).1 }) (with_made o pending)
      failing (ok c) n e = absurd (n c refl)
      failing (fail x) n e = same_heap-IsKept s pending (Create.create d spec s.machine).1 e k
      failing (panic x) n e = same_heap-IsKept s pending (Create.create d spec s.machine).1 e k

  -- Its other part, for a pending container.
  adds-IsKept :
      (d : DaemonContainerCreator W) (s : Server W R) (earlier later : List (Container W))
      (c : Container W)
      → Keeps s (earlier ++ (c ∷ later))
      → Keeps (added (backend repo d) (ok c) s) (earlier ++ later)
  adds-IsKept d s earlier later c k =
      let (p, held) = k.have c (In-middle c earlier later) in
      record {
        sound = record {
          all_nil = k.sound.all_nil;
          have_handlers =
              HaveHandlers-add repo IsValid empty laws s.repo s.machine.heap c p
                k.sound.have_handlers held;
          valid = laws.add-IsValid s.repo c k.sound.valid;
        };
        have = λ x i. k.have x (In-around x c earlier later i);
      }

  Step-IsKept :
      (d : DaemonContainerCreator W) (s t : Server W R) (pending left : List (Container W))
      → Step repo empty d s pending t left
      → Keeps s pending
      → Keeps t left
  unfolding destroy
  Step-IsKept d s t pending left (made spec e p) k = simp (e, p) (made-IsKept d spec s pending k)
  Step-IsKept d s t pending left (adds earlier later c e f g) k =
      simp (f, g) (adds-IsKept d s earlier later c (subst (Keeps s) e k))
  Step-IsKept d s t pending left (destroyed h e p) k = simp (e, p) k
  Step-IsKept d s t pending left (wrote c call e p) k =
      simp (e, p)
        (same_heap-IsKept s pending (on_handler (handler_of c) (perform call) s.machine).1
          (ap (λ (m : Machine W). m.heap)
            (on_handler_nil s.machine (handler_of c) call k.sound.all_nil))
          k)
  Step-IsKept d s t pending left (elsewhere w e p) k =
      simp (e, p) (same_heap-IsKept s pending (record s.machine { outside = w }) refl k)

  pub Reaches-IsKept :
      (d : DaemonContainerCreator W) (s : Server W R) (pending : List (Container W))
      → Reaches repo empty d s pending
      → Keeps s pending
  Reaches-IsKept d s pending (here w) = record {
    sound = record {
      all_nil = record { is_nil = λ i h e. cc };
      have_handlers = record { handler = λ h c e. cc (laws.find-empty h) };
      valid = laws.empty-IsValid;
    };
    have = λ c i. absurd i;
  }
  Reaches-IsKept d t left (next {s = s} {pending = pending} r p) =
      Step-IsKept d s t pending left p (Reaches-IsKept d s pending r)

  -- In every state that the server reaches, also with calls of Create that have a container and have
  -- yet to add it, all properties handlers have nil maps, every container of the repository has its
  -- handler, and the repository is in a valid state. This is so for every repository that keeps the
  -- laws of its interface.
  pub Reach-IsSound :
      (d : DaemonContainerCreator W) (s : Server W R)
      → Reach repo empty d s
      → IsSound repo IsValid s
  Reach-IsSound d s (pending, r) = (Reaches-IsKept d s pending r).sound
