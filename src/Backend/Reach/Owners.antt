-- ===== src/Backend/Reach/Owners.antt =====
-- Which containers share a properties handler: backend.go's Create over create.go's.
use garden_docker.Base.{
  Str, some, List, ◌∷◌, ◌++◌, ◌≡◌, ◌≢◌, ◌⊎◌, inl, inr, refl, sym, ap, ◌∙◌, Outcome, ok, fail, panic,
}
use mathlib.Core.Path.{subst}
use garden_docker.Base.GoMap.{In, In-around, In-middle}
use garden_docker.Base.Lists.{length, get_elem?, get_elem?-length}
use garden_docker.Garden.{ContainerSpec}
use garden_docker.Props.{PropsHandler}
use garden_docker.Container.{Container, handle}
use garden_docker.Create
use garden_docker.Create.{DaemonContainerCreator}
use garden_docker.Create.Outcomes.{create_outcomes}
use garden_docker.Backend.Contract.{RepoLaws, find-add_cases}
use garden_docker.Backend.{RepoInterface, Server, destroy, lookup, added}
use garden_docker.Backend.Heap.{handler_of}
use garden_docker.Backend.Reach.{
  backend, with_made, Step, made, adds, destroyed, wrote, elsewhere, Reaches, here, next, Reach,
}
use garden_docker.Backend.Reach.Sound.{IsKept, Reaches-IsKept}

module _ {W R : Type 0} (repo : RepoInterface R (Container W)) (IsValid : R → Type 0) (empty : R)
    (laws : RepoLaws handle repo IsValid empty) where
  -- The container is in the repository or pending.
  abbrev Known : R → List (Container W) → Container W → Type 0
  Known r pending c = ((h : Str) × (repo.find_by_handle r h ≡ ok c)) ⊎ In c pending

  -- Of the known containers, no two share a handler.
  abbrev AreApart : R → List (Container W) → Type 0
  AreApart r pending =
      (c e : Container W)
      → Known r pending c
      → Known r pending e
      → handler_of c ≡ handler_of e
      → c ≡ e

  fewer-AreApart :
      (r q : R) (pending left : List (Container W))
      → ((c : Container W) → Known q left c → Known r pending c)
      → AreApart r pending
      → AreApart q left
  fewer-AreApart r q pending left f a c e k l = a c e (f c k) (f e l)

  -- A known container has an older handler than one that is new.
  older :
      (s : Server W R) (pending : List (Container W)) (c : Container W)
      → IsKept repo IsValid s pending
      → Known s.repo pending c
      → handler_of c ≢ length s.machine.heap
  older s pending c k known p =
      let (x, held) = in_heap known in
      cc (sym (get_elem?-length s.machine.heap) ∙ ap (get_elem? s.machine.heap) (sym p) ∙ held)
    where
      in_heap :
          Known s.repo pending c
          → (x : PropsHandler) × (get_elem? s.machine.heap (handler_of c) ≡ some x)
      in_heap (inl (h, e)) = k.sound.have_handlers.handler h c e
      in_heap (inr i) = k.have c i

  -- The creator's part of Create.
  made-AreApart :
      (s : Server W R) (pending : List (Container W)) (c : Container W)
      → IsKept repo IsValid s pending
      → handler_of c ≡ length s.machine.heap
      → AreApart s.repo pending
      → AreApart s.repo (c ∷ pending)
  made-AreApart s pending c k new apart x y = by_cases
    where
      by_cases :
          Known s.repo (c ∷ pending) x
          → Known s.repo (c ∷ pending) y
          → handler_of x ≡ handler_of y
          → x ≡ y
      by_cases (inl a) (inl b) e = apart x y (inl a) (inl b) e
      by_cases (inl a) (inr (inr b)) e = apart x y (inl a) (inr b) e
      by_cases (inr (inr a)) (inl b) e = apart x y (inr a) (inl b) e
      by_cases (inr (inr a)) (inr (inr b)) e = apart x y (inr a) (inr b) e
      by_cases (inr (inl p)) (inr (inl q)) e = p ∙ sym q
      by_cases (inr (inl p)) (inl b) e =
          absurd (older s pending y k (inl b) (sym e ∙ ap handler_of p ∙ new))
      by_cases (inr (inl p)) (inr (inr b)) e =
          absurd (older s pending y k (inr b) (sym e ∙ ap handler_of p ∙ new))
      by_cases (inl a) (inr (inl q)) e =
          absurd (older s pending x k (inl a) (e ∙ ap handler_of q ∙ new))
      by_cases (inr (inr a)) (inr (inl q)) e =
          absurd (older s pending x k (inr a) (e ∙ ap handler_of q ∙ new))

  create-AreApart :
      (d : DaemonContainerCreator W) (spec : ContainerSpec) (s : Server W R)
      (pending : List (Container W))
      → IsKept repo IsValid s pending
      → AreApart s.repo pending
      → AreApart s.repo (with_made (Create.create d spec s.machine).0 pending)
  create-AreApart d spec s pending k apart = elim (create_outcomes d spec s.machine) [
    | inl f ↦ failing (Create.create d spec s.machine).0 f.no_container
    | inr g ↦
        subst (λ o. AreApart s.repo (with_made o pending)) (sym g.returned)
          (made-AreApart s pending g.made k g.its_handler apart)
  ]
    where
      failing :
          (o : Outcome (Container W))
          → ((c : Container W) → o ≢ ok c)
          → AreApart s.repo (with_made o pending)
      failing (ok c) n = absurd (n c refl)
      failing (fail x) n = apart
      failing (panic x) n = apart

  -- A pending container that is added was known before.
  added-Known :
      (d : DaemonContainerCreator W) (s : Server W R) (earlier later : List (Container W))
      (c x : Container W)
      → Known (added (backend repo d) (ok c) s).repo (earlier ++ later) x
      → Known s.repo (earlier ++ (c ∷ later)) x
  added-Known d s earlier later c x (inr i) = inr (In-around x c earlier later i)
  added-Known d s earlier later c x (inl (h, e)) =
      elim (find-add_cases handle repo IsValid empty laws s.repo c x h e) [
        | inl old ↦ inl (h, old)
        | inr new ↦
            inr (subst (λ y. In y (earlier ++ (c ∷ later))) (sym new) (In-middle c earlier later))
      ]

  Step-AreApart :
      (d : DaemonContainerCreator W) (s t : Server W R) (pending left : List (Container W))
      → Step repo empty d s pending t left
      → IsKept repo IsValid s pending
      → AreApart s.repo pending
      → AreApart t.repo left
  unfolding destroy
  Step-AreApart d s t pending left (made spec e p) k apart =
      simp (e, p) (create-AreApart d spec s pending k apart)
  Step-AreApart d s t pending left (adds earlier later c e f g) k apart =
      simp (f, g)
        (fewer-AreApart s.repo (added (backend repo d) (ok c) s).repo (earlier ++ (c ∷ later))
          (earlier ++ later) (added-Known d s earlier later c) (subst (AreApart s.repo) e apart))
  Step-AreApart d s t pending left (destroyed h e p) k apart = simp (e, p) apart
  Step-AreApart d s t pending left (wrote c call e p) k apart = simp (e, p) apart
  Step-AreApart d s t pending left (elsewhere w e p) k apart = simp (e, p) apart

  Reaches-AreApart :
      (d : DaemonContainerCreator W) (s : Server W R) (pending : List (Container W))
      → Reaches repo empty d s pending
      → AreApart s.repo pending
  Reaches-AreApart d s pending (here w) =
      λ c e k l same. elim k [ inl (h, p) ↦ cc (laws.find-empty h) | inr i ↦ absurd i ]
  Reaches-AreApart d t left (next {s = s} {pending = pending} r p) =
      Step-AreApart d s t pending left p (Reaches-IsKept repo IsValid empty laws d s pending r)
        (Reaches-AreApart d s pending r)

  -- In every state that the server reaches, also with calls of Create that have yet to add their
  -- container, two containers that Lookup returns for two handles share no properties handler: if
  -- they have the same, then the handles are the same, and so are the containers.
  pub handlers_apart :
      (d : DaemonContainerCreator W) (s : Server W R) (h j : Str) (c e : Container W)
      → Reach repo empty d s
      → (lookup (backend repo d) h s).0 ≡ ok c
      → (lookup (backend repo d) j s).0 ≡ ok e
      → handler_of c ≡ handler_of e
      → (h ≡ j) × (c ≡ e)
  unfolding lookup
  handlers_apart d s h j c e (pending, r) p q same =
      let own = λ (k : Str) (x : Container W).
        laws.own_handle s.repo k x
          (Reaches-IsKept repo IsValid empty laws d s pending r).sound.valid in
      let one = Reaches-AreApart d s pending r c e (inl (h, p)) (inl (j, q)) same in
      (own h c p ∙ ap handle one ∙ sym (own j e q), one)
