-- ===== src/Backend/Contract.antt =====
-- What backend.go asks of its `Repo`: the laws of the interface, and what follows of them.
use garden_docker.Base.{
  Str, Bool, true, Option, none, some, List, ◌≡◌, ◌⊎◌, ◌↔◌, inl, inr, sym, ap, ◌∙◌, arith, Outcome,
  ok, fail, panic, container_not_found, ◌==◌, if◌then◌else◌, Bool-cases,
}
use garden_docker.Base.Binds.{ended}
use garden_docker.Base.Ensures.{ok-injective}
use garden_docker.Base.GoMap.{In}
use garden_docker.Repo.Abstract.{Held, Scanned, listed, stopped}
use garden_docker.Backend.{RepoInterface}

abbrev pub to_option : {C : Type 0} → Outcome C → Option C
to_option (ok c) = some c
to_option (fail e) = none
to_option (panic m) = none

-- What a repository holds, by what FindByHandle returns.
abbrev pub held_by : {R C : Type 0} → RepoInterface R C → R → Held C
held_by i r h = to_option (i.find_by_handle r h)

-- The laws of the interface, for the states that are valid, from the empty one on: Add and Delete
-- change what is found under one handle, a container is found under its own handle alone, and Query
-- and All come to the containers that are found.
pub record RepoLaws {R C : Type 0} (handle : C → Str) (i : RepoInterface R C) (IsValid : R → Type 0)
    (empty : R) : Type 0 where
  pub empty-IsValid : IsValid empty
  pub add-IsValid : (r : R) (c : C) → IsValid r → IsValid (i.add r c)
  pub delete-IsValid : (r : R) (c : C) → IsValid r → IsValid (i.delete r c)
  pub find-empty : (h : Str) → i.find_by_handle empty h ≡ fail (container_not_found h)
  pub find-add :
      (r : R) (c : C) (h : Str)
      → i.find_by_handle (i.add r c) h ≡ (if handle c == h then ok c else i.find_by_handle r h)
  pub find-delete :
      (r : R) (c : C) (h : Str)
      → i.find_by_handle (i.delete r c) h
        ≡ (if handle c == h then fail (container_not_found h) else i.find_by_handle r h)
  pub own_handle :
      (r : R) (h : Str) (c : C) → IsValid r → i.find_by_handle r h ≡ ok c → h ≡ handle c
  pub queries :
      (r : R) (filter : C → Outcome Bool)
      → IsValid r
      → Scanned handle filter (held_by i r) (i.query r filter)
  pub lists_all : (r : R) → IsValid r → Scanned handle (λ c. ok true) (held_by i r) (i.all r)

to_option-some : {C : Type 0} (o : Outcome C) (c : C) → to_option o ≡ some c → o ≡ ok c
to_option-some (ok d) c e = ground arith
to_option-some (fail x) c e = cc
to_option-some (panic x) c e = cc

module _ {R C : Type 0} (handle : C → Str) (i : RepoInterface R C) (IsValid : R → Type 0)
    (empty : R) (laws : RepoLaws handle i IsValid empty) where
  -- What is found after an Add was found before, or is what was added.
  pub find-add_cases :
      (r : R) (c d : C) (h : Str)
      → i.find_by_handle (i.add r c) h ≡ ok d
      → (i.find_by_handle r h ≡ ok d) ⊎ (d ≡ c)
  find-add_cases r c d h e = elim (Bool-cases (handle c == h)) [
    | inl p ↦ inr (
        sym (
          ok-injective c d (
            sym (ap (λ b. if b then ok c else i.find_by_handle r h) p)
            ∙ sym (laws.find-add r c h)
            ∙ e)))
    | inr p ↦
        inl (
          sym (ap (λ b. if b then ok c else i.find_by_handle r h) p)
          ∙ sym (laws.find-add r c h)
          ∙ e)
  ]

  -- Query with a filter that returns on the containers that are found.
  pub query_total :
      (r : R) (filter : C → Outcome Bool) (f : C → Bool)
      → IsValid r
      → ((c : C) → i.find_by_handle r (handle c) ≡ ok c → filter c ≡ ok (f c))
      → (cs : List C) × (i.query r filter ≡ ok cs)
        × ((c : C) → In c cs ↔ ((f c ≡ true) × (i.find_by_handle r (handle c) ≡ ok c)))
  query_total r filter f v total = elim (laws.queries r filter v) [
    | listed cs e l ↦ (
      cs,
      e,
      λ c. (
        λ j.
            let (passes, held) = (l.exact c).0 j in
            let found = to_option-some (i.find_by_handle r (handle c)) c held in
            (ok-injective (f c) true (sym (total c found) ∙ passes), found),
        λ (passes, found). (l.exact c).1 (total c found ∙ ap ok passes, ap to_option found),
      ),
    )
    | stopped c held e ↦
        let found = to_option-some (i.find_by_handle r (handle c)) c held in
        absurd (
          never (f c) (i.query r filter)
            (sym (ap (λ (o : Outcome Bool). ended {B = List C} (λ x. x) o) (total c found)) ∙ e))
  ]
    where
      never : (b : Bool) (o : Outcome (List C)) → ¬ (ended {A = Bool} (λ x. x) (ok b) ≡ some o)
      never b o e = cc
