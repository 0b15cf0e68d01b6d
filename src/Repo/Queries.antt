-- ===== src/Repo/Queries.antt =====
-- What repo.go's Query and All return, against what FindByHandle finds.
use mathlib.Core.List.Permᴰ
use mathlib.Core.Path.{subst}
use garden_docker.Base.{
  if◌then◌else◌, Str, Bool, true, false, List, [], ◌∷◌, ◌≡◌, ◌↔◌, inl, inr, refl, ap, ◌∙◌, arith,
  Outcome, ok, some,
}
use garden_docker.Base.GoMap
use garden_docker.Base.GoMap.{GoMap, RangeOrder, In, In-Permᴰ, In-of_get, get_of_In}
use garden_docker.Repo.{Repo, find_by_handle, query, all}
use garden_docker.Repo.Laws.{IsWellFormed, matches_of, query_permutes}

module _ {C : Type 0} (f : C → Bool) where
  matches_of-cons :
      (k : Str) (d : C) (es : GoMap C)
      → matches_of f ((k, d) ∷ es) ≡ (if f d then d ∷ matches_of f es else matches_of f es)
  matches_of-cons k d es = ground arith

  In-matches_of :
      (es : GoMap C) (c : C) → In c (matches_of f es) → (k : Str) × In (k, c) es × (f c ≡ true)
  In-matches_of [] c i = absurd i
  In-matches_of ((k, d) ∷ es) c i =
      go (f d) refl (subst (In c) (matches_of-cons k d es) i) (In-matches_of es c)
    where
      go :
          (b : Bool)
          → f d ≡ b
          → In c (if b then d ∷ matches_of f es else matches_of f es)
          → (In c (matches_of f es) → (j : Str) × In (j, c) es × (f c ≡ true))
          → (j : Str) × In (j, c) ((k, d) ∷ es) × (f c ≡ true)
      go true e (inl p) ih = (k, inl (ap (λ (x : C). (k, x)) p), ap f p ∙ e)
      go true e (inr m) ih = let (j, a, h) = ih m in (j, inr a, h)
      go false e m ih = let (j, a, h) = ih m in (j, inr a, h)

  In-matches_of-In :
      (es : GoMap C) (k : Str) (c : C) → In (k, c) es → f c ≡ true → In c (matches_of f es)
  In-matches_of-In [] k c i h = i
  In-matches_of-In ((j, d) ∷ es) k c i h = ground (arith, In-matches_of-In es k c)

module _ {C : Type 0} (handle : C → Str) (filter : C → Outcome Bool) (f : C → Bool)
    (total : (c : C) → filter c ≡ ok (f c)) where
  found : (r : Repo C) (h : Str) (c : C) → find_by_handle r h ≡ ok c → GoMap.get h r.store ≡ some c
  unfolding find_by_handle
  found r h c p = ground arith

  found_of_get :
      (r : Repo C) (h : Str) (c : C) → GoMap.get h r.store ≡ some c → find_by_handle r h ≡ ok c
  unfolding find_by_handle
  found_of_get r h c p = ground arith

  matches_of_iff :
      (r : Repo C) (c : C)
      → IsWellFormed handle r
      → In c (matches_of f r.store) ↔ ((f c ≡ true) × (find_by_handle r (handle c) ≡ ok c))
  matches_of_iff r c w = (
    λ i.
        let (k, e, h) = In-matches_of f r.store c i in
        let p = get_of_In k c r.store w.nodup e in
        (h, found_of_get r (handle c) c (rw (← w.own_handle k c p) p)),
    λ (h, p).
        In-matches_of-In f r.store (handle c) c
          (In-of_get (handle c) c r.store (found r (handle c) c p)) h,
  )

  -- In a well-formed repository and with a filter that does not panic, Query returns a list of
  -- exactly the containers that pass the filter and that FindByHandle finds under their handles,
  -- whatever the order in which the runtime visits the store.
  pub query_exact :
      (o : RangeOrder C) (r : Repo C)
      → IsWellFormed handle r
      → (ms : List C) × (query o r filter ≡ ok ms)
        × ((c : C) → In c ms ↔ ((f c ≡ true) × (find_by_handle r (handle c) ≡ ok c)))
  query_exact o r w =
      let (ms, e, p) = query_permutes filter f total o r in
      (
        ms,
        e,
        λ c. (
          λ i. (matches_of_iff r c w).0 (In-Permᴰ p c i),
          λ h. In-Permᴰ (Permᴰ.symm p) c ((matches_of_iff r c w).1 h),
        ),
      )

module _ {C : Type 0} (handle : C → Str) where
  -- In a well-formed repository, All returns, without error or panic, exactly the containers that FindByHandle finds under their handles.
  pub all_exact :
      (o : RangeOrder C) (r : Repo C)
      → IsWellFormed handle r
      → (ms : List C) × (all o r ≡ ok ms)
        × ((c : C) → In c ms ↔ (find_by_handle r (handle c) ≡ ok c))
  unfolding all
  all_exact o r w =
      let (ms, e, p) = query_exact handle (λ c. ok true) (λ c. true) (λ c. refl) o r w in
      (ms, e, λ c. (λ i. ((p c).0 i).1, λ h. (p c).1 (refl, h)))
