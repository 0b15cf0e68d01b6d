-- ===== src/Repo/Bag.antt =====
-- What repo.go's Query returns as a bag: the order in which the runtime visits the store is
-- forgotten by a quotient.
use mathlib.Core.List.{Permᴰ}
use mathlib.Core.List.Permᴰ
use mathlib.Core.Bool.{Bool-discrete}
use mathlib.Core.Quot
use mathlib.Core.Quot.{Quot}
use garden_docker.Base.{Str, Bool, true, List, ◌≡◌, Option, none, some, Outcome, ok}
use garden_docker.Base.GoMap
use garden_docker.Base.GoMap.{GoMap, RangeOrder}
use garden_docker.Base.GoMap.Same.{get-Permᴰ}
use garden_docker.Repo.{Repo, found_or_not, find_by_handle, query}
use garden_docker.Repo.Laws.{IsWellFormed, matches_of, query_permutes}

-- Lists up to the order of their elements.
abbrev pub Bag : Type 0 → Type 0
Bag C = Quot {α = List C} Permᴰ

abbrev pub to_bag : {C : Type 0} → List C → Bag C
to_bag cs = Quot.mk cs

module _ {C : Type 0} where
  found_or_not-injective : (h : Str) (a b : Option C) → found_or_not h a ≡ found_or_not h b → a ≡ b
  found_or_not-injective h none none e = cc
  found_or_not-injective h none (some c) e = cc
  found_or_not-injective h (some c) none e = cc
  found_or_not-injective h (some c) (some d) e = cc

  same_store :
      (r s : Repo C)
      → ((h : Str) → find_by_handle r h ≡ find_by_handle s h)
      → (h : Str) → GoMap.get h r.store ≡ GoMap.get h s.store
  unfolding find_by_handle
  same_store r s e h = found_or_not-injective h (GoMap.get h r.store) (GoMap.get h s.store) (e h)

  matches_of-Permᴰ :
      (f : C → Bool) {m n : GoMap C} → Permᴰ m n → Permᴰ (matches_of f m) (matches_of f n)
  matches_of-Permᴰ f p =
      Permᴰ.map (λ (e : Str × C). e.1) (Permᴰ.filter (λ e. Bool-discrete (f e.1) true) p)

  -- Two well-formed repositories in which FindByHandle answers the same for every handle cannot be
  -- told apart by Query with a filter that does not panic: in whatever orders the runtime visits
  -- the two stores, both calls return a list, and the two lists are equal as bags.
  pub query-same_bag :
      (handle : C → Str) (filter : C → Outcome Bool) (f : C → Bool) (o p : RangeOrder C)
      (r s : Repo C)
      → ((c : C) → filter c ≡ ok (f c))
      → IsWellFormed handle r
      → IsWellFormed handle s
      → ((h : Str) → find_by_handle r h ≡ find_by_handle s h)
      → (ms ns : List C) × (query o r filter ≡ ok ms)
        × (query p s filter ≡ ok ns)
        × (to_bag ms ≡ to_bag ns)
  query-same_bag handle filter f o p r s total v w same =
      let (ms, e, a) = query_permutes filter f total o r in
      let (ns, d, b) = query_permutes filter f total p s in
      let stores = get-Permᴰ r.store s.store v.nodup w.nodup (same_store r s same) in
      (
        ms,
        ns,
        e,
        d,
        Quot.sound (Permᴰ.trans a (Permᴰ.trans (matches_of-Permᴰ f stores) (Permᴰ.symm b))),
      )
