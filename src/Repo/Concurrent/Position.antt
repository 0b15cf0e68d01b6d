-- ===== src/Repo/Concurrent/Position.antt =====
-- How the steps of concurrent calls of repo.go's methods are steps on the mutex.
use mathlib.Core.Path.{subst}
use garden_docker.Base.{
  Outcome, ok, fail, panic, Str, Bool, Option, none, some, List, [], ◌∷◌, ◌≡◌, refl, sym, ap, ◌∙◌,
  ◌⊎◌, inl, inr,
}
use garden_docker.Base.GoMap
use garden_docker.Base.GoMap.{GoMap, HasNodupKeys}
use garden_docker.Repo.Locking
use garden_docker.Repo.Locking.{RwMutex, unlocked, Call, returned, advance, becoming}
use garden_docker.Repo.Concurrent.{
  Scan, of_query, of_all, write, find, scan, done, found, matches, Thread, started, pending,
  writing, wrote, finding, found_it, all_begun, scanning, visiting, scanned, all_returning,
  answered, position, scan_position, filter_of, visit, visited, locks, works, Acts, on_mutex,
  on_store, ranges, Moves, first, later,
}

module _ {C : Type 0} where
  abbrev pub positions : List (Thread C) → List Call
  positions [] = []
  positions (t ∷ ts) = position t ∷ positions ts

  -- A step on the mutex leads to the position that Repo/Locking says.
  abbrev LeadsTo : Option (Call × RwMutex) → Option (Thread C) → Type 0
  LeadsTo _ none = Unit
  LeadsTo none (some u) = Unit
  LeadsTo (some (d, n)) (some u) = d ≡ position u

  leads :
      (o : Option RwMutex) (d : Call) (u : Thread C)
      → d ≡ position u
      → LeadsTo (becoming d o) (some u)
  leads none d u e = tt
  leads (some n) d u e = e

  locks-position : (t : Thread C) (m : RwMutex) → LeadsTo (advance (position t) m) (locks t)
  locks-position (started (write w)) m = leads _ _ (pending w) refl
  locks-position (started (find h)) m = leads _ _ (finding h) refl
  locks-position (started (scan (of_query f))) m = leads _ _ (scanning (of_query f)) refl
  locks-position (started (scan of_all)) m = leads _ _ (all_begun) refl
  locks-position (pending w) m = leads _ _ (writing w) refl
  locks-position (writing w) m = tt
  locks-position (wrote w) m = leads _ _ (answered (write w) done) refl
  locks-position (finding h) m = tt
  locks-position (found_it h o) m = leads _ _ (answered (find h) (found o)) refl
  locks-position all_begun m = leads _ _ (scanning of_all) refl
  locks-position (scanning c) m = tt
  locks-position (visiting c todo acc) m = tt
  locks-position (scanned (of_query f) o) m =
      leads _ _ (answered (scan (of_query f)) (matches o)) refl
  locks-position (scanned of_all o) m = leads _ _ (all_returning o) refl
  locks-position (all_returning o) m = leads _ _ (answered (scan of_all) (matches o)) refl
  locks-position (answered q a) m = tt

  -- The position after a step that is not on the mutex.
  abbrev Stays : Thread C → Option (Thread C × GoMap C) → Type 0
  Stays t none = Unit
  Stays t (some (u, r)) = position u ≡ position t

  visited_stays :
      (c : Scan C) (todo : GoMap C) (acc : List C) (d : C) (o : Outcome Bool)
      → position (visited c todo acc d o) ≡ scan_position c
  visited_stays c todo acc d (ok b) = refl
  visited_stays c todo acc d (fail e) = refl
  visited_stays c todo acc d (panic m) = refl

  visit_stays :
      (c : Scan C) (todo : GoMap C) (acc : List C) (o : Option C)
      → position (visit c todo acc o) ≡ scan_position c
  visit_stays c todo acc none = refl
  visit_stays c todo acc (some d) = visited_stays c todo acc d (filter_of c d)

module _ {C : Type 0} (handle : C → Str) where
  works-position : (s : GoMap C) (t : Thread C) → Stays t (works handle s t)
  works-position s (writing w) = refl
  works-position s (finding h) = refl
  works-position s (visiting c [] acc) = refl
  works-position s (visiting c ((k, d) ∷ todo) acc) = visit_stays c todo acc (GoMap.get k s)
  works-position s (started q) = tt
  works-position s (pending w) = tt
  works-position s (wrote w) = tt
  works-position s (found_it k o) = tt
  works-position s all_begun = tt
  works-position s (scanning c) = tt
  works-position s (scanned c o) = tt
  works-position s (all_returning o) = tt
  works-position s (answered q a) = tt

  Acts-position :
      {m n : RwMutex} {s r : GoMap C} {t u : Thread C}
      → Acts handle m s t n r u
      → (advance (position t) m ≡ some (position u, n)) ⊎ ((n ≡ m) × (position u ≡ position t))
  Acts-position {m = m} {t = t} (on_mutex {u = u} {d = d} {n = n} l a) =
      let leads_to = subst (λ x. LeadsTo x (locks t)) a (locks-position t m) in
      let same = subst (LeadsTo (some (d, n))) l leads_to in
      inl (a ∙ ap (λ (x : Call). some (x, n)) same)
  Acts-position {s = s} {t = t} (on_store w) = inr (refl, subst (Stays t) w (works-position s t))
  Acts-position (ranges c es e p) = inr (refl, sym (ap position e))

  -- A step of several calls is a step on the mutex, or leaves the mutex and all positions alone.
  pub Moves-position :
      {m n : RwMutex} {s r : GoMap C} {ts us : List (Thread C)}
      → Moves handle m s n r ts us
      → Locking.Moves m n (positions ts) (positions us) ⊎ ((n ≡ m) × (positions us ≡ positions ts))
  Moves-position (first t u ts a) = elim (Acts-position a) [
    | inl e ↦ inl (Locking.Moves.first _ _ _ e)
    | inr (e, p) ↦ inr (e, ap (λ (c : Call). c ∷ positions ts) p)
  ]
  Moves-position (later t ts us p) = elim (Moves-position p) [
    | inl q ↦ inl (Locking.Moves.later _ _ _ q)
    | inr (e, q) ↦ inr (e, ap (λ (cs : List Call). position t ∷ cs) q)
  ]
