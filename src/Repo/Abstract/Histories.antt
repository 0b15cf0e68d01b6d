-- ===== src/Repo/Abstract/Histories.antt =====
-- repo.go's methods, one at a time and at once, against the abstract map.
use garden_docker.Base.{
  Str, Bool, Option, none, some, List, ◌++◌, ◌≡◌, ◌↔◌, refl, sym, ap, ◌∙◌, Outcome, ok, fail,
  container_not_found, arith,
}
use mathlib.Core.List.{Permᴰ}
use mathlib.Core.List.Permᴰ
use mathlib.Core.Path.{subst}
use garden_docker.Base.GoMap
use garden_docker.Base.GoMap.{
  GoMap, In, In-Permᴰ, HasNodupKeys, In-of_get, get_of_In, get-put, get-delete,
}
use garden_docker.Base.GoMap.Same.{HasNodupKeys-Permᴰ}
use garden_docker.Repo.{found_or_not, matching, find_by_handle, add, delete}
use garden_docker.Repo.Laws.{IsWellFormed, IsWellFormed-operations}
use garden_docker.Repo.Locking.{RwMutex, unlocked}
use garden_docker.Repo.Concurrent.{
  adds, deletes, Request, write, find, scan, Answer, found, Entry, filter_of, Thread, Goes,
  all_started,
}
use garden_docker.Repo.Concurrent.Effect.{Answers, Runs, stop, then_one}
use garden_docker.Repo.Concurrent.Steps.{decisions}
use garden_docker.Repo.Concurrent.Atomic.{decided_in_order}
use garden_docker.Repo.Abstract.{
  Held, held_after, Scanned, listed, stopped, Allows, History, unasked, then_asked,
}
use garden_docker.Repo.Abstract.Scans.{UnderOwn, met_all, met_failing, matching-Met}

module _ {C : Type 0} (handle : C → Str) where
  -- The store holds what is held.
  pub record Represents (s : GoMap C) (held : Held C) : Type 0 where
    pub well_formed : IsWellFormed handle (record { store = s })
    pub holds : (h : Str) → GoMap.get h s ≡ held h

  In-held :
      (s es : GoMap C) (held : Held C) (c : C)
      → Represents s held
      → Permᴰ es s
      → In (handle c, c) es ↔ (held (handle c) ≡ some c)
  In-held s es held c r p = (
    λ i.
        sym (r.holds (handle c))
        ∙ get_of_In (handle c) c s r.well_formed.nodup (In-Permᴰ p (handle c, c) i),
    λ h. In-Permᴰ (Permᴰ.symm p) (handle c, c) (In-of_get (handle c) c s (r.holds (handle c) ∙ h)),
  )

  pub matching-Scanned :
      (filter : C → Outcome Bool) (s es : GoMap C) (held : Held C)
      → Represents s held
      → Permᴰ es s
      → Scanned handle filter held (matching filter es)
  matching-Scanned filter s es held r p =
      let own : UnderOwn handle filter es = λ k c i.
        r.well_formed.own_handle k c (get_of_In k c s r.well_formed.nodup (In-Permᴰ p (k, c) i)) in
      let nodup = HasNodupKeys-Permᴰ (Permᴰ.symm p) r.well_formed.nodup in
      elim (matching-Met handle filter es nodup own) [
        | met_all cs e distinct exact ↦ listed cs e (record {
          distinct = distinct;
          exact = λ c. (
            λ i. let (passes, there) = (exact c).0 i in (passes, (In-held s es held c r p).0 there),
            λ (passes, there). (exact c).1 (passes, (In-held s es held c r p).1 there),
          );
        })
        | met_failing c i e ↦ stopped c ((In-held s es held c r p).0 i) e
      ]

  found_as :
      (o p : Option C) (h : Str)
      → o ≡ p
      → found_or_not h o ≡ elim p [ none ↦ fail (container_not_found h) | some c ↦ ok c ]
  found_as none p h e = ground arith
  found_as (some c) p h e = ground arith

  Answers-Allows :
      (s r : GoMap C) (held : Held C) (q : Request C) (a : Answer C)
      → Represents s held
      → Answers handle s q a r
      → Allows handle held q a × Represents r (held_after handle q held)
  unfolding find_by_handle add delete
  Answers-Allows s r held (write (adds c)) a rep (e, p) =
      let operations = IsWellFormed-operations handle (record { store = s }) c rep.well_formed in
      (
        e,
        subst (λ x. Represents x (held_after handle (write (adds c)) held)) (sym p)
            (record {
              well_formed = operations.1;
              holds = λ h. ground (arith, get-put (handle c) h c s, rep.holds h);
            }),
      )
  Answers-Allows s r held (write (deletes c)) a rep (e, p) =
      let operations = IsWellFormed-operations handle (record { store = s }) c rep.well_formed in
      (
        e,
        subst (λ x. Represents x (held_after handle (write (deletes c)) held)) (sym p)
            (record {
              well_formed = operations.2;
              holds = λ h. ground (arith, get-delete (handle c) h s, rep.holds h);
            }),
      )
  Answers-Allows s r held (find h) a rep (e, p) = (
    e ∙ ap found (found_as (GoMap.get h s) (held h) h (rep.holds h)),
    subst (λ x. Represents x held) (sym p) rep,
  )
  Answers-Allows s r held (scan c) a rep (es, perm, e, p) = (
    (matching (filter_of c) es, e, matching-Scanned (filter_of c) s es held rep perm),
    subst (λ x. Represents x held) (sym p) rep,
  )

  -- Requests that are answered one after another.
  Runs-History :
      {s r : GoMap C} {entries : List (Entry C)} (held : Held C)
      → Represents s held
      → Runs handle s entries r
      → (after : Held C) × History handle held entries after × Represents r after
  Runs-History held rep stop = (held, unasked, rep)
  Runs-History held rep (then_one {r = r} {q = q} req a runs x) =
      let (middle, history, represents) = Runs-History held rep runs in
      let (allowed, then_held) = Answers-Allows r q middle req a represents x in
      (held_after handle req middle, then_asked req a history allowed, then_held)

  -- What a store holds.
  abbrev pub held_in : GoMap C → Held C
  held_in s h = GoMap.get h s

  Runs-held_in :
      {s r : GoMap C} {entries : List (Entry C)}
      → IsWellFormed handle (record { store = s })
      → Runs handle s entries r
      → History handle (held_in s) entries (held_in r) × IsWellFormed handle (record { store = r })
  Runs-held_in {s} {r} {entries} w runs =
      let (after, history, rep) =
        Runs-History (held_in s) (record { well_formed = w; holds = λ h. refl }) runs in
      (
        subst (λ x. History handle (held_in s) entries x) (λ i h. sym (rep.holds h) i) history,
        rep.well_formed,
      )

  -- However many calls run at once on a well-formed repository, and in whatever order they take
  -- their steps, on the mutex and on the store: what the calls have decided by any time, in some
  -- order, is what a plain map from handles to containers allows the same requests one after
  -- another, from the one that the store held to the one that it holds then; and what is decided
  -- after any time comes after all that was decided before. The map allows FindByHandle what stands
  -- under the handle or the error with the handle, and Query and All each container that it has under
  -- the container's own handle and that passes the filter, once and in any order, or else a failure
  -- of the filter on one that it has; Add and Delete change it at one handle.
  pub allowed_in_order :
      (qs : List (Request C)) (s r q : GoMap C) (m n : RwMutex) (ts us : List (Thread C))
      → IsWellFormed handle (record { store = s })
      → Goes handle unlocked s (all_started qs) m r ts
      → Goes handle m r ts n q us
      → (before : List (Entry C)) × (after : List (Entry C)) × History handle
          (held_in s)
          before
          (held_in r)
        × History handle (held_in r) after (held_in q)
        × Permᴰ (decisions ts) before
        × Permᴰ (decisions us) (after ++ before)
  allowed_in_order qs s r q m n ts us w g k =
      let (before, after, first, second, begun, all_decided) =
        decided_in_order handle qs s r q m n ts us w.nodup g k in
      let (history, w') = Runs-held_in w first in
      (before, after, history, (Runs-held_in w' second).0, begun, all_decided)
