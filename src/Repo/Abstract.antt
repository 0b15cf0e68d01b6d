-- ===== src/Repo/Abstract.antt =====
-- What repo.go promises: a finite map from handles to containers, which says what each request may
-- be answered and what is held after it.
pub mod Scans
pub mod Histories
use garden_docker.Base.{
  Str, Bool, true, Option, none, some, List, [], ◌∷◌, ◌≡◌, ◌↔◌, Outcome, ok, fail,
  container_not_found, ◌==◌, if◌then◌else◌,
}
use garden_docker.Base.Binds.{ended}
use garden_docker.Base.GoMap.{In}
use garden_docker.Repo.Concurrent.{
  Write, adds, deletes, Scan, Request, write, find, scan, Answer, done, found, matches, Entry,
  filter_of,
}

-- The containers by their handles.
abbrev pub Held : Type 0 → Type 0
Held C = Str → Option C

-- No element stands twice.
abbrev pub AreDistinct : {C : Type 0} → List C → Type 0
AreDistinct [] = Unit
AreDistinct (c ∷ cs) = (¬ (In c cs)) × AreDistinct cs

module _ {C : Type 0} (handle : C → Str) where
  -- What is held after a request.
  abbrev pub held_after : Request C → Held C → Held C
  held_after (write (adds c)) held h = if handle c == h then some c else held h
  held_after (write (deletes c)) held h = if handle c == h then none else held h
  held_after (find _) held h = held h
  held_after (scan _) held h = held h

  -- Each container that is held under its handle and passes the filter, once.
  pub record Lists (filter : C → Outcome Bool) (held : Held C) (cs : List C) : Type 0 where
    pub distinct : AreDistinct cs
    pub exact : (c : C) → In c cs ↔ ((filter c ≡ ok true) × (held (handle c) ≡ some c))

  -- What Query may come to: such a list, or the failure of its filter on a container that is held.
  pub data Scanned (filter : C → Outcome Bool) (held : Held C) (o : Outcome (List C)) : Type 0 where
    listed : (cs : List C) → o ≡ ok cs → Lists filter held cs → Scanned filter held o
    stopped :
        (c : C)
        → held (handle c) ≡ some c
        → ended (λ e. e) (filter c) ≡ some o
        → Scanned filter held o

  abbrev pub found_in : Held C → Str → Outcome C
  found_in held h = elim (held h) [ none ↦ fail (container_not_found h) | some c ↦ ok c ]

  -- The answers that a request may have.
  abbrev pub Allows : Held C → Request C → Answer C → Type 0
  Allows held (write w) a = a ≡ done
  Allows held (find h) a = a ≡ found (found_in held h)
  Allows held (scan s) a = (o : Outcome (List C)) × (a ≡ matches o) × Scanned (filter_of s) held o

  -- Requests with answers that they may have one after another, the latest first.
  pub data History (before : Held C) : List (Entry C) → Held C → Type 0 where
    unasked : History before [] before
    then_asked :
        {entries : List (Entry C)} {held : Held C} (q : Request C) (a : Answer C)
        → History before entries held
        → Allows held q a
        → History before ((q, a) ∷ entries) (held_after q held)
