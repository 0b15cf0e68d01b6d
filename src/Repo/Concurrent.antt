-- ===== src/Repo/Concurrent.antt =====
-- repo.go under concurrent calls, with the store: what each call reads and writes between its steps
-- on the mutex, which Repo/Locking has. Query's loop visits the store as it is at that moment.
pub mod Effect
pub mod Position
pub mod Steps
pub mod Atomic
pub mod Loop
use mathlib.Core.List.{Permᴰ}
use garden_docker.Base.{
  Str, Bool, true, Option, none, some, List, [], ◌∷◌, ◌++◌, ◌≡◌, Outcome, ok, fail, panic,
  if◌then◌else◌,
}
use garden_docker.Base.GoMap
use garden_docker.Base.GoMap.{GoMap}
use garden_docker.Repo.{find_by_handle, add, delete}
use garden_docker.Repo.Locking.{
  RwMutex, unlocked, Call, read_start, read_locked, write_start, write_waiting, write_locked,
  all_start, all_locked, all_locked_twice, all_query_returned, returned, advance,
}

-- A call that writes.
pub data Write (C : Type 0) : Type 0 where
  adds deletes : C → Write C

-- A call of Query with its filter, or of All.
pub data Scan (C : Type 0) : Type 0 where
  of_query : (C → Outcome Bool) → Scan C
  of_all : Scan C

pub data Request (C : Type 0) : Type 0 where
  write : Write C → Request C
  find : Str → Request C
  scan : Scan C → Request C

pub data Answer (C : Type 0) : Type 0 where
  done : Answer C
  found : Outcome C → Answer C
  matches : Outcome (List C) → Answer C

-- A call, by how far it is, with what it has read. `visiting` has the entries of the store that the
-- loop has yet to visit and the matches so far. `wrote`, `found_it` and `scanned` still hold the
-- lock; `all_returning` is All when Query has released its own.
pub data Thread (C : Type 0) : Type 0 where
  started : Request C → Thread C
  pending writing wrote : Write C → Thread C
  finding : Str → Thread C
  found_it : Str → Outcome C → Thread C
  all_begun : Thread C
  scanning : Scan C → Thread C
  visiting : Scan C → GoMap C → List C → Thread C
  scanned : Scan C → Outcome (List C) → Thread C
  all_returning : Outcome (List C) → Thread C
  answered : Request C → Answer C → Thread C

abbrev pub Entry : Type 0 → Type 0
Entry C = Request C × Answer C

module _ {C : Type 0} where
  abbrev pub filter_of : Scan C → C → Outcome Bool
  filter_of (of_query filter) c = filter c
  filter_of of_all c = ok true

  abbrev scan_position : Scan C → Call
  scan_position (of_query filter) = read_locked
  scan_position of_all = all_locked_twice

  -- How far the call is with the mutex.
  abbrev pub position : Thread C → Call
  position (started (write w)) = write_start
  position (started (find h)) = read_start
  position (started (scan (of_query filter))) = read_start
  position (started (scan of_all)) = all_start
  position (pending w) = write_waiting
  position (writing w) = write_locked
  position (wrote w) = write_locked
  position (finding h) = read_locked
  position (found_it h o) = read_locked
  position all_begun = all_locked
  position (scanning s) = scan_position s
  position (visiting s todo acc) = scan_position s
  position (scanned s o) = scan_position s
  position (all_returning o) = all_query_returned
  position (answered q a) = returned

  -- The call after its next step on the mutex, where that is what it does next.
  abbrev pub locks : Thread C → Option (Thread C)
  locks (started (write w)) = some (pending w)
  locks (started (find h)) = some (finding h)
  locks (started (scan (of_query filter))) = some (scanning (of_query filter))
  locks (started (scan of_all)) = some all_begun
  locks (pending w) = some (writing w)
  locks (writing w) = none
  locks (wrote w) = some (answered (write w) done)
  locks (finding h) = none
  locks (found_it h o) = some (answered (find h) (found o))
  locks all_begun = some (scanning of_all)
  locks (scanning s) = none
  locks (visiting s todo acc) = none
  locks (scanned (of_query filter) o) = some (answered (scan (of_query filter)) (matches o))
  locks (scanned of_all o) = some (all_returning o)
  locks (all_returning o) = some (answered (scan of_all) (matches o))
  locks (answered q a) = none

  -- One round of Query's loop, for what the filter says of the container that is visited.
  abbrev pub visited : Scan C → GoMap C → List C → C → Outcome Bool → Thread C
  visited s todo acc c (ok b) = visiting s todo (if b then acc ++ (c ∷ []) else acc)
  visited s todo acc c (fail e) = scanned s (fail e)
  visited s todo acc c (panic m) = scanned s (panic m)

  -- The entry of the next key, as the store has it now: one that is gone is not visited.
  abbrev pub visit : Scan C → GoMap C → List C → Option C → Thread C
  visit s todo acc none = visiting s todo acc
  visit s todo acc (some c) = visited s todo acc c (filter_of s c)

  -- What a call has decided, from the step on that reads or writes the store for the last time.
  abbrev pub decided : Thread C → List (Entry C)
  decided (wrote w) = (write w, done) ∷ []
  decided (found_it h o) = (find h, found o) ∷ []
  decided (scanned s o) = (scan s, matches o) ∷ []
  decided (all_returning o) = (scan of_all, matches o) ∷ []
  decided (answered q a) = (q, a) ∷ []
  decided _ = []

module _ {C : Type 0} (handle : C → Str) where
  abbrev pub written : Write C → GoMap C → GoMap C
  written (adds c) s = (add handle (record { store = s }) c).store
  written (deletes c) s = (delete handle (record { store = s }) c).store

  -- The step of a call between its steps on the mutex: the call and the store after it. The start
  -- of Query's loop, which chooses an order, is not among them.
  abbrev pub works : GoMap C → Thread C → Option (Thread C × GoMap C)
  works s (writing w) = some (wrote w, written w s)
  works s (finding h) = some (found_it h (find_by_handle (record { store = s }) h), s)
  works s (visiting c [] acc) = some (scanned c (ok acc), s)
  works s (visiting c ((k, _) ∷ todo) acc) = some (visit c todo acc (GoMap.get k s), s)
  works s _ = none

  -- A call makes a step, with the mutex and the store before and after.
  pub data Acts (m : RwMutex) (s : GoMap C) (t : Thread C)
      : RwMutex → GoMap C → Thread C → Type 0 where
    on_mutex :
        {u : Thread C} {d : Call} {n : RwMutex}
        → locks t ≡ some u
        → advance (position t) m ≡ some (d, n)
        → Acts m s t n s u
    on_store : {u : Thread C} {r : GoMap C} → works s t ≡ some (u, r) → Acts m s t m r u
    ranges :
        (c : Scan C) (es : GoMap C)
        → t ≡ scanning c
        → Permᴰ es s
        → Acts m s t m s (visiting c es [])

  -- One call of several makes a step.
  pub data Moves (m : RwMutex) (s : GoMap C) (n : RwMutex) (r : GoMap C)
      : List (Thread C) → List (Thread C) → Type 0 where
    first :
        (t u : Thread C) (ts : List (Thread C)) → Acts m s t n r u → Moves m s n r (t ∷ ts) (u ∷ ts)
    later :
        (t : Thread C) (ts us : List (Thread C))
        → Moves m s n r ts us
        → Moves m s n r (t ∷ ts) (t ∷ us)

  -- The steps that several calls make.
  pub data Goes (m : RwMutex) (s : GoMap C) (ts : List (Thread C))
      : RwMutex → GoMap C → List (Thread C) → Type 0 where
    here : Goes m s ts m s ts
    next :
        {n l : RwMutex} {r q : GoMap C} {us vs : List (Thread C)}
        → Goes m s ts n r us
        → Moves n r l q us vs
        → Goes m s ts l q vs

-- Calls that have not begun.
abbrev pub all_started : {C : Type 0} → List (Request C) → List (Thread C)
all_started [] = []
all_started (q ∷ qs) = started q ∷ all_started qs
