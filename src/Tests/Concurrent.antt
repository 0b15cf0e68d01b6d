-- ===== src/Tests/Concurrent.antt =====
-- Concurrent calls of the repository's methods, with a store.
use mathlib.Core.List.{Permᴰ}
use mathlib.Core.List.Permᴰ
use garden_docker.Base.{Str, txt, str_dec, true, List, [], ◌∷◌, ◌++◌, refl, ok}
use garden_docker.Base.GoMap
use garden_docker.Base.GoMap.{GoMap}
use garden_docker.Repo.{add}
use garden_docker.Repo.Locking.{unlocked, RwMutex, holds, nobody}
use garden_docker.Repo.Concurrent.{
  adds, of_query, Request, write, scan, done, Thread, wrote, started, answered, scanned, Entry,
  on_mutex, on_store, ranges, first, later, Goes, here, next, all_started,
}
use garden_docker.Repo.Concurrent.Steps.{decisions}
use garden_docker.Repo.Laws.{IsWellFormed}
use garden_docker.Repo.Abstract.{History}
use garden_docker.Repo.Abstract.Histories.{held_in, allowed_in_order}

-- A container is its handle.
abbrev name : Str → Str
name c = c

abbrev one : Str
one = txt "one"

abbrev requests : List (Request Str)
requests = write (adds one) ∷ scan (of_query (λ c. ok true)) ∷ []

abbrev with_one : GoMap Str
with_one = (one, one) ∷ []

abbrev locked : RwMutex
locked = record { readers = 0; writer = holds }

abbrev read_locked : RwMutex
read_locked = record { readers = 1; writer = nobody }

-- The new container is in the store, and the lock still held.
abbrev half_way : List (Thread Str)
half_way = wrote (adds one) ∷ started (scan (of_query (λ c. ok true))) ∷ []

abbrev at_end : List (Thread Str)
at_end = answered (write (adds one)) done ∷ scanned (of_query (λ c. ok true)) (ok (one ∷ [])) ∷ []

goes_half_way : Goes name unlocked [] (all_started requests) locked with_one half_way
unfolding add GoMap.put txt
goes_half_way =
    next (next (next here (first _ _ _ (on_mutex refl refl))) (first _ _ _ (on_mutex refl refl)))
      (first _ _ _ (on_store refl))

goes_to_end : Goes name locked with_one half_way read_locked with_one at_end
unfolding GoMap.get txt str_dec
goes_to_end =
    next
      (next
        (next
          (next (next here (first _ _ _ (on_mutex refl refl)))
            (later _ _ _ (first _ _ _ (on_mutex refl refl))))
          (later _ _ _
            (first _ _ _ (ranges (of_query (λ c. ok true)) with_one refl (Permᴰ.refl with_one)))))
        (later _ _ _ (first _ _ _ (on_store refl))))
      (later _ _ _ (first _ _ _ (on_store refl)))

empty-IsWellFormed : IsWellFormed name (record { store = [] })
unfolding GoMap.get
empty-IsWellFormed = record { nodup = tt; own_handle = λ h c p. cc }

allowed_in_order_example :
    (before : List (Entry Str)) × (after : List (Entry Str)) × History name
      (held_in name [])
      before
      (held_in name with_one)
    × History name (held_in name with_one) after (held_in name with_one)
    × Permᴰ (decisions half_way) before
    × Permᴰ (decisions at_end) (after ++ before)
allowed_in_order_example =
    allowed_in_order name requests [] with_one with_one locked read_locked half_way at_end
      empty-IsWellFormed goes_half_way goes_to_end
