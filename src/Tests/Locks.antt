-- ===== src/Tests/Locks.antt =====
-- Concurrent calls of the repository's methods.
use garden_docker.Base.{List, [], ◌∷◌, ◌≡◌, ◌⊎◌, ◌≤◌, refl}
use garden_docker.Repo.Locking.{
  waits, Call, read_start, read_locked, write_start, write_waiting, all_start, read, write,
  AllStart, Reaches, here, next, first, later,
}
use garden_docker.Repo.Locking.Returning.{steps_left, at_start, one_more, others_return}
use garden_docker.Repo.Locking.Exclusion.{read_locks, is_writing, total, writer_alone}
use garden_docker.Repo.Locking.Progress.{
  CanMove, is_open, is_between, embraced, held_up, moves_or_between, all_deadlocks,
}

abbrev lookup_and_create : List Call
lookup_and_create = read_start ∷ write_start ∷ []

lookup_and_create-AllStart : AllStart lookup_and_create
lookup_and_create-AllStart = (read, (write, tt))

-- The lookup has the lock, and the creation waits for it.
waiting_reached : Reaches lookup_and_create held_up (read_locked ∷ write_waiting ∷ [])
waiting_reached = next (next here (first _ _ _ refl)) (later _ _ _ (first _ _ _ refl))

writer_alone_example :
    (total is_writing (read_locked ∷ write_waiting ∷ []) ≡ 0)
    ⊎ ((total is_writing (read_locked ∷ write_waiting ∷ []) ≡ 1)
        × (total read_locks (read_locked ∷ write_waiting ∷ []) ≡ 0))
writer_alone_example =
    writer_alone lookup_and_create held_up (read_locked ∷ write_waiting ∷ [])
      lookup_and_create-AllStart waiting_reached

moves_or_between_example :
    CanMove held_up (read_locked ∷ write_waiting ∷ [])
    ⊎ ((total is_open (read_locked ∷ write_waiting ∷ []) ≡ 0)
        ⊎ ((held_up.writer ≡ waits) × (1 ≤ total is_between (read_locked ∷ write_waiting ∷ []))))
moves_or_between_example =
    moves_or_between lookup_and_create held_up (read_locked ∷ write_waiting ∷ [])
      lookup_and_create-AllStart waiting_reached

all_deadlocks_example :
    Reaches (all_start ∷ write_start ∷ lookup_and_create) held_up (embraced lookup_and_create)
    × (¬ CanMove held_up (embraced lookup_and_create))
all_deadlocks_example = all_deadlocks lookup_and_create lookup_and_create-AllStart

-- The lookup has taken the lock, and the creation waits for it.
others_return_example :
    (CanMove held_up (read_locked ∷ write_waiting ∷ [])
      ⊎ (total is_open (read_locked ∷ write_waiting ∷ []) ≡ 0))
    × (2 ≤ total steps_left lookup_and_create)
    × (total is_open (read_locked ∷ write_waiting ∷ []) ≡ 0
        → 2 ≡ total steps_left lookup_and_create)
others_return_example =
    others_return lookup_and_create 2 held_up (read_locked ∷ write_waiting ∷ [])
      lookup_and_create-AllStart refl
      (one_more (one_more at_start (first _ _ _ refl)) (later _ _ _ (first _ _ _ refl)))
