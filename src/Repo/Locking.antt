-- ===== src/Repo/Locking.antt =====
-- repo.go under concurrent calls: how the calls of the repository's methods take and release its
-- RWMutex. What a method does to the store under the lock is in Repo.
pub mod Exclusion
pub mod Progress
pub mod Returning
use garden_docker.Base.{ℕ, zero, suc, ◌+◌, Option, none, some, List, [], ◌∷◌, ◌≡◌, refl}

-- A writer has called Lock and waits for the readers to leave, or holds the lock.
pub data Writer : Type 0 where
  nobody waits holds : Writer

-- Go's `sync.RWMutex`: the number of read locks that are held, and the writer.
pub record RwMutex : Type 0 where
  pub readers : ℕ
  pub writer : Writer

abbrev pub unlocked : RwMutex
unlocked = record { readers = 0; writer = nobody }

-- A call of a method, by how far it is. FindByHandle and Query take the read lock, Add and Delete
-- the write lock, in the two steps of `Lock`; All takes the read lock, and calls Query, which
-- takes it again.
pub data Call : Type 0 where
  read_start read_locked : Call
  write_start write_waiting write_locked : Call
  all_start all_locked all_locked_twice all_query_returned : Call
  returned : Call

-- `RLock`, of the number of readers and the writer; none means that it blocks.
abbrev pub r_lock : ℕ → Writer → Option RwMutex
r_lock n nobody = some (record { readers = suc n; writer = nobody })
r_lock n waits = none
r_lock n holds = none

abbrev pub r_unlock : ℕ → Writer → Option RwMutex
r_unlock zero w = none
r_unlock (suc n) w = some (record { readers = n; writer = w })

-- The first step of `Lock` keeps new readers out, the second waits for the present ones to leave.
abbrev pub announce : ℕ → Writer → Option RwMutex
announce n nobody = some (record { readers = n; writer = waits })
announce n waits = none
announce n holds = none

abbrev pub acquire : ℕ → Writer → Option RwMutex
acquire zero waits = some (record { readers = 0; writer = holds })
acquire zero nobody = none
acquire zero holds = none
acquire (suc n) w = none

abbrev pub unlock : ℕ → Writer → Option RwMutex
unlock n holds = some (record { readers = n; writer = nobody })
unlock n nobody = none
unlock n waits = none

abbrev pub becoming : Call → Option RwMutex → Option (Call × RwMutex)
becoming c none = none
becoming c (some m) = some (c, m)

-- The next step of a call, or none while the mutex blocks it and after it has returned.
abbrev pub advance : Call → RwMutex → Option (Call × RwMutex)
advance read_start m = becoming read_locked (r_lock m.readers m.writer)
advance read_locked m = becoming returned (r_unlock m.readers m.writer)
advance write_start m = becoming write_waiting (announce m.readers m.writer)
advance write_waiting m = becoming write_locked (acquire m.readers m.writer)
advance write_locked m = becoming returned (unlock m.readers m.writer)
advance all_start m = becoming all_locked (r_lock m.readers m.writer)
advance all_locked m = becoming all_locked_twice (r_lock m.readers m.writer)
advance all_locked_twice m = becoming all_query_returned (r_unlock m.readers m.writer)
advance all_query_returned m = becoming returned (r_unlock m.readers m.writer)
advance returned m = none

-- One call of several makes a step.
pub data Moves (m n : RwMutex) : List Call → List Call → Type 0 where
  first : (c d : Call) (cs : List Call) → advance c m ≡ some (d, n) → Moves m n (c ∷ cs) (d ∷ cs)
  later : (c : Call) (cs ds : List Call) → Moves m n cs ds → Moves m n (c ∷ cs) (c ∷ ds)

-- A call that has not begun.
pub data IsStart : Call → Type 0 where
  read : IsStart read_start
  write : IsStart write_start
  all : IsStart all_start

abbrev pub AllStart : List Call → Type 0
AllStart [] = Unit
AllStart (c ∷ cs) = IsStart c × AllStart cs

-- The mutex and the calls, from calls that have not begun on.
pub data Reaches (start : List Call) : RwMutex → List Call → Type 0 where
  here : Reaches start unlocked start
  next :
      {m n : RwMutex} {cs ds : List Call}
      → Reaches start m cs
      → Moves m n cs ds
      → Reaches start n ds
