-- ===== src/Repo/Locking/Exclusion.antt =====
-- What the mutex of repo.go knows of the concurrent calls, and who holds it.
use garden_docker.Base.{ℕ, ◌+◌, ◌≤◌, some, List, [], ◌∷◌, ◌≡◌, refl, arith, sym, ◌∙◌, ◌⊎◌}
use garden_docker.Repo.Locking.{
  Writer, nobody, waits, holds, RwMutex, unlocked, Call, read_start, read_locked, write_start,
  write_waiting, write_locked, all_start, all_locked, all_locked_twice, all_query_returned,
  returned, read, write, all, advance, Moves, first, later, IsStart, AllStart, Reaches, here, next,
}

-- The read locks that a call holds.
abbrev pub read_locks : Call → ℕ
read_locks read_locked = 1
read_locks all_locked = 1
read_locks all_locked_twice = 2
read_locks all_query_returned = 1
read_locks _ = 0

-- Whether a call waits for the write lock, or holds it, as 1 or 0.
abbrev pub is_waiting : Call → ℕ
is_waiting write_waiting = 1
is_waiting _ = 0

abbrev pub is_writing : Call → ℕ
is_writing write_locked = 1
is_writing _ = 0

abbrev pub total : (Call → ℕ) → List Call → ℕ
total f [] = 0
total f (c ∷ cs) = f c + total f cs

-- The writers that a mutex knows of, waiting and holding.
abbrev pub waiting_in : Writer → ℕ
waiting_in nobody = 0
waiting_in waits = 1
waiting_in holds = 0

abbrev pub holding_in : Writer → ℕ
holding_in nobody = 0
holding_in waits = 0
holding_in holds = 1

-- The mutex counts the locks that the calls hold, and a writer holds it while nobody reads.
pub record Counts (m : RwMutex) (readers waiting writing : ℕ) : Type 0 where
  pub counts_readers : m.readers ≡ readers
  pub counts_waiting : waiting_in m.writer ≡ waiting
  pub counts_writing : holding_in m.writer ≡ writing
  pub alone : 1 ≤ writing → readers ≡ 0

-- A step of one call keeps the counts, whatever the others hold.
advance-Counts :
    (c d : Call) (m n : RwMutex) (r w h : ℕ)
    → advance c m ≡ some (d, n)
    → Counts m (read_locks c + r) (is_waiting c + w) (is_writing c + h)
    → Counts n (read_locks d + r) (is_waiting d + w) (is_writing d + h)
advance-Counts read_start d m n r w h e k = ground arith
advance-Counts read_locked d m n r w h e k = ground arith
advance-Counts write_start d m n r w h e k = ground arith
advance-Counts write_waiting d m n r w h e k = ground arith
advance-Counts write_locked d m n r w h e k = ground arith
advance-Counts all_start d m n r w h e k = ground arith
advance-Counts all_locked d m n r w h e k = ground arith
advance-Counts all_locked_twice d m n r w h e k = ground arith
advance-Counts all_query_returned d m n r w h e k = ground arith
advance-Counts returned d m n r w h e k = ground arith

Counts-cong :
    (m : RwMutex) (r s w x h i : ℕ) → Counts m r w h → r ≡ s → w ≡ x → h ≡ i → Counts m s x i
Counts-cong m r s w x h i k a b c = record {
  counts_readers = k.counts_readers ∙ a;
  counts_waiting = k.counts_waiting ∙ b;
  counts_writing = k.counts_writing ∙ c;
  alone = λ p. sym a ∙ k.alone (ground arith);
}

Moves-Counts :
    (m n : RwMutex) (cs ds : List Call) (r w h : ℕ)
    → Moves m n cs ds
    → Counts m (total read_locks cs + r) (total is_waiting cs + w) (total is_writing cs + h)
    → Counts n (total read_locks ds + r) (total is_waiting ds + w) (total is_writing ds + h)
Moves-Counts m n _ _ r w h (first c d cs e) k =
    Counts-cong n _ _ _ _ _ _
      (advance-Counts c d m n (total read_locks cs + r) (total is_waiting cs + w)
        (total is_writing cs + h) e
        (Counts-cong m _ _ _ _ _ _ k (omega arith) (omega arith) (omega arith)))
      (omega arith) (omega arith) (omega arith)
Moves-Counts m n _ _ r w h (later c cs ds p) k =
    Counts-cong n _ _ _ _ _ _
      (Moves-Counts m n cs ds (read_locks c + r) (is_waiting c + w) (is_writing c + h) p
        (Counts-cong m _ _ _ _ _ _ k (omega arith) (omega arith) (omega arith)))
      (omega arith) (omega arith) (omega arith)

start_nothing :
    (c : Call) → IsStart c → (read_locks c ≡ 0) × (is_waiting c ≡ 0) × (is_writing c ≡ 0)
start_nothing _ read = (refl, refl, refl)
start_nothing _ write = (refl, refl, refl)
start_nothing _ all = (refl, refl, refl)

total-AllStart :
    (cs : List Call)
    → AllStart cs
    → (total read_locks cs ≡ 0) × (total is_waiting cs ≡ 0) × (total is_writing cs ≡ 0)
total-AllStart [] a = (refl, refl, refl)
total-AllStart (c ∷ cs) a =
    let (p, q, r) = start_nothing c a.0 in
    let (x, y, z) = total-AllStart cs a.1 in (omega arith, omega arith, omega arith)

-- The counts of the whole.
abbrev pub CountsAll : RwMutex → List Call → Type 0
CountsAll m cs = Counts m (total read_locks cs) (total is_waiting cs) (total is_writing cs)

pub unlocked-Counts : (cs : List Call) → AllStart cs → CountsAll unlocked cs
unlocked-Counts cs a =
    let (p, q, r) = total-AllStart cs a in
    record {
      counts_readers = sym p;
      counts_waiting = sym q;
      counts_writing = sym r;
      alone = λ h. p;
    }

pub Moves-CountsAll :
    (m n : RwMutex) (cs ds : List Call) → Moves m n cs ds → CountsAll m cs → CountsAll n ds
Moves-CountsAll m n cs ds p k =
    Counts-cong n _ _ _ _ _ _
      (Moves-Counts m n cs ds 0 0 0 p
        (Counts-cong m _ _ _ _ _ _ k (omega arith) (omega arith) (omega arith)))
      (omega arith) (omega arith) (omega arith)

pub Reaches-Counts :
    (start : List Call) (m : RwMutex) (cs : List Call)
    → AllStart start
    → Reaches start m cs
    → CountsAll m cs
Reaches-Counts start m cs a here = unlocked-Counts cs a
Reaches-Counts start m cs a (next {m = l} {cs = bs} r p) =
    Moves-CountsAll l m bs cs p (Reaches-Counts start l bs a r)

Counts-exclusive : (m : RwMutex) (r w h : ℕ) → Counts m r w h → (h ≡ 0) ⊎ ((h ≡ 1) × (r ≡ 0))
Counts-exclusive m r w h k = ground arith

-- However many calls of the repository's methods run at once, all from their beginning and in
-- whatever order they take their steps: either no call holds the write lock, or exactly one does and no read lock is held.
pub writer_alone :
    (start : List Call) (m : RwMutex) (cs : List Call)
    → AllStart start
    → Reaches start m cs
    → (total is_writing cs ≡ 0) ⊎ ((total is_writing cs ≡ 1) × (total read_locks cs ≡ 0))
writer_alone start m cs a r = Counts-exclusive m _ _ _ (Reaches-Counts start m cs a r)
