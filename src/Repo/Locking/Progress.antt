-- ===== src/Repo/Locking/Progress.antt =====
-- When concurrent calls of repo.go's methods can go on, and when they are stuck for good.
use garden_docker.Base.{
  ℕ, zero, suc, ◌≤◌, Option, none, some, List, [], ◌∷◌, ◌≡◌, ◌≢◌, refl, arith, ap, ◌∙◌, ◌⊎◌, inl,
  inr,
}
use garden_docker.Base.GoMap.{In}
use garden_docker.Repo.Locking.{
  Writer, nobody, waits, holds, RwMutex, Call, read_start, read_locked, write_start, write_waiting,
  write_locked, all_start, all_locked, all_locked_twice, all_query_returned, returned, advance,
  Moves, first, later, IsStart, read, write, all, AllStart, Reaches, here, next,
}
use garden_docker.Repo.Locking.Exclusion.{
  read_locks, is_waiting, is_writing, total, CountsAll, Reaches-Counts,
}

-- Some call can make a step.
abbrev pub CanMove : RwMutex → List Call → Type 0
CanMove m cs = (n : RwMutex) × (ds : List Call) × Moves m n cs ds

-- All is between its own read lock and the one that Query takes.
abbrev pub is_between : Call → ℕ
is_between all_locked = 1
is_between _ = 0

-- Whether a call has yet to return.
abbrev pub is_open : Call → ℕ
is_open returned = 0
is_open _ = 1

one_of : (f : Call → ℕ) (cs : List Call) → 1 ≤ total f cs → (c : Call) × In c cs × (1 ≤ f c)
one_of f [] h = absurd (omega arith)
one_of f (c ∷ cs) h = go (f c) refl (one_of f cs)
  where
    go :
        (n : ℕ)
        → f c ≡ n
        → (1 ≤ total f cs → (d : Call) × In d cs × (1 ≤ f d))
        → (d : Call) × In d (c ∷ cs) × (1 ≤ f d)
    go zero e ih = let (d, i, p) = ih (omega arith) in (d, inr i, p)
    go (suc n) e ih = (c, inl refl, omega arith)

at_most_total : (f : Call → ℕ) (cs : List Call) (c : Call) → In c cs → f c ≤ total f cs
at_most_total f [] c i = absurd i
at_most_total f (d ∷ cs) c (inl e) = ground arith
at_most_total f (d ∷ cs) c (inr i) = ground (arith, at_most_total f cs c i)

moves_one : (m : RwMutex) (cs : List Call) (c : Call) → In c cs → advance c m ≢ none → CanMove m cs
moves_one m [] c i h = absurd i
moves_one m (d ∷ cs) c (inl e) h = go (advance d m) refl
  where
    go : (o : Option (Call × RwMutex)) → advance d m ≡ o → CanMove m (d ∷ cs)
    go none p = absurd (h (ap (λ x. advance x m) e ∙ p))
    go (some (b, n)) p = (n, b ∷ cs, first d b cs p)
moves_one m (d ∷ cs) c (inr i) h =
    let (n, ds, p) = moves_one m cs c i h in (n, d ∷ ds, later d cs ds p)

writing_moves : (c : Call) (m : RwMutex) → 1 ≤ is_writing c → m.writer ≡ holds → advance c m ≢ none
writing_moves read_start m h e p = ground arith
writing_moves read_locked m h e p = ground arith
writing_moves write_start m h e p = ground arith
writing_moves write_waiting m h e p = ground arith
writing_moves write_locked m h e p = ground arith
writing_moves all_start m h e p = ground arith
writing_moves all_locked m h e p = ground arith
writing_moves all_locked_twice m h e p = ground arith
writing_moves all_query_returned m h e p = ground arith
writing_moves returned m h e p = ground arith

waiting_moves :
    (c : Call) (m : RwMutex)
    → 1 ≤ is_waiting c
    → m.writer ≡ waits
    → m.readers ≡ 0
    → advance c m ≢ none
waiting_moves read_start m h e z p = ground arith
waiting_moves read_locked m h e z p = ground arith
waiting_moves write_start m h e z p = ground arith
waiting_moves write_waiting m h e z p = ground arith
waiting_moves write_locked m h e z p = ground arith
waiting_moves all_start m h e z p = ground arith
waiting_moves all_locked m h e z p = ground arith
waiting_moves all_locked_twice m h e z p = ground arith
waiting_moves all_query_returned m h e z p = ground arith
waiting_moves returned m h e z p = ground arith

reading_moves :
    (c : Call) (m : RwMutex)
    → 1 ≤ read_locks c
    → is_between c ≡ 0
    → 1 ≤ m.readers
    → advance c m ≢ none
reading_moves read_start m h b z p = ground arith
reading_moves read_locked m h b z p = ground arith
reading_moves write_start m h b z p = ground arith
reading_moves write_waiting m h b z p = ground arith
reading_moves write_locked m h b z p = ground arith
reading_moves all_start m h b z p = ground arith
reading_moves all_locked m h b z p = ground arith
reading_moves all_locked_twice m h b z p = ground arith
reading_moves all_query_returned m h b z p = ground arith
reading_moves returned m h b z p = ground arith

open_moves :
    (c : Call) (m : RwMutex)
    → 1 ≤ is_open c
    → m.writer ≡ nobody
    → read_locks c ≤ m.readers
    → is_waiting c ≡ 0
    → is_writing c ≡ 0
    → advance c m ≢ none
open_moves read_start m h e z p q r = ground arith
open_moves read_locked m h e z p q r = ground arith
open_moves write_start m h e z p q r = ground arith
open_moves write_waiting m h e z p q r = ground arith
open_moves write_locked m h e z p q r = ground arith
open_moves all_start m h e z p q r = ground arith
open_moves all_locked m h e z p q r = ground arith
open_moves all_locked_twice m h e z p q r = ground arith
open_moves all_query_returned m h e z p q r = ground arith
open_moves returned m h e z p q r = ground arith

module _ (m : RwMutex) (cs : List Call) (k : CountsAll m cs) where
  -- What is so if no call can make a step.
  abbrev Rests : Type 0
  Rests = CanMove m cs ⊎ ((total is_open cs ≡ 0) ⊎ ((m.writer ≡ waits) × (1 ≤ total is_between cs)))

  progress_holds : m.writer ≡ holds → Rests
  progress_holds e =
      let (c, i, p) = one_of is_writing cs (ground (arith, k.counts_writing)) in
      inl (moves_one m cs c i (writing_moves c m p e))

  progress_waits : (n : ℕ) → m.readers ≡ n → m.writer ≡ waits → Rests
  progress_waits zero r e =
      let (c, i, p) = one_of is_waiting cs (ground (arith, k.counts_waiting)) in
      inl (moves_one m cs c i (waiting_moves c m p e r))
  progress_waits (suc n) r e =
      let (c, i, p) = one_of read_locks cs (ground (arith, k.counts_readers)) in
      between (is_between c) c refl i p
    where
      between : (b : ℕ) (c : Call) → is_between c ≡ b → In c cs → 1 ≤ read_locks c → Rests
      between zero c q i p = inl (moves_one m cs c i (reading_moves c m p q (omega arith)))
      between (suc b) c q i p = inr (inr (e, ground (arith, at_most_total is_between cs c i)))

  progress_nobody : (n : ℕ) → total is_open cs ≡ n → m.writer ≡ nobody → Rests
  progress_nobody zero o e = inr (inl o)
  progress_nobody (suc n) o e =
      let (c, i, p) = one_of is_open cs (omega arith) in
      inl (
        moves_one m cs c i (
          open_moves c m p e (ground (arith, k.counts_readers, at_most_total read_locks cs c i))
            (ground (arith, k.counts_waiting, at_most_total is_waiting cs c i))
            (ground (arith, k.counts_writing, at_most_total is_writing cs c i))))

  progress : Rests
  progress = go m.writer refl
    where
      go : (w : Writer) → m.writer ≡ w → Rests
      go nobody e = progress_nobody (total is_open cs) refl e
      go waits e = progress_waits m.readers refl e
      go holds e = progress_holds e

-- However many calls of the repository's methods run at once, all from their beginning and in
-- whatever order they take their steps: some call can make
-- a step, or all calls have returned, or a writer waits while a call of All has taken its own read
-- lock and not yet the one that Query takes.
pub moves_or_between :
    (start : List Call) (m : RwMutex) (cs : List Call)
    → AllStart start
    → Reaches start m cs
    → CanMove m cs ⊎ ((total is_open cs ≡ 0) ⊎ ((m.writer ≡ waits) × (1 ≤ total is_between cs)))
moves_or_between start m cs a r = progress m cs (Reaches-Counts start m cs a r)

-- A reader inside All, and a writer that came after it.
abbrev pub embraced : List Call → List Call
embraced others = all_locked ∷ write_waiting ∷ others

abbrev pub held_up : RwMutex
held_up = record { readers = 1; writer = waits }

stuck_start :
    (n : RwMutex) (others ds : List Call) → AllStart others → Moves held_up n others ds → ⊥
stuck_start n _ _ a (first c d cs e) = go c a.0 e
  where
    go : (x : Call) → IsStart x → advance x held_up ≡ some (d, n) → ⊥
    go _ read e = cc
    go _ write e = cc
    go _ all e = cc
stuck_start n _ _ a (later c cs ds p) = stuck_start n cs ds a.1 p

stuck_embraced :
    (n : RwMutex) (others ds : List Call)
    → AllStart others
    → Moves held_up n (embraced others) ds
    → ⊥
stuck_embraced n others _ a (first c d cs e) = cc
stuck_embraced n others _ a (later c cs ds (first x y zs e)) = cc
stuck_embraced n others _ a (later c cs ds (later x ys zs p)) = stuck_start n others zs a p

-- If All runs at once with Add or Delete, and any other calls besides, then a state can be reached
-- in which no call can make a step ever again, while All and the writer have not returned.
pub all_deadlocks :
    (others : List Call)
    → AllStart others
    → Reaches (all_start ∷ write_start ∷ others) held_up (embraced others)
      × (¬ CanMove held_up (embraced others))
all_deadlocks others a = (
  next (next here (first _ _ _ refl)) (later _ _ _ (first _ _ _ refl)),
  λ (n, ds, p). stuck_embraced n others ds a p,
)
