-- ===== src/Repo/Locking/Returning.antt =====
-- Without All, concurrent calls of repo.go's methods all return.
use garden_docker.Base.{
  ℕ, zero, suc, ◌+◌, ◌*◌, ◌≤◌, some, List, [], ◌∷◌, ◌≡◌, refl, arith, ◌⊎◌, inl, inr,
}
use garden_docker.Repo.Locking.{
  RwMutex, unlocked, Call, read_start, read_locked, write_start, write_waiting, write_locked,
  all_start, all_locked, all_locked_twice, all_query_returned, returned, advance, Moves, first,
  later, AllStart, Reaches, here, next,
}
use garden_docker.Repo.Locking.Exclusion.{total}
use garden_docker.Repo.Locking.Progress.{CanMove, is_open, is_between, moves_or_between}

-- The steps that a call has yet to make.
abbrev pub steps_left : Call → ℕ
steps_left read_start = 2
steps_left read_locked = 1
steps_left write_start = 3
steps_left write_waiting = 2
steps_left write_locked = 1
steps_left all_start = 4
steps_left all_locked = 3
steps_left all_locked_twice = 2
steps_left all_query_returned = 1
steps_left returned = 0

-- Whether it is a call of All that has not returned, as 1 or 0.
abbrev pub is_all : Call → ℕ
is_all all_start = 1
is_all all_locked = 1
is_all all_locked_twice = 1
is_all all_query_returned = 1
is_all _ = 0

advance-steps :
    (c d : Call) (m n : RwMutex)
    → advance c m ≡ some (d, n)
    → (steps_left c ≡ suc (steps_left d)) × (is_all d ≤ is_all c)
advance-steps read_start d m n e = ground arith
advance-steps read_locked d m n e = ground arith
advance-steps write_start d m n e = ground arith
advance-steps write_waiting d m n e = ground arith
advance-steps write_locked d m n e = ground arith
advance-steps all_start d m n e = ground arith
advance-steps all_locked d m n e = ground arith
advance-steps all_locked_twice d m n e = ground arith
advance-steps all_query_returned d m n e = ground arith
advance-steps returned d m n e = ground arith

Moves-steps :
    (m n : RwMutex) (cs ds : List Call)
    → Moves m n cs ds
    → (total steps_left cs ≡ suc (total steps_left ds)) × (total is_all ds ≤ total is_all cs)
Moves-steps m n _ _ (first c d cs e) = omega (arith, advance-steps c d m n e)
Moves-steps m n _ _ (later c cs ds p) = omega (arith, Moves-steps m n cs ds p)

-- The mutex and the calls after a number of steps, from calls that have not begun on.
pub data ReachesIn (start : List Call) : ℕ → RwMutex → List Call → Type 0 where
  at_start : ReachesIn start zero unlocked start
  one_more :
      {k : ℕ} {m n : RwMutex} {cs ds : List Call}
      → ReachesIn start k m cs
      → Moves m n cs ds
      → ReachesIn start (suc k) n ds

ReachesIn-Reaches :
    {start : List Call} {k : ℕ} {m : RwMutex} {cs : List Call}
    → ReachesIn start k m cs
    → Reaches start m cs
ReachesIn-Reaches at_start = here
ReachesIn-Reaches (one_more r p) = next (ReachesIn-Reaches r) p

ReachesIn-steps :
    {start : List Call} {k : ℕ} {m : RwMutex} {cs : List Call}
    → ReachesIn start k m cs
    → (k + total steps_left cs ≡ total steps_left start) × (total is_all cs ≤ total is_all start)
ReachesIn-steps at_start = omega arith
ReachesIn-steps (one_more {m = m} {n = n} {cs = cs} {ds = ds} r p) =
    omega (arith, ReachesIn-steps r, Moves-steps m n cs ds p)

between_all : (cs : List Call) → total is_between cs ≤ total is_all cs
between_all [] = omega arith
between_all (c ∷ cs) = omega (arith, one c, between_all cs)
  where
    one : (c : Call) → is_between c ≤ is_all c
    one c = ground arith

open_steps : (cs : List Call) → total is_open cs ≡ 0 → total steps_left cs ≡ 0
open_steps [] h = refl
open_steps (c ∷ cs) h = omega (arith, one c, open_steps cs (omega arith))
  where
    one : (c : Call) → steps_left c ≤ 4 * is_open c
    one c = ground arith

-- However many calls of FindByHandle, Query, Add and Delete run at once, all from their beginning
-- and in whatever order they take their steps on the mutex: while a call has yet to return, some
-- call can make a step; and each run has at most as many steps as the calls together have to make,
-- and just as many when all have returned.
pub others_return :
    (start : List Call) (k : ℕ) (m : RwMutex) (cs : List Call)
    → AllStart start
    → total is_all start ≡ 0
    → ReachesIn start k m cs
    → (CanMove m cs ⊎ (total is_open cs ≡ 0))
      × (k ≤ total steps_left start)
      × (total is_open cs ≡ 0 → k ≡ total steps_left start)
others_return start k m cs a none r = (
  elim (moves_or_between start m cs a (ReachesIn-Reaches r)) [
    | inl x ↦ inl x
    | inr (inl x) ↦ inr x
    | inr (inr (_, x)) ↦ absurd (omega (arith, between_all cs, ReachesIn-steps r))
  ],
  omega (arith, ReachesIn-steps r),
  λ h. omega (arith, ReachesIn-steps r, open_steps cs h),
)
