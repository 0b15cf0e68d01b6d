-- ===== src/Repo/Concurrent/Atomic.antt =====
-- Concurrent calls of repo.go's methods answer as if each took one step.
use mathlib.Core.List.{Permᴰ, append_assoc, append-nil}
use mathlib.Core.List.Permᴰ
use mathlib.Core.Path.{subst}
use garden_docker.Base.{Str, List, [], ◌∷◌, ◌++◌, ◌≡◌, refl, sym, ap, ◌∙◌, inl, inr}
use garden_docker.Base.GoMap.{GoMap, HasNodupKeys}
use garden_docker.Repo.Locking.{RwMutex, unlocked, Call, IsStart, AllStart}
use garden_docker.Repo.Locking
use garden_docker.Repo.Locking.Exclusion.{CountsAll, unlocked-Counts, Moves-CountsAll}
use garden_docker.Repo.Concurrent.{
  Request, write, find, scan, of_query, of_all, started, Thread, Entry, position, Moves, Goes, here,
  next, all_started,
}
use garden_docker.Repo.Concurrent.Effect.{Runs, stop, then_one}
use garden_docker.Repo.Concurrent.Position.{positions, Moves-position}
use garden_docker.Repo.Concurrent.Steps.{decisions, AllSound, Moves-Effects}

module _ {C : Type 0} where
  started-IsStart : (q : Request C) → IsStart (position (started q))
  started-IsStart (write w) = Locking.write
  started-IsStart (find h) = Locking.read
  started-IsStart (scan (of_query f)) = Locking.read
  started-IsStart (scan of_all) = Locking.all

  all_started-AllStart : (qs : List (Request C)) → AllStart (positions (all_started qs))
  all_started-AllStart [] = tt
  all_started-AllStart (q ∷ qs) = (started-IsStart q, all_started-AllStart qs)

  all_started-AllSound : (s : GoMap C) (qs : List (Request C)) → AllSound s (all_started qs)
  all_started-AllSound s [] = tt
  all_started-AllSound s (q ∷ qs) = (tt, all_started-AllSound s qs)

  nothing_decided : (qs : List (Request C)) → decisions (all_started qs) ≡ []
  nothing_decided [] = refl
  nothing_decided (q ∷ qs) = nothing_decided qs

  -- The mutex, the store and the calls of a run.
  pub record IsConsistent (m : RwMutex) (s : GoMap C) (ts : List (Thread C)) : Type 0 where
    pub nodup : HasNodupKeys s
    pub sound : AllSound s ts
    pub counts : CountsAll m (positions ts)

  all_started-IsConsistent :
      (s : GoMap C) (qs : List (Request C))
      → HasNodupKeys s
      → IsConsistent unlocked s (all_started qs)
  all_started-IsConsistent s qs n = record {
    nodup = n;
    sound = all_started-AllSound s qs;
    counts = unlocked-Counts (positions (all_started qs)) (all_started-AllStart qs);
  }

module _ {C : Type 0} (handle : C → Str) where
  Runs-append :
      {s r q : GoMap C} {l k : List (Entry C)}
      → Runs handle s l r
      → Runs handle r k q
      → Runs handle s (k ++ l) q
  Runs-append a stop = a
  Runs-append a (then_one req x b y) = then_one req x (Runs-append a b) y

  -- What the steps from one state to another decide.
  record Decides (m : RwMutex) (s : GoMap C) (ts : List (Thread C)) (n : RwMutex) (r : GoMap C)
      (us : List (Thread C)) : Type 0 where
    consistent : IsConsistent n r us
    newer : List (Entry C)
    runs : Runs handle s newer r
    decides : Permᴰ (decisions us) (newer ++ decisions ts)

  Moves-CountsSound :
      {m n : RwMutex} {s r : GoMap C} {ts us : List (Thread C)}
      → Moves handle m s n r ts us
      → CountsAll m (positions ts)
      → CountsAll n (positions us)
  Moves-CountsSound {m = m} {n = n} {ts = ts} {us = us} p k = elim (Moves-position handle p) [
    | inl q ↦ Moves-CountsAll m n (positions ts) (positions us) q k
    | inr (e, q) ↦ subst (λ x. CountsAll x (positions us)) (sym e) (subst (CountsAll m) (sym q) k)
  ]

  Goes-Decides :
      {m : RwMutex} {s : GoMap C} {ts : List (Thread C)} {n : RwMutex} {r : GoMap C}
      {us : List (Thread C)}
      → Goes handle m s ts n r us
      → IsConsistent m s ts
      → Decides m s ts n r us
  Goes-Decides {ts = ts} here c = record {
    consistent = c;
    newer = [];
    runs = stop;
    decides = Permᴰ.refl (decisions ts);
  }
  Goes-Decides {ts = ts} (next {us = us} g p) c =
      let d = Goes-Decides g c in
      let e =
        Moves-Effects handle p d.consistent.nodup d.consistent.sound d.consistent.counts.alone in
      record {
        consistent = record {
          nodup = e.nodup;
          sound = e.sound;
          counts = Moves-CountsSound p d.consistent.counts;
        };
        newer = e.newer ++ d.newer;
        runs = Runs-append d.runs e.runs;
        decides = Permᴰ.trans e.decides (
            subst (λ x. Permᴰ (e.newer ++ decisions us) x)
              (sym (append_assoc e.newer d.newer (decisions ts)))
              (Permᴰ.append_left e.newer d.decides));
      }

  -- However many calls run at once on a store without double keys, and in whatever order they take
  -- their steps, on the mutex and on the store: what the calls have decided by any time, in some
  -- order, is what the same requests answer one after another, each in one step from the store that
  -- the one before it left; the last of them leaves the store as it is then; and what is decided
  -- after any time comes after all that was decided before.
  pub decided_in_order :
      (qs : List (Request C)) (s r q : GoMap C) (m n : RwMutex) (ts us : List (Thread C))
      → HasNodupKeys s
      → Goes handle unlocked s (all_started qs) m r ts
      → Goes handle m r ts n q us
      → (before : List (Entry C)) × (after : List (Entry C)) × Runs handle s before r
        × Runs handle r after q
        × Permᴰ (decisions ts) before
        × Permᴰ (decisions us) (after ++ before)
  decided_in_order qs s r q m n ts us h g k =
      let d = Goes-Decides g (all_started-IsConsistent s qs h) in
      let e = Goes-Decides k d.consistent in
      let begun =
        subst (λ x. Permᴰ (decisions ts) x)
          (ap (λ x. d.newer ++ x) (nothing_decided qs) ∙ append-nil d.newer) d.decides in
      (
        d.newer,
        e.newer,
        d.runs,
        e.runs,
        begun,
        Permᴰ.trans e.decides (Permᴰ.append_left e.newer begun),
      )
