-- ===== src/Repo/Concurrent/Steps.antt =====
-- What a step of one of several concurrent calls does to the store and to what all have decided.
use mathlib.Core.List.{Permᴰ, append_assoc}
use mathlib.Core.List.Permᴰ
use mathlib.Core.Path.{subst}
use garden_docker.Base.{◌≤◌, Str, List, [], ◌∷◌, ◌++◌, ◌≡◌, sym, ap, ◌∙◌, ◌⊎◌, inl, inr, arith}
use garden_docker.Base.GoMap.{GoMap, HasNodupKeys}
use garden_docker.Repo.Locking.{RwMutex}
use garden_docker.Repo.Locking.Exclusion.{read_locks, is_writing, total}
use garden_docker.Repo.Concurrent.{
  of_query, of_all, Thread, started, pending, writing, wrote, finding, found_it, all_begun,
  scanning, visiting, scanned, all_returning, answered, Entry, position, decided, Acts, on_mutex,
  on_store, ranges, Moves, first, later,
}
use garden_docker.Repo.Concurrent.Effect.{
  IsSound, Runs, Effect, AfterLock, AfterWork, locks-Effect, works-Effect, ranges-Effect,
}
use garden_docker.Repo.Concurrent.Position.{positions}

module _ {C : Type 0} where
  -- What all calls have decided.
  abbrev pub decisions : List (Thread C) → List (Entry C)
  decisions [] = []
  decisions (t ∷ ts) = decided t ++ decisions ts

  abbrev pub AllSound : GoMap C → List (Thread C) → Type 0
  AllSound s [] = Unit
  AllSound s (t ∷ ts) = IsSound s t × AllSound s ts

module _ {C : Type 0} (handle : C → Str) where
  Acts-Effect :
      {m n : RwMutex} {s r : GoMap C} {t u : Thread C}
      → Acts handle m s t n r u
      → HasNodupKeys s
      → IsSound s t
      → Effect handle s t r u
  Acts-Effect {s = s} {t = t} (on_mutex l a) n h =
      subst (AfterLock handle s t) l (locks-Effect handle s t n)
  Acts-Effect {s = s} {t = t} (on_store w) n h =
      subst (AfterWork handle s t) w (works-Effect handle s t n h)
  Acts-Effect {s = s} (ranges c es e p) n h =
      subst (λ x. Effect handle s x s (visiting c es [])) (sym e) (ranges-Effect handle s c es n p)

  -- What a call that holds no read lock has read is not looked at again.
  free-IsSound :
      (s r : GoMap C) (t : Thread C) → read_locks (position t) ≡ 0 → IsSound s t → IsSound r t
  free-IsSound s r (visiting (of_query f) todo acc) e h = absurd (omega arith)
  free-IsSound s r (visiting of_all todo acc) e h = absurd (omega arith)
  free-IsSound s r (writing w) e h = tt
  free-IsSound s r (finding h₁) e h = tt
  free-IsSound s r (started q) e h = tt
  free-IsSound s r (pending w) e h = tt
  free-IsSound s r (wrote w) e h = tt
  free-IsSound s r (found_it k o) e h = tt
  free-IsSound s r all_begun e h = tt
  free-IsSound s r (scanning c) e h = tt
  free-IsSound s r (scanned c o) e h = tt
  free-IsSound s r (all_returning o) e h = tt
  free-IsSound s r (answered q a) e h = tt

  keeps-IsSound :
      (s r : GoMap C) (t : Thread C)
      → (r ≡ s) ⊎ (read_locks (position t) ≡ 0)
      → IsSound s t
      → IsSound r t
  keeps-IsSound s r t (inl e) h = subst (λ x. IsSound x t) (sym e) h
  keeps-IsSound s r t (inr e) h = free-IsSound s r t e h

  keeps-AllSound :
      (s r : GoMap C) (ts : List (Thread C))
      → (r ≡ s) ⊎ (total read_locks (positions ts) ≡ 0)
      → AllSound s ts
      → AllSound r ts
  keeps-AllSound s r [] e h = tt
  keeps-AllSound s r (t ∷ ts) (inl e) h = subst (λ x. AllSound x (t ∷ ts)) (sym e) h
  keeps-AllSound s r (t ∷ ts) (inr e) h =
      (free-IsSound s r t (omega arith) h.0, keeps-AllSound s r ts (inr (omega arith)) h.1)

  -- A writer works alone.
  abbrev pub IsAlone : List (Thread C) → Type 0
  IsAlone ts = 1 ≤ total is_writing (positions ts) → total read_locks (positions ts) ≡ 0

  -- A step of several calls: the store after it, and what it adds to what they have decided.
  pub record Effects (s : GoMap C) (ts : List (Thread C)) (r : GoMap C) (us : List (Thread C))
      : Type 0 where
    pub nodup : HasNodupKeys r
    pub sound : AllSound r us
    pub only_writes : (r ≡ s) ⊎ (1 ≤ total is_writing (positions ts))
    pub newer : List (Entry C)
    pub runs : Runs handle s newer r
    pub decides : Permᴰ (decisions us) (newer ++ decisions ts)

  past_front :
      (d newer older : List (Entry C)) → Permᴰ (d ++ (newer ++ older)) (newer ++ (d ++ older))
  past_front d newer older =
      subst (λ x. Permᴰ x (newer ++ (d ++ older))) (append_assoc d newer older)
        (subst (λ x. Permᴰ ((d ++ newer) ++ older) x) (append_assoc newer d older)
          (Permᴰ.append_right older (Permᴰ.append_comm d newer)))

  pub Moves-Effects :
      {m n : RwMutex} {s r : GoMap C} {ts us : List (Thread C)}
      → Moves handle m s n r ts us
      → HasNodupKeys s
      → AllSound s ts
      → IsAlone ts
      → Effects s ts r us
  Moves-Effects {s = s} {r = r} (first t u ts a) n h alone =
      let e = Acts-Effect a n h.0 in
      record {
        nodup = e.nodup;
        sound = (e.sound, keeps-AllSound s r ts (others e.only_writes) h.1);
        only_writes = elim e.only_writes [ inl x ↦ inl x | inr x ↦ inr (omega arith) ];
        newer = e.newer;
        runs = e.runs;
        decides =
            subst (λ x. Permᴰ x (e.newer ++ (decided t ++ decisions ts)))
              (sym (
                ap (λ x. x ++ decisions ts) e.decides
                ∙ append_assoc e.newer (decided t) (decisions ts)))
              (Permᴰ.refl _);
      }
    where
      others :
          (r ≡ s) ⊎ (1 ≤ is_writing (position t)) → (r ≡ s) ⊎ (total read_locks (positions ts) ≡ 0)
      others (inl x) = inl x
      others (inr x) = inr (omega (arith, alone (omega arith)))
  Moves-Effects {s = s} {r = r} (later t ts us p) n h alone =
      let e = Moves-Effects p n h.1 (λ x. omega (arith, alone (omega arith))) in
      record {
        nodup = e.nodup;
        sound = (keeps-IsSound s r t (front e.only_writes) h.0, e.sound);
        only_writes = elim e.only_writes [ inl x ↦ inl x | inr x ↦ inr (omega arith) ];
        newer = e.newer;
        runs = e.runs;
        decides =
            Permᴰ.trans (Permᴰ.append_left (decided t) e.decides)
              (past_front (decided t) e.newer (decisions ts));
      }
    where
      front :
          (r ≡ s) ⊎ (1 ≤ total is_writing (positions ts)) → (r ≡ s) ⊎ (read_locks (position t) ≡ 0)
      front (inl x) = inl x
      front (inr x) = inr (omega (arith, alone (omega arith)))
