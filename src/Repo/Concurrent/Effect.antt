-- ===== src/Repo/Concurrent/Effect.antt =====
-- What one step of a concurrent call does to the store and to what the call has decided.
use mathlib.Core.List.{Permᴰ, append_assoc, append-nil}
use mathlib.Core.Path.{subst}
use garden_docker.Base.{
  ◌≤◌, Str, Bool, Option, none, some, List, [], ◌∷◌, ◌++◌, ◌≡◌, refl, sym, ap, ◌∙◌, ◌⊎◌, inl, inr,
  arith, Outcome, ok, fail, panic,
}
use garden_docker.Base.GoMap
use garden_docker.Base.GoMap.{
  GoMap, HasNodupKeys, In, In-Permᴰ, get_of_In, put-HasNodupKeys, delete-HasNodupKeys,
}
use garden_docker.Repo.{find_by_handle, matching, add, delete}
use garden_docker.Repo.Locking.Exclusion.{is_writing}
use garden_docker.Repo.Concurrent.Loop.{matching-append}
use garden_docker.Repo.Concurrent.{
  Write, adds, deletes, Scan, of_query, of_all, Request, write, find, scan, Answer, done, found,
  matches, Thread, started, pending, writing, wrote, finding, found_it, all_begun, scanning,
  visiting, scanned, all_returning, answered, Entry, filter_of, position, locks, visited, decided,
  written, works,
}

module _ {C : Type 0} where
  -- Where the loop of Query is: it has seen some of the entries of the store, each once, and has
  -- the matches among them; the others are yet to come.
  pub record Visits (s : GoMap C) (c : Scan C) (todo : GoMap C) (acc : List C) : Type 0 where
    pub seen : GoMap C
    pub order : Permᴰ (seen ++ todo) s
    pub so_far : matching (filter_of c) seen ≡ ok acc

  -- What a call has read is so still.
  abbrev pub IsSound : GoMap C → Thread C → Type 0
  IsSound s (visiting c todo acc) = Visits s c todo acc
  IsSound s _ = Unit

module _ {C : Type 0} (handle : C → Str) where
  -- A call that takes one step on the store answers a request like this.
  abbrev pub Answers : GoMap C → Request C → Answer C → GoMap C → Type 0
  Answers s (write w) a r = (a ≡ done) × (r ≡ written handle w s)
  Answers s (find h) a r = (a ≡ found (find_by_handle (record { store = s }) h)) × (r ≡ s)
  Answers s (scan c) a r =
      (es : GoMap C) × Permᴰ es s × (a ≡ matches (matching (filter_of c) es)) × (r ≡ s)

  -- Requests that are answered one after another, the latest first.
  pub data Runs (s : GoMap C) : List (Entry C) → GoMap C → Type 0 where
    stop : Runs s [] s
    then_one :
        {l : List (Entry C)} {r q : GoMap C} (req : Request C) (a : Answer C)
        → Runs s l r
        → Answers r req a q
        → Runs s ((req, a) ∷ l) q

  -- A step of a call, with the store before and after.
  pub record Effect (s : GoMap C) (t : Thread C) (r : GoMap C) (u : Thread C) : Type 0 where
    pub nodup : HasNodupKeys r
    pub sound : IsSound r u
    pub only_writes : (r ≡ s) ⊎ (1 ≤ is_writing (position t))
    pub newer : List (Entry C)
    pub runs : Runs s newer r
    pub decides : decided u ≡ newer ++ decided t

  -- A step that leaves the store alone and decides nothing.
  idle :
      {s : GoMap C} {t u : Thread C}
      → HasNodupKeys s
      → IsSound s u
      → decided u ≡ decided t
      → Effect s t s u
  idle n h e = record {
    nodup = n;
    sound = h;
    only_writes = inl refl;
    newer = [];
    runs = stop;
    decides = e;
  }

  abbrev pub AfterLock : GoMap C → Thread C → Option (Thread C) → Type 0
  AfterLock s t none = Unit
  AfterLock s t (some u) = Effect s t s u

  pub locks-Effect : (s : GoMap C) (t : Thread C) → HasNodupKeys s → AfterLock s t (locks t)
  locks-Effect s (started (write w)) n = idle n tt refl
  locks-Effect s (started (find h)) n = idle n tt refl
  locks-Effect s (started (scan (of_query f))) n = idle n tt refl
  locks-Effect s (started (scan of_all)) n = idle n tt refl
  locks-Effect s (pending w) n = idle n tt refl
  locks-Effect s (writing w) n = tt
  locks-Effect s (wrote w) n = idle n tt refl
  locks-Effect s (finding h) n = tt
  locks-Effect s (found_it h o) n = idle n tt refl
  locks-Effect s all_begun n = idle n tt refl
  locks-Effect s (scanning c) n = tt
  locks-Effect s (visiting c todo acc) n = tt
  locks-Effect s (scanned (of_query f) o) n = idle n tt refl
  locks-Effect s (scanned of_all o) n = idle n tt refl
  locks-Effect s (all_returning o) n = idle n tt refl
  locks-Effect s (answered q a) n = tt

  written-HasNodupKeys :
      (w : Write C) (s : GoMap C) → HasNodupKeys s → HasNodupKeys (written handle w s)
  unfolding add delete
  written-HasNodupKeys (adds c) s n = put-HasNodupKeys (handle c) c s n
  written-HasNodupKeys (deletes c) s n = delete-HasNodupKeys (handle c) s n

  In-middle : {A : Type 0} (xs : List A) (a : A) (ys : List A) → In a (xs ++ (a ∷ ys))
  In-middle [] a ys = inl refl
  In-middle (x ∷ xs) a ys = inr (In-middle xs a ys)

  -- The entry that the loop visits next is in the store.
  entry_present :
      (s : GoMap C) (c : Scan C) (k : Str) (d : C) (todo : GoMap C) (acc : List C)
      → HasNodupKeys s
      → Visits s c ((k, d) ∷ todo) acc
      → GoMap.get k s ≡ some d
  entry_present s c k d todo acc n v =
      get_of_In k d s n (In-Permᴰ v.order (k, d) (In-middle v.seen (k, d) todo))

  -- A scan that ends with the outcome of its loop on the whole store.
  scans :
      {s : GoMap C} {t : Thread C} (c : Scan C) (o : Outcome (List C)) (es : GoMap C)
      → HasNodupKeys s
      → Permᴰ es s
      → o ≡ matching (filter_of c) es
      → decided t ≡ []
      → Effect s t s (scanned c o)
  scans c o es n p e d = record {
    nodup = n;
    sound = tt;
    only_writes = inl refl;
    newer = (scan c, matches o) ∷ [];
    runs = then_one (scan c) (matches o) stop (es, p, ap matches e, refl);
    decides = rw d refl;
  }

  visit-Effect :
      (s : GoMap C) (c : Scan C) (k : Str) (d : C) (todo : GoMap C) (acc : List C)
      → HasNodupKeys s
      → (v : Visits s c ((k, d) ∷ todo) acc) (o : Outcome Bool) → filter_of c d ≡ o
      → Effect s (visiting c ((k, d) ∷ todo) acc) s (visited c todo acc d o)
  unfolding matching
  visit-Effect s c k d todo acc n v (ok b) e =
      idle n
        (record {
          seen = v.seen ++ ((k, d) ∷ []);
          order = subst (λ es. Permᴰ es s) (sym (append_assoc v.seen ((k, d) ∷ []) todo)) v.order;
          so_far =
              matching-append (filter_of c) v.seen ((k, d) ∷ []) acc v.so_far
              ∙ rw e (ground (arith, append-nil acc));
        })
        refl
  visit-Effect s c k d todo acc n v (fail x) e =
      scans c (fail x) (v.seen ++ ((k, d) ∷ todo)) n v.order
        (sym (matching-append (filter_of c) v.seen ((k, d) ∷ todo) acc v.so_far ∙ rw e refl)) refl
  visit-Effect s c k d todo acc n v (panic m) e =
      scans c (panic m) (v.seen ++ ((k, d) ∷ todo)) n v.order
        (sym (matching-append (filter_of c) v.seen ((k, d) ∷ todo) acc v.so_far ∙ rw e refl)) refl

  abbrev pub AfterWork : GoMap C → Thread C → Option (Thread C × GoMap C) → Type 0
  AfterWork s t none = Unit
  AfterWork s t (some (u, r)) = Effect s t r u

  pub works-Effect :
      (s : GoMap C) (t : Thread C) → HasNodupKeys s → IsSound s t → AfterWork s t (works handle s t)
  unfolding matching
  works-Effect s (writing w) n h = record {
    nodup = written-HasNodupKeys w s n;
    sound = tt;
    only_writes = inr (omega arith);
    newer = (write w, done) ∷ [];
    runs = then_one (write w) done stop (refl, refl);
    decides = refl;
  }
  works-Effect s (finding k) n h = record {
    nodup = n;
    sound = tt;
    only_writes = inl refl;
    newer = (find k, found (find_by_handle (record { store = s }) k)) ∷ [];
    runs = then_one (find k) (found _) stop (refl, refl);
    decides = refl;
  }
  works-Effect s (visiting c [] acc) n v =
      scans c (ok acc) (v.seen ++ []) n v.order
        (sym (matching-append (filter_of c) v.seen [] acc v.so_far ∙ ap ok (append-nil acc))) refl
  works-Effect s (visiting c ((k, d) ∷ todo) acc) n v =
      rw (entry_present s c k d todo acc n v) (visit-Effect s c k d todo acc n v _ refl)
  works-Effect s (started q) n h = tt
  works-Effect s (pending w) n h = tt
  works-Effect s (wrote w) n h = tt
  works-Effect s (found_it k o) n h = tt
  works-Effect s all_begun n h = tt
  works-Effect s (scanning c) n h = tt
  works-Effect s (scanned c o) n h = tt
  works-Effect s (all_returning o) n h = tt
  works-Effect s (answered q a) n h = tt

  pub ranges-Effect :
      (s : GoMap C) (c : Scan C) (es : GoMap C)
      → HasNodupKeys s
      → Permᴰ es s
      → Effect s (scanning c) s (visiting c es [])
  unfolding matching
  ranges-Effect s c es n p = idle n (record { seen = []; order = p; so_far = refl }) refl
