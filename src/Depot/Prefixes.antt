-- ===== src/Depot/Prefixes.antt =====
-- What depot.go's Create has called when it ends early.
use garden_docker.Base.{
  Str, txt, List, [], ◌∷◌, ◌++◌, ◌≡◌, refl, sym, ap, ◌∙◌, ◌>>=◌, Go, Outcome, ok, fail, panic,
  ExecCmd,
}
use garden_docker.Base.FilePath.{join}
use garden_docker.Depot.{
  DepotHost, ContainerDepot, make_dirs, install, create, run_dir, bin_dir, processes_dir,
  iodaemon_package, dosh_package, copy, make_executable,
}
use garden_docker.Depot.Steps.{
  Call, made_id, made_dir, built, ran, recording, dirs_made, whole_run, noted, make_dirs-Ensures,
}

-- The calls, the latest first, are the first ones of a whole run for some new id, and of the
-- programs built somewhere.
pub record BeginsRun (depot : ContainerDepot) (calls : List Call) : Type 0 where
  pub id : Str
  pub iodaemon_path : Str
  pub dosh_path : Str
  pub still_to_come : List Call
  pub begins :
      whole_run (join (depot.dir ∷ id ∷ [])) iodaemon_path dosh_path ≡ still_to_come ++ calls

-- What holds after the first step, if the block ends there, and after the rest.
always_bind :
    {S A B : Type 0} (Q : S → Type 0) (m : Go S A) (f : A → Go S B) (s : S)
    → Q (m s).1
    → ((a : A) → (m s).0 ≡ ok a → Q (f a (m s).1).1)
    → Q ((m >>= f) s).1
unfolding ◌>>=◌
always_bind Q m f s q k = go (m s).0 k
  where
    go :
        (o : Outcome _)
        → ((a : _) → o ≡ ok a → Q (f a (m s).1).1)
        → Q (garden_docker.Base.continue o f (m s).1).1
    go (ok a) h = h a refl
    go (fail e) h = q
    go (panic x) h = q

module _ {W : Type 0} (host : DepotHost W) (depot : ContainerDepot) where
  abbrev Q : W × List Call → Type 0
  Q t = BeginsRun depot t.1

  after :
      (id i j : Str) (more calls made : List Call)
      → whole_run (join (depot.dir ∷ id ∷ [])) i j ≡ more ++ calls
      → made ≡ calls
      → BeginsRun depot made
  after id i j more calls made e p = record {
    id = id;
    iodaemon_path = i;
    dosh_path = j;
    still_to_come = more;
    begins = e ∙ ap (λ (cs : List Call). more ++ cs) (sym p);
  }

  -- The calls still to come at the three last steps, and before the builds.
  abbrev last_copies : Str → Str → Str → List Call
  last_copies d i j =
      ran (make_executable (join (bin_dir d ∷ txt "dosh" ∷ [])))
      ∷ ran (copy j (join (bin_dir d ∷ txt "dosh" ∷ [])))
      ∷ ran (copy i (join (bin_dir d ∷ txt "iodaemon" ∷ [])))
      ∷ []

  make_dirs-BeginsRun :
      (id : Str) (s : W × List Call)
      → s.1 ≡ made_id ∷ []
      → Q (make_dirs (recording host) (join (depot.dir ∷ id ∷ [])) s).1
  unfolding make_dirs
  make_dirs-BeginsRun id s p =
      let d = join (depot.dir ∷ id ∷ []) in
      let builds = last_copies d [] [] ++ (built dosh_package ∷ built iodaemon_package ∷ []) in
      always_bind Q _ _ s
        (after id [] []
          (builds ++ (made_dir (bin_dir d) 0o777 ∷ made_dir (processes_dir d) 0o700 ∷ [])) _ _ refl
          (noted _ p))
        λ _ _.
          always_bind Q _ _ _
            (after id [] [] (builds ++ (made_dir (bin_dir d) 0o777 ∷ [])) _ _ refl
              (noted _ (noted _ p)))
            λ _ _. after id [] [] builds _ _ refl (noted _ (noted _ (noted _ p)))

  install-BeginsRun :
      (id : Str) (s : W × List Call)
      → s.1 ≡ dirs_made (join (depot.dir ∷ id ∷ [])) (made_id ∷ [])
      → Q (install (recording host) (join (depot.dir ∷ id ∷ [])) s).1
  unfolding install
  install-BeginsRun id s p =
      let d = join (depot.dir ∷ id ∷ []) in
      always_bind Q _ _ s
        (after id [] [] (last_copies d [] [] ++ (built dosh_package ∷ [])) _ _ refl (noted _ p))
        λ i _.
          always_bind Q _ _ _ (after id i [] (last_copies d i []) _ _ refl (noted _ (noted _ p)))
            λ j _.
              always_bind Q _ _ _
                (after id i j
                  (ran (make_executable (join (bin_dir d ∷ txt "dosh" ∷ [])))
                    ∷ ran (copy j (join (bin_dir d ∷ txt "dosh" ∷ [])))
                    ∷ [])
                  _ _ refl (noted _ (noted _ (noted _ p))))
                λ _ _.
                  always_bind Q _ _ _
                    (after id i j (ran (make_executable (join (bin_dir d ∷ txt "dosh" ∷ []))) ∷ [])
                      _ _ refl (noted _ (noted _ (noted _ (noted _ p)))))
                    λ _ _.
                      always_bind Q _ _ _
                        (after id i j [] _ _ refl
                          (noted _ (noted _ (noted _ (noted _ (noted _ p))))))
                        λ _ _.
                          after id i j [] _ _ refl
                            (noted _ (noted _ (noted _ (noted _ (noted _ p)))))

  -- However Create ends, with a directory, an error or a panic, the calls made are the first ones
  -- of a whole run, in its order, for some id and some paths of the built programs.
  pub create-BeginsRun : (w : W) → BeginsRun depot (create (recording host) depot (w, [])).1.1
  unfolding create
  create-BeginsRun w =
      always_bind Q _ _ (w, [])
        (after [] [] []
          (last_copies (join (depot.dir ∷ [] ∷ [])) [] []
            ++ (built dosh_package
                ∷ built iodaemon_package
                ∷ made_dir (bin_dir (join (depot.dir ∷ [] ∷ []))) 0o777
                ∷ made_dir (processes_dir (join (depot.dir ∷ [] ∷ []))) 0o700
                ∷ made_dir (run_dir (join (depot.dir ∷ [] ∷ []))) 0o700
                ∷ []))
          _ _ refl refl)
        λ id _. always_bind Q _ _ _ (make_dirs-BeginsRun id _ refl) λ _ e.
          install-BeginsRun id _
            ((make_dirs-Ensures host (join (depot.dir ∷ id ∷ [])) (made_id ∷ []) _ refl).holds _ e)
