-- ===== src/Repo/Concurrent/Loop.antt =====
-- Query's loop in two parts.
use garden_docker.Base.{Bool, List, [], ◌∷◌, ◌++◌, ◌≡◌, refl, arith, Outcome, ok, fail, panic}
use garden_docker.Base.GoMap.{GoMap}
use garden_docker.Repo.{matching}

module _ {C : Type 0} (f : C → Outcome Bool) where
  -- Matches before an outcome.
  abbrev pub prepend : List C → Outcome (List C) → Outcome (List C)
  prepend acc (ok ms) = ok (acc ++ ms)
  prepend acc (fail e) = fail e
  prepend acc (panic m) = panic m

  pub matching-append :
      (seen rest : GoMap C) (acc : List C)
      → matching f seen ≡ ok acc
      → matching f (seen ++ rest) ≡ prepend acc (matching f rest)
  unfolding matching
  matching-append [] rest acc h = ground arith
  matching-append ((k, c) ∷ seen) rest acc h =
      go (f c) (matching f seen) refl refl (matching-append seen rest)
    where
      go :
          (o : Outcome Bool) (p : Outcome (List C))
          → f c ≡ o
          → matching f seen ≡ p
          → ((ms : List C)
              → matching f seen ≡ ok ms
              → matching f (seen ++ rest) ≡ prepend ms (matching f rest))
          → matching f (((k, c) ∷ seen) ++ rest) ≡ prepend acc (matching f rest)
      go (ok b) (ok ms) e p ih = ground (arith, ih ms p)
      go (ok b) (fail x) e p ih = ground arith
      go (ok b) (panic m) e p ih = ground arith
      go (fail x) q e p ih = ground arith
      go (panic m) q e p ih = ground arith
