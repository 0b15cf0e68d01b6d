-- ===== src/Depot/Errors.antt =====
-- The errors of depot.go's Create.
use garden_docker.Base.{
  Str, txt, [], ◌∷◌, ◌≡◌, refl, sym, inl, inr, Go, Error, Outcome, ok, fail, panic, prefixed,
  must_outcome, drop_error, wrapping, wrap_outcome,
}
use garden_docker.Base.Binds.{bind_fails, fail-injective}
use garden_docker.Base.FilePath.{join}
use garden_docker.Depot.{
  DepotHost, ContainerDepot, guid, make_dirs, install, create, bin_dir, iodaemon_package,
  dosh_package, copy, make_executable,
}

must_never_fails : {A : Type 0} (o : Outcome A) (e : Error) → ¬ (must_outcome o ≡ fail e)
must_never_fails (ok a) e h = cc
must_never_fails (fail x) e h = cc
must_never_fails (panic m) e h = cc

drop_never_fails : {A : Type 0} (o : Outcome A) (e : Error) → ¬ (drop_error o ≡ fail e)
drop_never_fails (ok a) e h = cc
drop_never_fails (fail x) e h = cc
drop_never_fails (panic m) e h = cc

-- The call fails in some world, and the error is its error behind the prefix.
abbrev pub FailsWith : {W A : Type 0} → Go W A → Str → Error → Type 0
FailsWith {W = W} m prefix e = (w : W) × (x : Error) × ((m w).0 ≡ fail x) × (e ≡ prefixed prefix x)

wrapped_fails :
    {W A : Type 0} (m : Go W A) (prefix : Str) (w : W) (e : Error)
    → (wrapping (prefixed prefix) m w).0 ≡ fail e
    → FailsWith m prefix e
wrapped_fails {A = A} m prefix w e = go (m w).0 refl
  where
    go :
        (o : Outcome A)
        → (m w).0 ≡ o
        → wrap_outcome (prefixed prefix) o ≡ fail e
        → FailsWith m prefix e
    go (ok a) q h = cc
    go (fail x) q h = (w, x, q, sym (fail-injective {A = A} _ e h))
    go (panic p) q h = cc

module _ {W : Type 0} (host : DepotHost W) (depot : ContainerDepot) where
  -- The step that failed, for the directory `d`.
  pub data Fails (d : Str) (e : Error) : Type 0 where
    no_iodaemon : FailsWith (host.build iodaemon_package) (txt "build iodaemon: ") e → Fails d e
    no_dosh : FailsWith (host.build dosh_package) (txt "build dosh: ") e → Fails d e
    iodaemon_not_copied :
        (built_at : Str)
        → FailsWith
            (host.run (copy built_at (join (bin_dir d ∷ txt "iodaemon" ∷ []))))
            (txt "copy iodaemon: ")
            e
        → Fails d e
    dosh_not_copied :
        (built_at : Str)
        → FailsWith
            (host.run (copy built_at (join (bin_dir d ∷ txt "dosh" ∷ []))))
            (txt "copy dosh: ")
            e
        → Fails d e
    dosh_not_executable :
        FailsWith
          (host.run (make_executable (join (bin_dir d ∷ txt "dosh" ∷ []))))
          (txt "chmod dosh: ")
          e
        → Fails d e

  install-Fails : (d : Str) (w : W) (e : Error) → (install host d w).0 ≡ fail e → Fails d e
  unfolding install
  install-Fails d w e h = elim (bind_fails _ _ w e h) [
    | inl x ↦ no_iodaemon (wrapped_fails (host.build iodaemon_package) _ _ e x)
    | inr (i, h₁) ↦ elim (bind_fails _ _ _ e h₁) [
      | inl x ↦ no_dosh (wrapped_fails (host.build dosh_package) _ _ e x)
      | inr (j, h₂) ↦ elim (bind_fails _ _ _ e h₂) [
        | inl x ↦
            iodaemon_not_copied i
              (wrapped_fails (host.run (copy i (join (bin_dir d ∷ txt "iodaemon" ∷ [])))) _ _ e x)
        | inr (_, h₃) ↦ elim (bind_fails _ _ _ e h₃) [
          | inl x ↦
              dosh_not_copied j
                (wrapped_fails (host.run (copy j (join (bin_dir d ∷ txt "dosh" ∷ [])))) _ _ e x)
          | inr (_, h₄) ↦ elim (bind_fails _ _ _ e h₄) [
            | inl x ↦ dosh_not_executable (
                wrapped_fails (host.run (make_executable (join (bin_dir d ∷ txt "dosh" ∷ [])))) _ _
                  e x)
            | inr (_, h₅) ↦ cc
          ]
        ]
      ]
    ]
  ]

  make_dirs_never_fails : (d : Str) (w : W) (e : Error) → ¬ ((make_dirs host d w).0 ≡ fail e)
  unfolding make_dirs
  make_dirs_never_fails d w e h = elim (bind_fails _ _ w e h) [
    | inl x ↦ drop_never_fails _ e x
    | inr (_, h₁) ↦ elim (bind_fails _ _ _ e h₁) [
      | inl x ↦ drop_never_fails _ e x
      | inr (_, h₂) ↦ must_never_fails _ e h₂
    ]
  ]

  -- An error of Create is that of one of the two builds, the two copies or the chmod, behind the
  -- text that names the step, where the copies and the chmod are of the programs in the bin
  -- directory of the depot's directory joined with some id. No failure to make an id or a directory
  -- is returned as an error.
  pub create-Fails :
      (w : W) (e : Error)
      → (create host depot w).0 ≡ fail e
      → (id : Str) × Fails (join (depot.dir ∷ id ∷ [])) e
  unfolding create guid
  create-Fails w e h = elim (bind_fails _ _ w e h) [
    | inl x ↦ absurd (must_never_fails _ e x)
    | inr (id, h₁) ↦ elim (bind_fails _ _ _ e h₁) [
      | inl x ↦ absurd (make_dirs_never_fails _ _ e x)
      | inr (_, h₂) ↦ (id, install-Fails _ _ e h₂)
    ]
  ]
