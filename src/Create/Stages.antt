-- ===== src/Create/Stages.antt =====
-- The steps of create.go's Create, one after the other, and how it ends at each.
use garden_docker.Base.{ℕ, Str, [], ◌∷◌, ◌≡◌, refl, ap, ◌∙◌, Outcome, ok, fail, panic, Go, arith}
use garden_docker.Base.Binds.{bind_ok, bind_panic, wrapped_ok, wrapped_ended}
use garden_docker.Base.Lists.{length}
use garden_docker.Garden.{ContainerSpec}
use garden_docker.Container.{Machine, lifted, allocate}
use garden_docker.Run.{dosh_command}
use garden_docker.Create.{
  DaemonContainerCreator, slice_bounds, with_rootfs, run_cmd, inspect_cmd, container, start, create,
}
use garden_docker.Create.Ends.{
  spec_for, run_for, inspect_for, at_world, HasDir, HasPath, HasStarted, Ends, no_depot, bad_rootfs,
  empty_path, no_run, no_inspect, done,
}

-- A call outside of the program, on the machine.
lifted-eq :
    {W A : Type 0} (m : Go W A) (t : Machine W) {o : Outcome A} {w : W}
    → m t.outside ≡ (o, w)
    → lifted m t ≡ (o, record t { outside = w })
lifted-eq m t e = ap (λ (r : Outcome _ × _). (r.0, record t { outside = r.1 })) e

module _ {W : Type 0} (c : DaemonContainerCreator W) (given : ContainerSpec) (s : Machine W) where
  -- Create's spec has the root file system that it should have.
  with_rootfs-spec_for : with_rootfs c given ≡ spec_for c given s
  unfolding with_rootfs
  with_rootfs-spec_for = ground arith

  url_path-spec_for :
      (o : Outcome Str)
      → c.url_path (spec_for c given s).root_fs_path ≡ o
      → c.url_path (with_rootfs c given).root_fs_path ≡ o
  url_path-spec_for o p =
      ap (λ (spec : ContainerSpec). c.url_path spec.root_fs_path) with_rootfs-spec_for ∙ p

  -- The steps up to the image.
  reached :
      (dir : Str) (w : W) (first : ℕ) (image : Str)
      → HasDir c given s dir w
      → HasPath c given s (first ∷ image)
      → create c given s ≡ start c (spec_for c given s) dir image (at_world c given s w)
  unfolding create
  reached dir w first image d p =
      wrapped_ok _ _ _ s _ dir (lifted-eq c.depot.create s d)
      ∙ wrapped_ok _ _ _ _ _ _
          (ap (λ (o : Outcome Str). (o, at_world c given s w)) (url_path-spec_for _ p))
      ∙ bind_ok _ _ _ _ image refl
      ∙ ap (λ (spec : ContainerSpec). start c spec dir image (at_world c given s w))
          with_rootfs-spec_for

  module _ (dir : Str) (w : W) (first : ℕ) (image : Str) (d : HasDir c given s dir w)
      (p : HasPath c given s (first ∷ image)) where
    from_inspect :
        (docker_id : Str) (v : W) (r : Outcome Str × W)
        → HasStarted c given s dir image w docker_id v
        → c.docker_runner.inspect (inspect_for c given s docker_id) v ≡ r
        → Ends c given s (create c given s)
    unfolding start allocate run_cmd inspect_cmd container dosh_command
    from_inspect docker_id v (ok ip, u) e h = done dir w first image docker_id v ip u d p e h (
        reached dir w first image d p
        ∙ wrapped_ok _ _ _ _ _ docker_id
            (lifted-eq (c.docker_runner.run (run_for c given s dir image)) (at_world c given s w) e)
        ∙ wrapped_ok _ _ _ _ _ ip (
            lifted-eq (c.docker_runner.inspect (inspect_for c given s docker_id))
              (at_world c given s v) h)
        ∙ bind_ok _ _ _ _ (length s.heap) refl)
    from_inspect docker_id v (fail x, u) e h =
        no_inspect dir w first image docker_id v (fail x) u _ d p e h refl (
          reached dir w first image d p
          ∙ wrapped_ok _ _ _ _ _ docker_id (
              lifted-eq (c.docker_runner.run (run_for c given s dir image)) (at_world c given s w)
                e)
          ∙ wrapped_ended _ _ _ _ _ (fail x) _
              (lifted-eq (c.docker_runner.inspect (inspect_for c given s docker_id))
                (at_world c given s v) h)
              refl)
    from_inspect docker_id v (panic m, u) e h =
        no_inspect dir w first image docker_id v (panic m) u _ d p e h refl (
          reached dir w first image d p
          ∙ wrapped_ok _ _ _ _ _ docker_id (
              lifted-eq (c.docker_runner.run (run_for c given s dir image)) (at_world c given s w)
                e)
          ∙ wrapped_ended _ _ _ _ _ (panic m) _
              (lifted-eq (c.docker_runner.inspect (inspect_for c given s docker_id))
                (at_world c given s v) h)
              refl)

    from_run :
        (r : Outcome Str × W)
        → c.docker_runner.run (run_for c given s dir image) w ≡ r
        → Ends c given s (create c given s)
    unfolding start run_cmd
    from_run (ok docker_id, v) e = from_inspect docker_id v _ e refl
    from_run (fail x, v) e = no_run dir w first image (fail x) v _ d p e refl (
        reached dir w first image d p
        ∙ wrapped_ended _ _ _ _ _ (fail x) _
            (lifted-eq (c.docker_runner.run (run_for c given s dir image)) (at_world c given s w) e)
            refl)
    from_run (panic m, v) e = no_run dir w first image (panic m) v _ d p e refl (
        reached dir w first image d p
        ∙ wrapped_ended _ _ _ _ _ (panic m) _
            (lifted-eq (c.docker_runner.run (run_for c given s dir image)) (at_world c given s w) e)
            refl)

  module _ (dir : Str) (w : W) (d : HasDir c given s dir w) where
    from_rootfs :
        (o : Outcome Str)
        → c.url_path (spec_for c given s).root_fs_path ≡ o
        → Ends c given s (create c given s)
    unfolding create
    from_rootfs (ok []) p = empty_path dir w d p (
        wrapped_ok _ _ _ s _ dir (lifted-eq c.depot.create s d)
        ∙ wrapped_ok _ _ _ _ _ _
            (ap (λ (o : Outcome Str). (o, at_world c given s w)) (url_path-spec_for _ p))
        ∙ bind_panic _ _ _ _ slice_bounds refl)
    from_rootfs (ok (first ∷ image)) p = from_run dir w first image d p _ refl
    from_rootfs (fail x) p = bad_rootfs dir w (fail x) _ d p refl (
        wrapped_ok _ _ _ s _ dir (lifted-eq c.depot.create s d)
        ∙ wrapped_ended _ _ _ _ _ (fail x) _
            (ap (λ (o : Outcome Str). (o, at_world c given s w)) (url_path-spec_for _ p)) refl)
    from_rootfs (panic m) p = bad_rootfs dir w (panic m) _ d p refl (
        wrapped_ok _ _ _ s _ dir (lifted-eq c.depot.create s d)
        ∙ wrapped_ended _ _ _ _ _ (panic m) _
            (ap (λ (o : Outcome Str). (o, at_world c given s w)) (url_path-spec_for _ p)) refl)

  from_depot :
      (r : Outcome Str × W) → c.depot.create s.outside ≡ r → Ends c given s (create c given s)
  unfolding create
  from_depot (ok dir, w) d = from_rootfs dir w d _ refl
  from_depot (fail x, w) d =
      no_depot (fail x) w _ d refl
        (wrapped_ended _ _ _ _ _ (fail x) _ (lifted-eq c.depot.create s d) refl)
  from_depot (panic m, w) d =
      no_depot (panic m) w _ d refl
        (wrapped_ended _ _ _ _ _ (panic m) _ (lifted-eq c.depot.create s d) refl)

  -- Whatever the depot, docker and the URL parser answer, Create ends in one of the ways of `Ends`:
  -- each failing step ends it at once with its wrapped error or its panic; a root file system
  -- whose URL has an empty path panics; else docker is asked to run `run_for` and then for
  -- `inspect_for`, and the container is `container_for`, with the default root file system where
  -- none was named, the creator's chain and pool, the dosh and the tracker of its directory, and one
  -- new properties handler with a nil map.
  pub create-Ends : Ends c given s (create c given s)
  create-Ends = from_depot (c.depot.create s.outside) refl
