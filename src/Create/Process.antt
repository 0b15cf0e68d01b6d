-- ===== src/Create/Process.antt =====
-- From Run on a created container to the daemon in it: run.go, create.go and cmd/dosh.
use garden_docker.Base.{Str, List, ◌≡◌, ◌⊎◌, inl, inr, refl, sym, ap, ◌∙◌, some, none, ok, Outcome}
use garden_docker.Base.Flags.{plain, shape}
use garden_docker.Base.Ensures.{ok-injective}
use garden_docker.Garden.{ContainerSpec, ProcessSpec, ProcessIo}
use garden_docker.Container.{Machine, Container}
use garden_docker.Run
use garden_docker.Run.{RunHandler, dosh_command, dosh_cmder}
use garden_docker.Dosh
use garden_docker.Dosh.{Daemon}
use garden_docker.Dosh.Arguments.{behind_name, requested, main-wait_for}
use garden_docker.Initd
use garden_docker.Initd.{InitdHost}
use garden_docker.Create.{DaemonContainerCreator, run_cmd, dosh_in, create}
use garden_docker.Create.Outcomes.{create_outcomes}
use garden_docker.Create.Sockets.{host_file, sockets_meet}

module _ {W : Type 0} (d : DaemonContainerCreator W) (given : ContainerSpec) (m : Machine W)
    (c : Container W) (returned : (create d given m).0 ≡ ok c) where
  abbrev pub Handles : RunHandler W → Str → Type 0
  Handles h dir =
      h ≡ record { process_tracker = d.new_tracker dir; container_cmd = dosh_cmder (dosh_in dir) }

  pub run_handler_made : Handles c.run_handler c.info_handler.container_path
  run_handler_made = elim (create_outcomes d given m) [
    | inl f ↦ absurd (f.no_container c returned)
    | inr g ↦
        mathlib.Core.Path.subst
          (λ (x : Container W). Handles x.run_handler x.info_handler.container_path)
          (ok-injective g.made c (sym g.returned ∙ returned)) g.its_run_handler
  ]

  -- Run of a container that Create returned has the tracker of the container's directory start,
  -- under the number 0 and without a signaller, a command; and run on the host with that command's
  -- arguments, dosh asks the daemon behind a socket for the path and the arguments of the process,
  -- as root, where the socket is the file that the container sees as the one on which its initd
  -- listens and serves. This is for a path that the flag package does not take for a flag.
  pub run-create :
      {V U : Type 0} (spec : ProcessSpec) (io : ProcessIo) (daemon : Daemon V) (host : InitdHost U)
      (image : Str) (w : W) (v : V) (u : U)
      → shape spec.path ≡ plain
      → (cmd : garden_docker.Base.ExecCmd) × (inner : Str) × (outer : Str) × (Run.run c.run_handler
            spec io w
          ≡ (d.new_tracker c.info_handler.container_path).run 0 cmd io spec.tty none w)
        × (Dosh.main daemon (behind_name cmd) v
            ≡ Dosh.wait_for daemon (daemon.new_process outer (requested spec.path spec.args) v))
        × (host_file (run_cmd d c.info_handler.container_path image).volumes inner ≡ some outer)
        × (Initd.main host (run_cmd d c.info_handler.container_path image).program_args u
            ≡ Initd.serve host inner u)
  unfolding Run.run
  run-create spec io daemon host image w v u h =
      let dir = c.info_handler.container_path in
      let (inner, serves, same) = sockets_meet d host dir image u in
      (
        dosh_command (dosh_in dir) spec.path spec.args,
        inner,
        (dosh_in dir).initd_sock,
        rw (run_handler_made) refl,
        main-wait_for daemon (dosh_in dir) spec.path spec.args v h,
        same,
        serves,
      )
