-- ===== src/Create/Programs.antt =====
-- From the depot's directory to the container that Create puts together for it: depot.go, create.go.
use garden_docker.Base.{
  ExecCmd, Str, txt, str_dec, List, [], ◌∷◌, ◌++◌, ◌≡◌, refl, ap, inl, inr, ok,
}
use garden_docker.Base.FilePath.{join, split, rooted}
use garden_docker.Base.FilePath.Laws.{IsElement, join_two}
use garden_docker.Base.FilePath.Clean.{join-join}
use garden_docker.Base.GoMap.{In}
use garden_docker.Garden.{ContainerSpec}
use garden_docker.Depot
use garden_docker.Depot.{
  DepotHost, ContainerDepot, run_dir, bin_dir, iodaemon_package, dosh_package, copy,
  make_executable,
}
use garden_docker.Depot.Steps.{
  Call, made_id, made_dir, built, ran, recording, dirs_made, whole_run, create_completes,
}
use garden_docker.Container.{Machine, Container}
use garden_docker.Create.{DaemonContainerCreator, run_cmd, dosh_in, create}
use garden_docker.Create.Process.{run_handler_made}
use garden_docker.DockerCli.{Volume}
use garden_docker.Run.{dosh_command}
use garden_docker.Create.Sockets.{run-IsElement, sock-IsElement}

bin-IsElement : IsElement (txt "bin")
unfolding txt str_dec split rooted
bin-IsElement = record {
  not_empty = refl;
  not_dot = refl;
  not_dots = refl;
  not_split = refl;
  not_rooted = refl;
}

dosh-IsElement : IsElement (txt "dosh")
unfolding txt str_dec split rooted
dosh-IsElement = record {
  not_empty = refl;
  not_dot = refl;
  not_dots = refl;
  not_split = refl;
  not_rooted = refl;
}

-- Where the depot puts dosh is where Run looks for it.
dosh_installed : (dir : Str) → join (bin_dir dir ∷ txt "dosh" ∷ []) ≡ (dosh_in dir).path
dosh_installed dir = join-join dir (txt "bin") (txt "dosh") bin-IsElement dosh-IsElement

-- What the calls of a depot have to do with a command that Run makes and the volumes of the
-- container: the last calls copied a program to the file that the command runs and made it
-- executable, and a directory made before is mounted at /run and has the socket that is dialled.
pub record Serves (calls : List Call) (cmd : ExecCmd) (volumes : List Volume) : Type 0 where
  pub built_at : Str
  pub before : List Call
  pub made : Str
  pub rest : List Str
  pub last_calls : calls ≡ ran (make_executable cmd.path) ∷ ran (copy built_at cmd.path) ∷ before
  pub was_made : In (made_dir made 0o700) before
  pub is_mounted : In (record { host_path = made; container_path = txt "/run" }) volumes
  pub dials : cmd.args ≡ cmd.path ∷ txt "-socketPath" ∷ (made ++ (b'/' ∷ txt "initd.sock")) ∷ rest

module _ {W : Type 0} (c : DaemonContainerCreator W) (path : Str) (args : List Str)
    (image : Str) where
  -- The calls before dosh is copied, the latest first.
  abbrev earlier_calls : Str → Str → List Call
  earlier_calls dir iodaemon_path =
      ran (copy iodaemon_path (join (bin_dir dir ∷ txt "iodaemon" ∷ [])))
      ∷ built dosh_package
      ∷ built iodaemon_package
      ∷ dirs_made dir (made_id ∷ [])

  whole_run-Serves :
      (dir iodaemon_path dosh_path : Str)
      → Serves
          (whole_run dir iodaemon_path dosh_path)
          (dosh_command (dosh_in dir) path args)
          (run_cmd c dir image).volumes
  unfolding run_cmd dosh_command
  whole_run-Serves dir iodaemon_path dosh_path = record {
    built_at = dosh_path;
    before = earlier_calls dir iodaemon_path;
    made = run_dir dir;
    rest = txt "-user" ∷ txt "root" ∷ path ∷ args;
    last_calls =
        ap
          (λ (file : Str).
            ran (make_executable file)
            ∷ ran (copy dosh_path file)
            ∷ earlier_calls dir iodaemon_path)
          (dosh_installed dir);
    was_made = inr (inr (inr (inr (inr (inl refl)))));
    is_mounted = inr (inl refl);
    dials =
        ap
          (λ (socket : Str).
            (dosh_in dir).path
            ∷ txt "-socketPath"
            ∷ socket
            ∷ txt "-user"
            ∷ txt "root"
            ∷ path
            ∷ args)
          (join_two dir (txt "run") (txt "initd.sock") run-IsElement sock-IsElement);
  }

  -- If the depot's Create returned the directory of a container that Create returned, then the last
  -- two calls of the depot copied a program to the very file that a command of the container's Run
  -- starts and made it executable, and a directory that the depot made before is the one that
  -- docker run mounts at /run and the one with the socket that the command dials.
  pub create-Serves :
      {V : Type 0} (given : ContainerSpec) (m : Machine W) (x : Container W) (host : DepotHost V)
      (depot : ContainerDepot) (v : V)
      → (create c given m).0 ≡ ok x
      → (Depot.create (recording host) depot (v, [])).0 ≡ ok x.info_handler.container_path
      → Serves
          (Depot.create (recording host) depot (v, [])).1.1
          (x.run_handler.container_cmd.cmd path args)
          (run_cmd c x.info_handler.container_path image).volumes
  create-Serves given m x host depot v returned h =
      let dir = x.info_handler.container_path in
      let done = create_completes host depot v dir h in
      rw (done.whole, run_handler_made c given m x returned)
        (whole_run-Serves dir done.iodaemon_path done.dosh_path)
