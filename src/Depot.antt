-- ===== src/Depot.antt =====
-- depot.go: the directory of a container, with the programs that it needs.
pub mod Steps
pub mod Prefixes
pub mod Errors
use garden_docker.Base.{
  ℕ, Str, txt, List, [], ◌∷◌, Go, pure, must, ignoring, wrapping, prefixed, ◌>>=◌, ◌>>◌, ExecCmd,
  exec_command,
}
use garden_docker.Base.FilePath.{join}

-- What the depot calls outside of the program: gouuid's `NewV4` as a string, `os.MkdirAll`, gexec's
-- `Build`, and `Run` of a command.
pub record DepotHost (W : Type 0) : Type 0 where
  pub new_v4 : Go W Str
  pub mkdir_all : Str → ℕ → Go W (Unit {0})
  pub build : Str → Go W Str
  pub run : ExecCmd → Go W (Unit {0})

-- The interface `Depot`.
pub record Depot (W : Type 0) : Type 0 where
  pub create : Go W Str

pub record ContainerDepot : Type 0 where
  pub dir : Str

abbrev pub run_dir : Str → Str
run_dir container_dir = join (container_dir ∷ txt "run" ∷ [])

abbrev pub bin_dir : Str → Str
bin_dir container_dir = join (container_dir ∷ txt "bin" ∷ [])

abbrev pub processes_dir : Str → Str
processes_dir container_dir = join (container_dir ∷ txt "processes" ∷ [])

abbrev pub iodaemon_package : Str
iodaemon_package = txt "github.com/cloudfoundry-incubator/garden-linux/iodaemon"

abbrev pub dosh_package : Str
dosh_package = txt "github.com/julz/garden-docker/cmd/dosh"

abbrev pub copy : Str → Str → ExecCmd
copy from to = exec_command (txt "cp") (from ∷ to ∷ [])

abbrev pub make_executable : Str → ExecCmd
make_executable path = exec_command (txt "chmod") (txt "u+x" ∷ path ∷ [])

module _ {W : Type 0} (host : DepotHost W) where
  -- `guid()`
  unfoldable pub guid : Go W Str
  guid = must host.new_v4

  unfoldable pub make_dirs : Str → Go W (Unit {0})
  make_dirs container_dir = do
    ignoring (host.mkdir_all (run_dir container_dir) 0o700)
    ignoring (host.mkdir_all (processes_dir container_dir) 0o700)
    must (host.mkdir_all (bin_dir container_dir) 0o777)

  unfoldable pub install : Str → Go W Str
  install container_dir = do
    iodaemon_path ← wrapping (prefixed (txt "build iodaemon: ")) (host.build iodaemon_package)
    dosh_path ← wrapping (prefixed (txt "build dosh: ")) (host.build dosh_package)
    wrapping (prefixed (txt "copy iodaemon: "))
        (host.run (copy iodaemon_path (join (bin_dir container_dir ∷ txt "iodaemon" ∷ []))))
    wrapping (prefixed (txt "copy dosh: "))
        (host.run (copy dosh_path (join (bin_dir container_dir ∷ txt "dosh" ∷ []))))
    wrapping (prefixed (txt "chmod dosh: "))
        (host.run (make_executable (join (bin_dir container_dir ∷ txt "dosh" ∷ []))))
    pure container_dir

  -- `Create`
  unfoldable pub create : ContainerDepot → Go W Str
  unfolding guid make_dirs install
  create depot = do
    id ← guid
    let container_dir = join (depot.dir ∷ id ∷ [])
    make_dirs container_dir
    install container_dir

-- `*ContainerDepot` as a `Depot`.
abbrev pub as_depot : {W : Type 0} → DepotHost W → ContainerDepot → Depot W
as_depot host depot = record { create = create host depot }
