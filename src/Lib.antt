-- ===== src/Lib.antt =====
-- garden-docker: a garden backend that runs its containers with docker, the program that serves
-- it, and the two programs that it puts into the containers.
--
-- The parts of the program, and the files that model them:
--   backend.go: Backend. The operations that the garden server calls, over the machine and the
--     state of the repository (`Server`), for every `Repo` (`RepoInterface`); Backend/Contract has
--     the laws that the theorems ask of it, and Repo/Interface fills them with repo.go's.
--     Backend/Reach has the steps of a server and its reached states, in which a Create may have
--     its container and not yet have added it.
--   repo.go: Repo. The containers by their handles. Repo/Locking has its lock under concurrent calls,
--     Repo/Concurrent the lock and the store; Repo/Abstract has the plain map that it stands for.
--   create.go: Create, and for `doshcmd` Run. DaemonContainerCreator asks the depot for a
--     directory, docker for a container with initd as its first program and the directory's `run`
--     mounted, and docker again for its address, and puts the container together.
--   depot.go: Depot. The directory of a container with iodaemon and dosh in it.
--   container.go, info.go: Container. net.go: Net. props.go: Props. limits.go: Limits.
--     run.go: Run. stream.go: Stream. A container embeds these handlers.
--   errors.go: the constructor `docker_command` of `Error`, and `message`, in Base/Effects.
--   dockercli/cmds.go, dockercli/run.go: DockerCli. The docker command lines and running them.
--   cmd/dosh/main.go: Dosh. cmd/initd/main.go: Initd. What is started on the host for a process in
--     a container, and what waits for it in the container, on the two sides of a socket.
--   cmd/garden-docker/main.go: GardenDocker. From the flags to the backend, and
--     serving it until a signal; GardenDocker/Commands the docker commands of its creator.
--   integration/runner: Integration. The server as a process of the integration tests.
--   fakes: Fakes. The doubles of the tests, as instances of one kind of method that notes its calls.
-- Garden has the data types of the garden API that these take and return, Garden/Api its
-- interfaces, which Backend/Api fills with the backend and its containers. Base has what all
-- share, and models of what is used of Go: strings are lists of bytes; an operation is a function
-- `Go S A` from a state to an outcome, a value, an error or a panic, and the next state; GoMap has
-- maps, whose iteration order is an argument of what ranges over them; FilePath has `path.Join`,
-- Flags the parser of the flag package and Uint the reading of its uint values. Tests has runs of
-- the theorems at concrete inputs.
--
-- State. A container is a struct of pointers, of which only the properties handler is written
-- after the container is made. It lives in the heap of the machine, and the container has its
-- number, so that all who hold the container share it. All other code that acts on something
-- (docker, the file system, the builds, iptables, the port pool, the process tracker, the daemons)
-- is a parameter that acts on a world of any type, and may succeed, fail or panic. What a theorem
-- relies on of it is a hypothesis of the theorem: `Lawful` of Net/Ports for the port pool and its
-- neighbours, `DestroysContainers` of Integration/Destroy for a client of the garden API.
-- `url.Parse`, as far as Create uses it, and `time.ParseDuration` are such parameters too.
--
-- All loops are structural recursion; only the decimal digits of a number in a message are made on
-- fuel, the number plus one (read_digits_rev-decimal of Base/Text reads them back). Numbers are
-- natural numbers: the program only copies its uint32 ports and process identifiers and converts
-- them to int, which is as wide. The uint flags of garden-docker are of 64 bits, which the parser
-- checks, and its ports are cut to 32 by `% 2 ^ 32`. The loop of the integration runner is over
-- the events that it meets, the end of the process apart from the receipt of it. What a method does
-- under its lock is one step, and the steps of concurrent requests are interleaved as the sequences
-- of `Reach` and of the lists of calls say;
-- Repo/Locking takes the calls of the repository's methods apart into their steps on the RWMutex,
-- whose documented behaviour it has: a Lock that waits keeps new readers out, and Lock waits for
-- the readers that are in. Repo/Concurrent has the store beside the lock,
-- and is stated against what the methods of Repo do in one step each and against the map of
-- Repo/Abstract; the filters of its queries are fixed functions of the container, which may panic.
--
-- Not modelled: the code under Godeps, copies of other projects, but for the types of the garden
-- API; of dosh, the copying of the standard streams; the usage and log messages; what the system
-- does at a signal that garden-docker has not asked for.
pub mod Base
pub mod DockerCli
pub mod Props
pub mod Garden
pub mod Limits
pub mod Stream
pub mod Net
pub mod Run
pub mod Dosh
pub mod Container
pub mod Repo
pub mod Depot
pub mod Initd
pub mod Create
pub mod Backend
pub mod GardenDocker
pub mod Integration
pub mod Fakes
mod Tests
