-- ===== src/Tests/Runner.antt =====
-- What the runner of the integration tests does at its end, with clients of a few containers.
use garden_docker.Base.{
  ℕ, suc, Str, txt, true, List, [], ◌∷◌, ◌≡◌, refl, ok, panic, Go, ◌==◌, if◌then◌else◌,
}
use garden_docker.Base.GoMap.{In}
use garden_docker.Garden.Api.{GardenContainer, Client}
use mathlib.Core.Path.{subst}
use garden_docker.Base.{Error, text, fail, sym, ==_refl, Bool-cases, inl, inr, ◌≢◌, ◌>>=◌}
use garden_docker.Base.Ensures.{ok-injective}
use garden_docker.Net.{HostNet}
use garden_docker.GardenDocker.{Signal, sighup, sigquit}
use garden_docker.Integration.{
  RunnerHost, Runner, GardenClients, run, destroy_containers, destroy_each,
}
use garden_docker.Integration.Notes.{Note}
use garden_docker.Integration.Destroy.{
  DestroysContainers, destroy_containers_leaves_none, destroy_containers-as_client,
}
use garden_docker.Backend.Api.{as_client}
use garden_docker.Tests.Creation.{creator}
use garden_docker.Tests.Servers.{repo, laws, docker_backend, server, reached}
use garden_docker.Repo.{new_repo}
use garden_docker.Repo.Laws.{IsWellFormed}
use garden_docker.Container.{handle}
use garden_docker.Base.GoMap.{backwards}

abbrev counting : {A : Type 0} → A → Go ℕ A
counting a n = (ok a, suc n)

-- A container with a handle, and no method that works.
abbrev no_method : {S A : Type 0} → Go S A
no_method s = (panic (txt "no method"), s)

abbrev bare : {S : Type 0} → Str → GardenContainer S
bare h = record {
  handle = h;
  stop = λ kill. no_method;
  info = no_method;
  stream_in = λ path tar. no_method;
  stream_out = λ path. no_method;
  limit_bandwidth = λ limits. no_method;
  current_bandwidth_limits = no_method;
  limit_cpu = λ limits. no_method;
  current_cpu_limits = no_method;
  limit_disk = λ limits. no_method;
  current_disk_limits = no_method;
  limit_memory = λ limits. no_method;
  current_memory_limits = no_method;
  net_in = λ from to. no_method;
  net_out = λ rule. no_method;
  run = λ spec io. no_method;
  attach = λ id io. no_method;
  metrics = no_method;
  get_properties = no_method;
  get_property = λ name. no_method;
  set_property = λ name v. no_method;
  remove_property = λ name. no_method;
}

abbrev without : Str → List Str → List Str
without h [] = []
without h (k ∷ ks) = if h == k then without h ks else k ∷ without h ks

abbrev all_bare : {S : Type 0} → List Str → List (GardenContainer S)
all_bare [] = []
all_bare (h ∷ hs) = bare h ∷ all_bare hs

-- A client of a list of handles.
abbrev listing : Client (List Str)
listing = record {
  ping = no_method;
  capacity = no_method;
  create = λ spec. no_method;
  destroy = λ h hs. (ok tt, without h hs);
  containers = λ props hs. (ok (all_bare hs), hs);
  bulk_info = λ hs. no_method;
  bulk_metrics = λ hs. no_method;
  lookup = λ h. no_method;
}

In-all_bare :
    (hs : List Str) (h : Str)
    → In h hs
    → (c : GardenContainer (List Str)) × In c (all_bare hs) × (c.handle ≡ h)
In-all_bare [] h i = absurd i
In-all_bare (k ∷ hs) h (inl e) = (bare k, inl refl, sym e)
In-all_bare (k ∷ hs) h (inr i) = let (c, m, e) = In-all_bare hs h i in (c, inr m, e)

In-without : (h k : Str) (hs : List Str) → In k (without h hs) → (k ≢ h) × In k hs
In-without h k [] i = absurd i
In-without h k (x ∷ hs) i = elim (Bool-cases (h == x)) [
  | inl e ↦
      let j = subst (λ b. In k (if b then without h hs else x ∷ without h hs)) e i in
      ((In-without h k hs j).0, inr (In-without h k hs j).1)
  | inr e ↦ elim (subst (λ b. In k (if b then without h hs else x ∷ without h hs)) e i) [
    | inl p ↦ (λ q. cc (==_refl h, e, p, q), inl p)
    | inr j ↦ ((In-without h k hs j).0, inr (In-without h k hs j).1)
  ]
]

-- The containers that the listing client returns are those of its state.
listed :
    (hs : List Str) (cs : List (GardenContainer (List Str)))
    → ok (all_bare hs) ≡ ok cs
    → all_bare hs ≡ cs
listed hs cs e = ok-injective (all_bare hs) cs e

abbrev listing_destroys : DestroysContainers listing
listing_destroys = record {
  handles = λ hs. hs;
  lists_all = λ hs cs h e i.
      subst (λ ds. (c : GardenContainer (List Str)) × In c ds × (c.handle ≡ h)) (listed hs cs e)
        (In-all_bare hs h i);
  destroyed_gone = λ hs h e i. (In-without h h hs i).0 refl;
  destroyed_adds_none = λ hs h k e i. (In-without h k hs i).1;
}

abbrev two_handles : List Str
two_handles = txt "one" ∷ txt "two" ∷ []

destroyed_all : (destroy_containers listing two_handles).0 ≡ ok tt
unfolding destroy_containers destroy_each ◌>>=◌
destroyed_all = refl

destroy_containers_leaves_none_example : ¬ In (txt "one") (destroy_containers listing two_handles).1
destroy_containers_leaves_none_example =
    destroy_containers_leaves_none listing listing_destroys two_handles (txt "one") destroyed_all

abbrev net_host : HostNet ℕ
net_host = record { local_ip = counting (txt "10.0.0.1"); parse_ip = λ s. s }

destroy_containers-as_client_example :
    destroy_containers (as_client net_host backwards docker_backend) server ≡ (ok tt, server)
destroy_containers-as_client_example =
    destroy_containers-as_client repo (IsWellFormed handle) new_repo laws creator server reached
      net_host backwards

abbrev runner_host : RunnerHost ℕ
runner_host = record {
  mkdir_all = λ path mode. counting tt;
  remove_all = λ path. counting tt;
  invoke = λ cmd. suc;
  signal = λ s. suc;
  exists = λ path n. true;
  mount = λ source target type. counting tt;
  dial = λ network addr. counting tt;
}

-- A client without containers.
abbrev no_containers : Client (ℕ × List Note)
no_containers = record {
  ping = no_method;
  capacity = no_method;
  create = λ spec. no_method;
  destroy = λ h. no_method;
  containers = λ props s. (ok [], s);
  bulk_info = λ hs. no_method;
  bulk_metrics = λ hs. no_method;
  lookup = λ h. no_method;
}

abbrev refused : Error
refused = text (txt "connection refused")

-- A client without a connection.
abbrev unreachable : Client (ℕ × List Note)
unreachable = record no_containers { containers = λ props s. (fail refused, s) }

abbrev received : List Signal
received = sighup ∷ sigquit ∷ []

abbrev runner : Runner
runner = record {
  network = txt "tcp";
  addr = txt "127.0.0.1:7777";
  bin = txt "/bin/garden-docker";
  argv = [];
  tmpdir = txt "/tmp/test-garden-1";
}

-- A connection is the pair of its network and address.
abbrev clients : GardenClients (Str × Str) (ℕ × List Note)
clients = record { connection = λ network addr. (network, addr); client = λ c. unreachable }
