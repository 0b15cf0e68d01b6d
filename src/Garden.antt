-- ===== src/Garden.antt =====
-- The data types of the garden API that the backend takes and returns
-- (Godeps/_workspace/src/github.com/cloudfoundry-incubator/garden: client.go, container.go and
-- net_out_rule.go).
-- A pointer that may be nil is an Option, an interface value of Go's library a number that names it.
pub mod Api
pub mod Limits
pub mod Rules
pub mod Stats
pub use garden_docker.Garden.Limits.{
  BandwidthLimits, DiskLimits, MemoryLimits, CpuLimits, ResourceLimits, no_limits,
}
pub use garden_docker.Garden.Rules.{IpRange, PortRange, IcmpControl, NetOutRule}
pub use garden_docker.Garden.Stats.{
  ContainerMemoryStat, ContainerCpuStat, ContainerDiskStat, Metrics, ContainerMetricsEntry,
  no_metrics,
}
use garden_docker.Base.{ℕ, Str, Bool, Option, none, List, [], Error, Go}
use garden_docker.Base.GoMap.{GoMap}

pub record BindMount : Type 0 where
  pub src_path : Str
  pub dst_path : Str
  pub mode : ℕ
  pub origin : ℕ

pub record ContainerSpec : Type 0 where
  pub handle : Str
  pub grace_time : ℕ
  pub root_fs_path : Str
  pub bind_mounts : List BindMount
  pub network : Str
  pub properties : Option (GoMap Str)
  pub env : List Str
  pub privileged : Bool

pub record Capacity : Type 0 where
  pub memory_in_bytes : ℕ
  pub disk_in_bytes : ℕ
  pub max_containers : ℕ

pub record PortMapping : Type 0 where
  pub host_port : ℕ
  pub container_port : ℕ

pub record ContainerInfo : Type 0 where
  pub state : Str
  pub events : List Str
  pub host_ip : Str
  pub container_ip : Str
  pub external_ip : Str
  pub container_path : Str
  pub process_ids : List ℕ
  pub properties : Option (GoMap Str)
  pub mapped_ports : List PortMapping

-- `garden.ContainerInfo{}`
abbrev pub no_info : ContainerInfo
no_info = record {
  state = [];
  events = [];
  host_ip = [];
  container_ip = [];
  external_ip = [];
  container_path = [];
  process_ids = [];
  properties = none;
  mapped_ports = [];
}

pub record ContainerInfoEntry : Type 0 where
  pub info : ContainerInfo
  pub err : Option Error

pub record WindowSize : Type 0 where
  pub columns : ℕ
  pub rows : ℕ

pub record TtySpec : Type 0 where
  pub window_size : Option WindowSize

pub record ProcessIo : Type 0 where
  pub stdin : ℕ
  pub stdout : ℕ
  pub stderr : ℕ

-- What a process is started with.
pub record ProcessSpec : Type 0 where
  pub path : Str
  pub args : List Str
  pub env : List Str
  pub dir : Str
  pub privileged : Bool
  pub user : Str
  pub limits : ResourceLimits
  pub tty : Option TtySpec

-- `garden.Signal`
pub data Signal : Type 0 where
  signal_terminate signal_kill : Signal

-- `garden.Process`, over a state `S` on which its methods act.
pub record Process (S : Type 0) : Type 0 where
  pub id : ℕ
  pub wait : Go S ℕ
  pub set_tty : TtySpec → Go S (Unit {0})
  pub signal : Signal → Go S (Unit {0})
