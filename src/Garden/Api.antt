-- ===== src/Garden/Api.antt =====
-- The interfaces of the garden API (Godeps/_workspace/src/github.com/cloudfoundry-incubator/garden:
-- client.go, container.go and backend.go), over a state `S` on which their methods act. A stream
-- is a number that names it.
use garden_docker.Base.{ℕ, Str, Bool, Option, List, Go}
use garden_docker.Base.GoMap.{GoMap}
use garden_docker.Garden.{
  ContainerSpec, Capacity, ContainerInfo, ContainerInfoEntry, ContainerMetricsEntry, Metrics,
  BandwidthLimits, CpuLimits, DiskLimits, MemoryLimits, ProcessSpec, ProcessIo, Process, NetOutRule,
}

-- `garden.Container`
pub record GardenContainer (S : Type 0) : Type 0 where
  pub handle : Str
  pub stop : Bool → Go S (Unit {0})
  pub info : Go S ContainerInfo
  pub stream_in : Str → ℕ → Go S (Unit {0})
  pub stream_out : Str → Go S ℕ
  pub limit_bandwidth : BandwidthLimits → Go S (Unit {0})
  pub current_bandwidth_limits : Go S BandwidthLimits
  pub limit_cpu : CpuLimits → Go S (Unit {0})
  pub current_cpu_limits : Go S CpuLimits
  pub limit_disk : DiskLimits → Go S (Unit {0})
  pub current_disk_limits : Go S DiskLimits
  pub limit_memory : MemoryLimits → Go S (Unit {0})
  pub current_memory_limits : Go S MemoryLimits
  pub net_in : ℕ → ℕ → Go S (ℕ × ℕ)
  pub net_out : NetOutRule → Go S (Unit {0})
  pub run : ProcessSpec → ProcessIo → Go S (Process S)
  pub attach : ℕ → ProcessIo → Go S (Process S)
  pub metrics : Go S Metrics
  pub get_properties : Go S (Option (GoMap Str))
  pub get_property : Str → Go S Str
  pub set_property : Str → Str → Go S (Unit {0})
  pub remove_property : Str → Go S (Unit {0})

-- `garden.Client`
pub record Client (S : Type 0) : Type 0 where
  pub ping : Go S (Unit {0})
  pub capacity : Go S Capacity
  pub create : ContainerSpec → Go S (GardenContainer S)
  pub destroy : Str → Go S (Unit {0})
  pub containers : Option (GoMap Str) → Go S (List (GardenContainer S))
  pub bulk_info : List Str → Go S (GoMap ContainerInfoEntry)
  pub bulk_metrics : List Str → Go S (GoMap ContainerMetricsEntry)
  pub lookup : Str → Go S (GardenContainer S)

-- `garden.Backend`, which embeds the client. The grace time is in nanoseconds.
pub record GardenBackend (S : Type 0) : Type 0 where
  pub client : Client S
  pub start : Go S (Unit {0})
  pub stop : Go S (Unit {0})
  pub grace_time : GardenContainer S → ℕ
