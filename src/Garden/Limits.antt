-- ===== src/Garden/Limits.antt =====
-- The limits of a container of the garden API, and of a process in it
-- (Godeps/_workspace/src/github.com/cloudfoundry-incubator/garden: container.go).
use garden_docker.Base.{ℕ, Option, none}

pub record BandwidthLimits : Type 0 where
  pub rate_in_bytes_per_second : ℕ
  pub burst_rate_in_bytes_per_second : ℕ

pub record DiskLimits : Type 0 where
  pub block_soft : ℕ
  pub block_hard : ℕ
  pub inode_soft : ℕ
  pub inode_hard : ℕ
  pub byte_soft : ℕ
  pub byte_hard : ℕ

pub record MemoryLimits : Type 0 where
  pub limit_in_bytes : ℕ

pub record CpuLimits : Type 0 where
  pub limit_in_shares : ℕ

-- The limits of a process, each of which may be nil. The fields `As` and `Data` are address_space
-- and data_segment.
pub record ResourceLimits : Type 0 where
  pub address_space : Option ℕ
  pub core : Option ℕ
  pub cpu : Option ℕ
  pub data_segment : Option ℕ
  pub fsize : Option ℕ
  pub locks : Option ℕ
  pub memlock : Option ℕ
  pub msgqueue : Option ℕ
  pub nice : Option ℕ
  pub nofile : Option ℕ
  pub nproc : Option ℕ
  pub rss : Option ℕ
  pub rtprio : Option ℕ
  pub sigpending : Option ℕ
  pub stack : Option ℕ

-- `garden.ResourceLimits{}`
abbrev pub no_limits : ResourceLimits
no_limits = record {
  address_space = none;
  core = none;
  cpu = none;
  data_segment = none;
  fsize = none;
  locks = none;
  memlock = none;
  msgqueue = none;
  nice = none;
  nofile = none;
  nproc = none;
  rss = none;
  rtprio = none;
  sigpending = none;
  stack = none;
}
