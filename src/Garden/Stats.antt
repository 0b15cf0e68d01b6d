-- ===== src/Garden/Stats.antt =====
-- What a container of the garden API has used
-- (Godeps/_workspace/src/github.com/cloudfoundry-incubator/garden: container.go).
use garden_docker.Base.{ℕ, Option, Error}

pub record ContainerMemoryStat : Type 0 where
  pub cache : ℕ
  pub rss : ℕ
  pub mapped_file : ℕ
  pub pgpgin : ℕ
  pub pgpgout : ℕ
  pub swap : ℕ
  pub pgfault : ℕ
  pub pgmajfault : ℕ
  pub inactive_anon : ℕ
  pub active_anon : ℕ
  pub inactive_file : ℕ
  pub active_file : ℕ
  pub unevictable : ℕ
  pub hierarchical_memory_limit : ℕ
  pub hierarchical_memsw_limit : ℕ
  pub total_cache : ℕ
  pub total_rss : ℕ
  pub total_mapped_file : ℕ
  pub total_pgpgin : ℕ
  pub total_pgpgout : ℕ
  pub total_swap : ℕ
  pub total_pgfault : ℕ
  pub total_pgmajfault : ℕ
  pub total_inactive_anon : ℕ
  pub total_active_anon : ℕ
  pub total_inactive_file : ℕ
  pub total_active_file : ℕ
  pub total_unevictable : ℕ

pub record ContainerCpuStat : Type 0 where
  pub usage : ℕ
  pub user : ℕ
  pub system : ℕ

pub record ContainerDiskStat : Type 0 where
  pub bytes_used : ℕ
  pub inodes_used : ℕ

pub record Metrics : Type 0 where
  pub memory_stat : ContainerMemoryStat
  pub cpu_stat : ContainerCpuStat
  pub disk_stat : ContainerDiskStat

pub record ContainerMetricsEntry : Type 0 where
  pub metrics : Metrics
  pub err : Option Error

-- `garden.Metrics{}`
abbrev pub no_metrics : Metrics
no_metrics = record {
  memory_stat = record {
    cache = 0;
    rss = 0;
    mapped_file = 0;
    pgpgin = 0;
    pgpgout = 0;
    swap = 0;
    pgfault = 0;
    pgmajfault = 0;
    inactive_anon = 0;
    active_anon = 0;
    inactive_file = 0;
    active_file = 0;
    unevictable = 0;
    hierarchical_memory_limit = 0;
    hierarchical_memsw_limit = 0;
    total_cache = 0;
    total_rss = 0;
    total_mapped_file = 0;
    total_pgpgin = 0;
    total_pgpgout = 0;
    total_swap = 0;
    total_pgfault = 0;
    total_pgmajfault = 0;
    total_inactive_anon = 0;
    total_active_anon = 0;
    total_inactive_file = 0;
    total_active_file = 0;
    total_unevictable = 0;
  };
  cpu_stat = record { usage = 0; user = 0; system = 0 };
  disk_stat = record { bytes_used = 0; inodes_used = 0 };
}
