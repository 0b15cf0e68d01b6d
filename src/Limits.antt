-- ===== src/Limits.antt =====
-- limits.go: limits are accepted and forgotten.
use garden_docker.Base.{Go, pure}
use garden_docker.Garden.{BandwidthLimits, CpuLimits, DiskLimits, MemoryLimits}

-- `LimitsHandler` has no field.
pub record LimitsHandler : Type 0 where

module _ {S : Type 0} (c : LimitsHandler) where
  unfoldable pub limit_bandwidth : BandwidthLimits → Go S (Unit {0})
  limit_bandwidth limits = pure tt

  unfoldable pub current_bandwidth_limits : Go S BandwidthLimits
  current_bandwidth_limits =
      pure (record { rate_in_bytes_per_second = 0; burst_rate_in_bytes_per_second = 0 })

  unfoldable pub limit_cpu : CpuLimits → Go S (Unit {0})
  limit_cpu limits = pure tt

  unfoldable pub current_cpu_limits : Go S CpuLimits
  current_cpu_limits = pure (record { limit_in_shares = 0 })

  unfoldable pub limit_disk : DiskLimits → Go S (Unit {0})
  limit_disk limits = pure tt

  unfoldable pub current_disk_limits : Go S DiskLimits
  current_disk_limits = pure (record {
    block_soft = 0;
    block_hard = 0;
    inode_soft = 0;
    inode_hard = 0;
    byte_soft = 0;
    byte_hard = 0;
  })

  unfoldable pub limit_memory : MemoryLimits → Go S (Unit {0})
  limit_memory limits = pure tt

  unfoldable pub current_memory_limits : Go S MemoryLimits
  current_memory_limits = pure (record { limit_in_bytes = 0 })
