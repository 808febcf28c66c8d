-- ===== src/Collector.antt =====
-- internal/collector: the collectors.
pub mod Cgroup
pub mod Histogram
pub mod Gpu
pub mod Meminfo
pub mod Pressure
pub mod Vllm
pub mod Hugepages
pub mod Scan
pub mod Numa
pub mod Stat
pub mod Vmstat
pub mod Tests
pub mod SysTests
pub mod ToolTests
