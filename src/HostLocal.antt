-- ===== src/HostLocal.antt =====
-- plugins/ipam/host-local: the allocator of addresses from ranges, and its store on disk.
pub mod Range
pub mod RangeSet
pub mod Store
pub mod Iter
pub mod Allocator
pub mod Config
pub mod ConfigLaws
pub mod Commands
pub mod Rollback
pub mod Leak
pub mod CommandExamples
pub mod Disk
pub mod Examples
