-- ===== src/Examples.antt =====
-- A world in memory in which the library's laws hold, and runs of the code in it: an object store,
-- a disk, a cache and goleveldb's names, each a concrete function.
pub mod Store
pub mod Sdk
pub mod Disk
pub mod Names
pub mod World
pub mod Uploads
pub mod Calls
mod Parts
pub mod Locks
mod Writers
mod Renames
mod Manifests
pub mod Workers
mod Recoveries
mod Sessions
