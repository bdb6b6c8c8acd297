-- ===== src/Storage.antt =====
-- s3/storage.go: `S3Storage`. `State` has its fields and the monad of its methods; the methods are
-- in the modules below, and the laws beside them.
pub mod State
pub mod Laws
pub mod Owned
pub mod Upload
pub mod Writer
pub mod Access
pub mod Pending
pub mod Rename
pub mod Manifest
pub mod Fencing
pub mod Workers
pub mod Recovery
pub mod Construction
