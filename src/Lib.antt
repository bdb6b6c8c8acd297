-- ===== src/Lib.antt =====
-- Verification of a LevelDB storage on S3: the Go package s3 of this repository, which implements
-- goleveldb's `storage.Storage` over a bucket, with a distributed lock, a local cache and a
-- directory of pending files for uploads that failed.
--
-- The parts and their files:
-- - Base, Base/*: the shared library: bytes, Boolean tests, lists, CRC-32, and Go's `int64` with
--   its wrap-around.
-- - Failure: s3/errors.go and the errors of other packages that the code tells apart.
-- - Config: s3/config.go. ApplyDefaults, Validate and the two paths are functions of the options.
-- - Retry: s3/retry.go. `with_retry` is WithRetry: a loop by recursion on the attempts that are
--   left, which is `maxAttempts` at the start, so that no fuel is added. Timer stands for the
--   context, the clock and math/rand.
-- - FileDesc: parseFileDesc and pendingFilePriority of s3/storage.go, parseS3Key and isMetadataKey
--   of s3/client.go; FileDesc/Scan is the part of fmt.Sscanf that they use. FileDesc/Naming states
--   the documented form of goleveldb's FileDesc.String, which is a parameter.
-- - Client: S3ClientAPI of s3/interface.go, and `IsContract`, its contract, with `IsLawful`, the
--   part that its callers rely on. Client/S3Client is s3/client.go over a record `Sdk` that stands
--   for the AWS SDK; Client/SdkLaws says what it relies on, and Client/Lawful, Listing and Contract
--   that it meets the contract.
-- - Files: the file system as a record of operations with laws, and atomicWriteFile of
--   s3/storage.go.
-- - Storage: S3Storage of s3/storage.go. Storage/State is its state (client, disk, cache and flags)
--   and the state-passing notation; Upload is uploadFile, persistToLocal and the shadow; Writer is
--   Create, memWriter and memReader; Access is SetMeta, GetMeta, List, Open, Remove and Close;
--   Pending is readPendingFiles, checkPendingPressure, RetryPendingUploads and HasPendingUploads;
--   Rename is Rename; Manifest is findLatestLocalManifest and findLatestPendingManifest; Fencing
--   has the calls of LevelDB as one type, and runs of them. Workers is the goroutines of
--   retryPendingFilesOnce and syncPendingToS3, with uploadWithInfiniteRetry and syncFromShadow, and
--   Workers/Loop is backgroundRetryLoop with its goroutines, as a state and events, and
--   Workers/Quiet follows it once it is told to stop; Recovery is syncLocalToS3, cleanupOrphaned,
--   verifyCurrentManifest, recoverFromLocalCache and removeAllOrphaned; Construction is
--   NewS3Storage. Storage/Owned and Recovery/Owned follow the object LOCK through them.
-- - Pool: goroutines that a loop starts as slots of a semaphore become free, as a state and events:
--   the start of the next one, or a step of one that runs. A schedule is a list of events. What a
--   goroutine does is a parameter, which Storage/Workers gives twice. Pool/Keeps and Pool/Outcomes
--   are the rule by which what each job holds is kept under every schedule, Pool/Progress that
--   every schedule can be continued to the end, Pool/Laws the bound on those that run,
--   Pool/Invariant and Pool/Parts the rules for what every round keeps.
-- - Lock: S3Lock of s3/lock.go; `renewal_tick` is one round of its goroutine, and Host stands for
--   the process, the clock and the random numbers. Lock/Text is the text of a lock, printed and
--   read; Lock/Renewal has NewS3Lock.
-- - Session: Lock and Unlock of S3Storage, storageLocker.Unlock and startLeaseMonitoring, over the
--   state of the storage and that of its lock, which share the store and the disk. Session/System
--   adds the goroutines of the background retry, and what happens in any order: the calls of
--   LevelDB, the steps of the goroutines, Lock, Unlock, the renewal and the monitor.
-- - Examples: a bucket, a disk, a cache and names in memory, that satisfy all the laws, and runs.
--
-- The storage calls a client only by `S3ClientApi`, the disk by `FileSystem` and golang-lru by
-- `Lru`, each a record of operations over a state of its own. The state of the storage has these
-- states as fields, and the laws of the three are collected in `EnvLaws`, over which every theorem
-- of the storage is stated.
--
-- Choices. A call that holds the mutex is one step, Lock with its recovery too: its goroutines
-- interleave with each other, and not with the renewal of the lock. A round of
-- uploadWithInfiniteRetry is one step, and so is each part of the cleanup behind it; other events
-- come between them. A request to the store that is under way is not interrupted, and a stop or a
-- lost lock during a pause is seen by the next round. filepath.Join puts a slash between its parts
-- and cleans nothing; the sum of the sizes in checkPendingPressure has no bound. Nobody else writes
-- to the bucket or the disk during a step. Time is what Timer and Host say; for the retries an
-- argument says at which rounds a file is out of time. A panic of rand.Int63n is an error of its
-- own. sort.Slice keeps the order of equal elements here. Spaces in names are those of ASCII.
--
-- Not modelled: log lines and trace messages; the commands under cmd, which are input and output
-- over goleveldb.
pub mod Base
pub mod Client
pub mod Config
pub mod Examples
pub mod Failure
pub mod FileDesc
pub mod Files
pub mod Lock
pub mod Pool
pub mod Retry
pub mod Session
pub mod Storage
