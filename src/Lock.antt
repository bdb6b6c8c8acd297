-- ===== src/Lock.antt =====
-- s3/lock.go: `S3Lock`. The lock's goroutine is the step `renewal_tick`; the channel of lease errors
-- is what waits in it. The process, the clock and the random numbers are those of `Host`.
pub mod Text
pub mod Laws
pub mod Renewal
use levels.Base.{
  ℕ, List, [], ◌∷◌, ◌+◌, ◌%◌, Bool, true, false, not, ◌&&◌, ◌||◌, Option, none, some, Str, Bytes,
  codes, str_eq, if◌then◌else◌,
}
use levels.Base.Int.{ℤ, pos, pos_part, ltb_ℤ, sub_saturated}
use levels.Failure.{GoError, lock_held, wrapped, Result, ok, err, Outcome, nil, is_ok}
use levels.Config.{OpenOption, join, local_path}
use levels.Client.{Context, S3ClientApi}
use levels.Files.{FileSystem, dir_of}
use levels.Storage.State.{M, return, gets, ◌>>=◌, ◌>>◌}
use Text.{lock_text, read_lock_text, equal_ℤ}

pub record Host : Type 1 where
  pub State : Type 0
  pub pid : ℤ
  -- `time.Now().UnixNano()`
  pub now : State → ℤ × State
  -- `rand.Int(rand.Reader, big.NewInt(1000000))`
  pub random : State → Result ℕ × State
  -- `os.FindProcess`, and the answer of the process to a nil signal
  pub find_process : ℤ → State → Outcome
  pub signal : ℤ → State → Outcome

pub record LockEnv : Type 1 where
  pub api : S3ClientApi
  pub fs : FileSystem
  pub host : Host

abbrev pub lock_key : Str
lock_key = codes "LOCK"

module _ (E : LockEnv) (opt : OpenOption) where
  open E use {api, fs, host}

  pub record LockState : Type 0 where
    pub client : api.State
    pub files : fs.State
    pub host_state : host.State
    pub lock_id : Str
    -- `stopCh` is closed
    pub stopped : Bool
    -- the goroutine of the renewal runs
    pub renewing : Bool
    -- what waits in `leaseErrCh`
    pub lease_err : Option GoError

  abbrev on_client : {A : Type 0} → (api.State → A × api.State) → M LockState A
  on_client f s = let (a, c) = f s.client in (a, record s { client = c })

  abbrev on_files : {A : Type 0} → (fs.State → A × fs.State) → M LockState A
  on_files f s = let (a, t) = f s.files in (a, record s { files = t })

  abbrev on_host : {A : Type 0} → (host.State → A × host.State) → M LockState A
  on_host f s = let (a, h) = f s.host_state in (a, record s { host_state = h })

  abbrev pub local_lock_path : Str
  local_lock_path = join (local_path opt) lock_key

  unfoldable pub random_int : M LockState ℤ
  random_int = do
    n ← on_host host.random
    elim n [
      | ok n ↦ return (pos n)
      | err _ ↦ do t ← on_host host.now; return (pos (pos_part t % 1000000))
    ]

  unfoldable pub is_process_running : ℤ → LockState → Bool
  is_process_running pid s =
      is_ok (host.find_process pid s.host_state) && is_ok (host.signal pid s.host_state)

  unfoldable pub is_lock_holder : Bytes → Result Bytes → LockState → Bool
  is_lock_holder remote local s = elim local [
    | err _ ↦ false
    | ok _ ↦ elim (fs.read_file local_lock_path s.files) [
      | err _ ↦ false
      | ok text ↦ str_eq text remote
    ]
  ]

  -- At a time `now`.
  unfoldable pub is_lock_stale : Bytes → ℤ → LockState → Bool
  unfolding read_lock_text
  is_lock_stale text now s = elim (read_lock_text text) [
    | none ↦ true
    | some (pid, timestamp, rnd) ↦
        if ltb_ℤ opt.lease_duration (sub_saturated now timestamp)
        then true
        else not (equal_ℤ pid host.pid) && not (is_process_running pid s)
  ]

  unfoldable pub acquire_lock : Context → M LockState Outcome
  acquire_lock ctx = do
    made ← on_files (fs.mkdir_all (dir_of local_lock_path))
    elim made [
      | err e ↦ return (err (wrapped "failed to create local lock directory" e))
      | ok _ ↦ do
        id ← gets (λ s. s.lock_id)
        written ← on_files (fs.write_file local_lock_path id)
        elim written [
          | err e ↦ return (err (wrapped "failed to write local lock file" e))
          | ok _ ↦ do
            put ← on_client (api.put_bytes ctx lock_key id)
            elim put [
              | ok _ ↦ return nil
              | err e ↦ do
                on_files (fs.remove local_lock_path)
                return (err (wrapped "failed to put remote lock" e))
            ]
        ]
    ]

  -- The end of `Lock`: the lock is written, and its renewal starts.
  unfoldable pub take_lock : Context → M LockState Outcome
  take_lock ctx s =
      let (r, t) = acquire_lock ctx s in
      elim r [
        | err e ↦ (err (wrapped "failed to acquire lock" e), t)
        | ok _ ↦ (nil, record t { renewing = true })
      ]

  unfoldable pub replace_stale : Context → Bytes → M LockState Outcome
  replace_stale ctx text = do
    now ← on_host host.now
    stale ← gets (is_lock_stale text now)
    if stale then take_lock ctx else return (err lock_held)

  -- `Lock` once a remote lock has been found.
  unfoldable pub contest : Context → Result Bytes → M LockState Outcome
  contest ctx local = do
    text ← on_client (api.get_bytes ctx lock_key)
    elim text [
      | err e ↦ return (err (wrapped "failed to read remote lock" e))
      | ok text ↦ do
        holder ← gets (is_lock_holder text local)
        if holder then take_lock ctx else replace_stale ctx text
    ]

  unfoldable pub new_lock_id : M LockState Unit
  new_lock_id = do
    now ← on_host host.now
    rnd ← random_int
    λ s. (tt, record s { lock_id = lock_text host.pid now rnd })

  -- The rest of `Lock`, with its identity made.
  unfoldable pub lock_as : Context → M LockState Outcome
  lock_as ctx = do
    local ← gets (λ s. fs.read_file local_lock_path s.files)
    found ← on_client (api.exists ctx lock_key)
    elim found [
      | err e ↦ return (err (wrapped "failed to check remote lock" e))
      | ok true ↦ contest ctx local
      | ok false ↦ take_lock ctx
    ]

  unfoldable pub lock : Context → M LockState Outcome
  lock ctx = do new_lock_id; lock_as ctx

  abbrev release_remote_lock : Context → M LockState Outcome
  release_remote_lock ctx = on_client (api.remove ctx lock_key)

  unfoldable pub unlock : Context → M LockState Outcome
  unlock ctx s =
      let s0 = record s { stopped = true } in
      (do
        removed ← release_remote_lock ctx
        elim removed [
          | err e ↦ return (err (wrapped "failed to release remote lock" e))
          | ok _ ↦ do on_files (fs.remove local_lock_path); return nil
        ])
        s0

  abbrev renew_lease : Context → M LockState Outcome
  renew_lease ctx s = on_client (api.put_bytes ctx lock_key s.lock_id) s

  -- One round of the renewing goroutine, at a tick. If it was stopped or its context is done,
  -- `first` says whether it sees that before the tick.
  unfoldable pub renewal_tick : Context → Bool → LockState → LockState
  renewal_tick ctx first s =
      let (r, t) = renew_lease ctx s in
      if not s.renewing
      then s
      else if first && (s.stopped || ctx.canceled)
      then record s { renewing = false }
      else elim r [
        | ok _ ↦ t
        | err e ↦ record t {
          renewing = false;
          lease_err = elim s.lease_err [
            | none ↦ some (wrapped "lease renewal failed" e)
            | some e' ↦ some e'
          ];
        }
      ]

  -- Rounds at one tick after another.
  unfoldable pub renew_all : List (Context × Bool) → LockState → LockState
  renew_all [] s = s
  renew_all ((ctx, first) ∷ ticks) s = renew_all ticks (renewal_tick ctx first s)
