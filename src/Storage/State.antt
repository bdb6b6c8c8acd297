-- ===== src/Storage/State.antt =====
-- The state of `S3Storage` and what its methods call: the client, the local files, the LRU cache and
-- goleveldb's names of files. The methods that hold the mutex run one after another, so that each is
-- a function of the state. Log lines are left out.
use levels.Base.{◌≡◌, ◌≢◌, ◌⊎◌, Bool, true, false, Option, none, some, [], Str, Bytes}
use levels.Config.{OpenOption}
use levels.FileDesc.{FileDesc}
use levels.Client.{Context, S3ClientApi}
use levels.Files.{FileSystem}

-- `memFile`
pub record MemFile : Type 0 where
  pub fd : FileDesc
  pub body : Bytes

-- golang-lru, with keys and values of these types
pub record Lru : Type 1 where
  pub State : Type 0
  pub get : Str → State → Option MemFile × State
  pub add : Str → MemFile → State → State
  pub remove : Str → State → State
  pub purge : State → State

-- `cached l k` is what the cache has under `k`. A new entry may push others out.
pub record IsLawfulLru (lru : Lru) (cached : lru.State → Str → Option MemFile) : Type 0 where
  pub get_found : (k : Str) (l : lru.State) → (lru.get k l).0 ≡ cached l k
  pub get_keeps : (k : Str) (l : lru.State) (j : Str) → cached (lru.get k l).1 j ≡ cached l j
  pub add_self : (k : Str) (f : MemFile) (l : lru.State) → cached (lru.add k f l) k ≡ some f
  pub add_other :
      (k : Str) (f : MemFile) (l : lru.State) (j : Str)
      → j ≢ k
      → (cached (lru.add k f l) j ≡ cached l j) ⊎ (cached (lru.add k f l) j ≡ none)
  pub remove_self : (k : Str) (l : lru.State) → cached (lru.remove k l) k ≡ none
  pub remove_other :
      (k : Str) (l : lru.State) (j : Str) → j ≢ k → cached (lru.remove k l) j ≡ cached l j
  pub purge_all : (l : lru.State) (j : Str) → cached (lru.purge l) j ≡ none

-- What the storage is built over. `name` is goleveldb's `FileDesc.String()`.
pub record Env : Type 1 where
  pub api : S3ClientApi
  pub fs : FileSystem
  pub lru : Lru
  pub name : FileDesc → Str

-- The fields of `S3Storage` that `NewS3Storage` sets for good.
pub record Settings : Type 0 where
  pub opt : OpenOption
  pub local_dir : Str
  pub pending_dir : Str
  pub shadow_prefix : Str

-- A method over a state `S` that returns an `A`.
abbrev pub M : Type 0 → Type 0 → Type 0
M S A = S → A × S

abbrev pub return : {S A : Type 0} → A → M S A
return a s = (a, s)

abbrev pub gets : {S A : Type 0} → (S → A) → M S A
gets f s = (f s, s)

infixl 5 ◌>>=◌ ◌>>◌
abbrev pub ◌>>=◌ : {S A B : Type 0} → M S A → (A → M S B) → M S B
◌>>=◌ m f s = let (a, s') = m s in f a s'

abbrev pub ◌>>◌ : {S A B : Type 0} → M S A → M S B → M S B
◌>>◌ m k s = let (a, s') = m s in k s'

-- `if test { m }`, for the effect alone
abbrev pub when : {S A : Type 0} → Bool → M S A → M S Unit
when true m s = (tt, (m s).1)
when false m s = (tt, s)

module _ (E : Env) where
  open E use {api, fs, lru}

  pub record St : Type 0 where
    pub client : api.State
    pub files : fs.State
    pub cache : lru.State
    pub closed : Bool
    pub lock_lost : Bool
    pub lock_held : Bool
    -- the context `s.ctx` is canceled
    pub canceled : Bool
    -- `retryStopCh` is closed
    pub stopped : Bool

  -- Calls of the client, of the local files and of the cache.
  abbrev pub on_client : {A : Type 0} → (api.State → A × api.State) → M St A
  on_client f s = let (a, c) = f s.client in (a, record s { client = c })

  abbrev pub on_files : {A : Type 0} → (fs.State → A × fs.State) → M St A
  on_files f s = let (a, t) = f s.files in (a, record s { files = t })

  abbrev pub on_cache : (lru.State → lru.State) → M St Unit
  on_cache f s = (tt, record s { cache = f s.cache })

  -- `s.ctx`
  abbrev pub own_context : St → Context
  own_context s = record { canceled = s.canceled; timeouts = [] }
