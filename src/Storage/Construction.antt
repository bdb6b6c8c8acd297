-- ===== src/Storage/Construction.antt =====
-- `NewS3Storage` of s3/storage.go. golang-lru's `New` is a parameter. The background retry that it
-- starts is in `Workers.Loop`.
pub mod Laws
use levels.Base.{Bool, true, false, not, List, [], ◌∷◌, Str, is_empty, if◌then◌else◌}
use levels.Base.Int.{ℤ}
use levels.Failure.{GoError, wrapped, wrap, Result, ok, err, Outcome, nil}
use levels.Config.{OpenOption, apply_defaults, validate, local_path, local_persistence_path}
use levels.Storage.State.{Env, Settings, St}

-- What `NewS3Storage` makes.
pub record Opened (E : Env) : Type 0 where
  pub cfg : Settings
  pub storage : St E

module _ (E : Env) (new_lru : ℤ → Result E.lru.State) where
  open E use {api, fs}

  abbrev pub opened : OpenOption → E.lru.State → api.State → fs.State → Opened E
  opened opt cache c f = record {
    cfg = record {
      opt = opt;
      local_dir = local_path opt;
      pending_dir = if opt.enable_local_persistence then local_persistence_path opt else [];
      shadow_prefix = opt.pending_shadow_prefix;
    };
    storage = record {
      client = c;
      files = f;
      cache = cache;
      closed = false;
      lock_lost = false;
      lock_held = false;
      canceled = false;
      stopped = false;
    };
  }

  -- `if dir != "" { os.MkdirAll(dir) }`
  abbrev pub make_dir : Str → fs.State → Outcome × fs.State
  make_dir dir f = if is_empty dir then (nil, f) else fs.mkdir_all dir f

  -- The part behind the LRU cache, for options with their defaults.
  unfoldable pub open_dirs :
      OpenOption → E.lru.State → api.State → fs.State → Result (Opened E) × fs.State
  open_dirs opt cache c f =
      let (made, f1) = make_dir (local_path opt) f in
      elim made [
        | err e ↦ (err (wrapped "failed to create local cache dir" e), f1)
        | ok _ ↦
            let (pending, f2) =
              if opt.enable_local_persistence
              then fs.mkdir_all (local_persistence_path opt) f1
              else (nil, f1) in
            elim pending [
              | err e ↦ (err (wrapped "failed to create pending upload dir" e), f2)
              | ok _ ↦ (ok (opened opt cache c f2), f2)
            ]
      ]

  unfoldable pub new_s3_storage : OpenOption → api.State → fs.State → Result (Opened E) × fs.State
  new_s3_storage given c f =
      let opt = apply_defaults given in
      elim (validate opt) [
        | err e ↦ (err e, f)
        | ok _ ↦ elim (new_lru opt.max_cache_size) [
          | err e ↦ (err (wrapped "failed to create LRU cache" e), f)
          | ok cache ↦ open_dirs opt cache c f
        ]
      ]
