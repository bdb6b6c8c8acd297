-- ===== src/Examples/Recoveries.antt =====
-- Recovery in memory: CURRENT names a manifest that only the disk has; and a new storage.
use levels.Base.{
  ◌≡◌, refl, false, none, [], ◌∷◌, List, codes, All, str_dec, has_prefix, strip_prefix, ℕ_discrete,
}
use levels.Base.Int.{ℤ}
use levels.Failure.{Result, ok, nil, is_retryable}
use levels.FileDesc.{is_metadata_key}
use levels.Files.{DirEntry, contains_slash}
use levels.Retry.{with_retry, retry_loop}
use levels.Client.S3Client.{put_bytes, put_attempt, path_key}
use levels.Config.{
  OpenOption, join, apply_defaults, validate, local_path, local_persistence_path, positive_or,
  nonempty_or, true_unless_true,
}
use levels.Storage.State.{St}
use levels.Storage.Laws.{local}
use levels.Storage.Upload.{pending_path}
use levels.Storage.Recovery.{sync_local_to_s3, sync_entries, sync_entry, remove_all_orphaned}
use levels.Storage.Recovery.Local.{IsSynced, sync_local_to_s3_ok}
use levels.Storage.Workers.Apart.{IsListing}
use levels.Storage.Construction.{Opened, opened, new_s3_storage, open_dirs}
use levels.Storage.Construction.Laws.{
  IsReady, new_s3_storage-IsReady, remove_all_orphaned-new_s3_storage,
}
use levels.Examples.World.{env, env_laws, settings, world, options}

-- The manifest was lost on its way to the object store.
abbrev interrupted : St env
interrupted = record (world false false) {
  client = record { objects = (codes "db/CURRENT", codes "MANIFEST-000012\n") ∷ []; down = false };
  files = record { entries = (codes "/c/db/MANIFEST-000012", 1 ∷ []) ∷ []; full = false };
}

abbrev cached : List DirEntry
cached = record { name = codes "MANIFEST-000012"; is_dir = false; info = ok 1 } ∷ []

listed : env.fs.read_dir settings.local_dir interrupted.files ≡ ok cached
unfolding strip_prefix contains_slash
listed = refl

syncs : (sync_local_to_s3 env settings interrupted).0 ≡ nil
unfolding sync_local_to_s3 sync_entries sync_entry put_bytes put_attempt path_key with_retry
    retry_loop is_retryable is_metadata_key has_prefix strip_prefix str_dec ℕ_discrete join
    contains_slash
syncs = refl

cached-IsListing : IsListing cached
cached-IsListing =
    unfold contains_slash in record { distinct = (tt, tt); plain = ((refl, refl), tt) }

sync_local_to_s3_ok_example :
    All
      (IsSynced settings env_laws interrupted (sync_local_to_s3 env settings interrupted).1)
      cached
sync_local_to_s3_ok_example =
    sync_local_to_s3_ok settings env_laws interrupted cached refl listed cached-IsListing syncs

-- Options without a directory for the pending files.
abbrev given : OpenOption
given = record options { local_persistence_dir = [] }

abbrev new_lru : ℤ → Result env.lru.State
new_lru n = ok []

abbrev made : Opened env
made = opened env new_lru (apply_defaults given) [] interrupted.client interrupted.files

makes : (new_s3_storage env new_lru given interrupted.client interrupted.files).0 ≡ ok made
unfolding new_s3_storage open_dirs apply_defaults validate local_path local_persistence_path
    positive_or nonempty_or true_unless_true join
makes = refl

new_s3_storage-IsReady_example : IsReady new_lru made
new_s3_storage-IsReady_example =
    new_s3_storage-IsReady new_lru given interrupted.client interrupted.files made makes

remove_all_orphaned-new_s3_storage_example :
    local env_laws
      (remove_all_orphaned env made.cfg interrupted).1
      (pending_path env made.cfg (codes "000007.log"))
    ≡ none
remove_all_orphaned-new_s3_storage_example =
    remove_all_orphaned-new_s3_storage new_lru env_laws given interrupted.client interrupted.files
      made interrupted (codes "000007.log") makes refl refl refl
