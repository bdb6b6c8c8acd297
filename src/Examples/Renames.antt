-- ===== src/Examples/Renames.antt =====
-- A journal that is renamed in memory.
use levels.Base.{◌≡◌, ◌≢◌, refl, none, codes, str_dec, ℕ_discrete, strip_prefix, arith}
use levels.Base.Int.{pos}
use levels.Failure.{nil}
use levels.FileDesc.{FileDesc, type_journal}
use levels.Retry.{with_retry, retry_loop}
use levels.Client.S3Client.{
  copy, copy_attempt, remove, delete_attempt, put_bytes, put_attempt, path_key, get_bytes,
  get_attempt,
}
use levels.Config.{join}
use levels.Storage.Laws.{remote}
use levels.Storage.Upload.{shadow_key}
use levels.Storage.Writer.{should_cache_locally}
use levels.Storage.Rename.{rename, after_copy, move_cached, move_pending, remove_source, move_local}
use levels.Storage.Rename.Laws.{rename_ok}
use levels.Examples.World.{env, env_laws, settings}
use levels.Examples.Uploads.{journal}
use levels.Examples.Calls.{uploaded}

-- The journal that is in the bucket gets another number.
abbrev renumbered : FileDesc
renumbered = record { file_type = type_journal; num = pos 8 }

renames : (rename env settings journal renumbered uploaded).0 ≡ nil
unfolding rename after_copy move_cached move_pending remove_source move_local should_cache_locally
    copy copy_attempt remove delete_attempt put_bytes put_attempt get_bytes get_attempt with_retry
    retry_loop path_key strip_prefix str_dec ℕ_discrete join
renames = refl

names_differ : env.name journal ≢ env.name renumbered
names_differ e = ground arith

no_shadow : env.name renumbered ≢ shadow_key env settings (env.name journal)
no_shadow e = ground arith

rename_ok_example :
    let t = (rename env settings journal renumbered uploaded).1 in
    (remote env_laws uploaded (codes "000007.log") ≢ none)
    × ((remote env_laws t (codes "000008.log") ≡ remote env_laws uploaded (codes "000007.log"))
        × (remote env_laws t (codes "000007.log") ≡ none))
rename_ok_example =
    rename_ok settings env_laws journal renumbered uploaded names_differ no_shadow renames
