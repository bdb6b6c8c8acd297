-- ===== src/Examples/Uploads.antt =====
-- Uploads, renames of pending files and the fence, run in memory.
use levels.Base.{
  ◌≡◌, ◌≢◌, ◌⊎◌, ◌++◌, ◌∙◌, subst, refl, true, false, some, [], ◌∷◌, Str, Bytes, codes, All,
  str_dec, has_prefix, strip_prefix, ℕ_discrete, arith,
}
use mathlib.Core.List.{append_assoc}
use levels.Base.Int.{pos}
use levels.Base.Checksum.{checksum}
use levels.Failure.{nil, is_retryable}
use levels.FileDesc.{FileDesc, type_journal, is_metadata_key}
use levels.Files.{IsTemp, atomic_write_file, dir_of, contains_slash}
use levels.Retry.{with_retry, retry_loop, back_off, calc_backoff, sleep_ctx, exp_delay}
use levels.Client.S3Client.{put_bytes, put_attempt, path_key, remove, delete_attempt}
use levels.Config.{join}
use levels.Storage.Laws.{remote, local, in_cache}
use levels.Storage.Upload.{
  too_large, put, persist_to_local, upload_file, upload_to_shadow, pending_path, after_upload,
  clean_shadow,
}
use levels.Storage.Upload.Laws.{upload_file_no_loss, upload_file_ok}
use levels.Examples.World.{env, env_laws, settings, world}

abbrev pub journal : FileDesc
journal = record { file_type = type_journal; num = pos 7 }

abbrev pub body : Bytes
body = 1 ∷ 2 ∷ 3 ∷ []

-- A path without a dash is no temporary one.
rest_All : (s t : Str) → All (λ c. c ≢ b'-') (s ++ t) → All (λ c. c ≢ b'-') t
rest_All [] t h = h
rest_All (c ∷ s) t h = rest_All s t h.1

pub dashless_path : (p : Str) → All (λ c. c ≢ b'-') p → ¬ IsTemp p
dashless_path p h (dir, rest, e) =
    let tail =
      rest_All dir (codes "/.tmp-" ++ rest)
        (subst (All (λ c. c ≢ b'-')) (e ∙ append_assoc dir (codes "/.tmp-") rest) h) in
    ground (arith, tail)

journal_path : pending_path env settings (env.name journal) ≡ codes "/p/000007.log"
unfolding join
journal_path = refl

pub journal_plain : ¬ IsTemp (pending_path env settings (env.name journal))
journal_plain = rw journal_path (dashless_path (codes "/p/000007.log") (ground arith))

persists :
    (persist_to_local env settings journal body
      (put env settings (env.name journal) body (world true false)).1).0
    ≡ nil
unfolding persist_to_local put_bytes put_attempt with_retry retry_loop back_off calc_backoff
    sleep_ctx exp_delay is_retryable path_key is_metadata_key has_prefix strip_prefix join
    atomic_write_file dir_of contains_slash checksum upload_to_shadow str_dec ℕ_discrete
persists = refl

fits : too_large env settings (env.name journal) body ≡ false
unfolding is_metadata_key has_prefix strip_prefix str_dec ℕ_discrete
fits = refl

upload_file_no_loss_example :
    let t = (upload_file env settings journal body (world true false)).1 in
    (remote env_laws t (codes "000007.log") ≡ some body)
    ⊎ (local env_laws t (pending_path env settings (codes "000007.log")) ≡ some body)
upload_file_no_loss_example =
    upload_file_no_loss settings env_laws journal body (world true false) journal_plain refl fits
      refl persists

uploads : (upload_file env settings journal body (world false false)).0 ≡ nil
unfolding upload_file after_upload put_bytes put_attempt with_retry retry_loop is_retryable path_key
    is_metadata_key has_prefix strip_prefix join str_dec ℕ_discrete clean_shadow remove
    delete_attempt
uploads = refl

upload_file_ok_example :
    let t = (upload_file env settings journal body (world false false)).1 in
    (remote env_laws t (codes "000007.log") ≡ some body)
    × (in_cache env_laws t (codes "000007.log") ≡ some (record { fd = journal; body = body }))
upload_file_ok_example = upload_file_ok settings env_laws journal body (world false false) uploads
