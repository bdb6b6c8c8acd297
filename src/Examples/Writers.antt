-- ===== src/Examples/Writers.antt =====
-- A journal that is written and closed, with the bucket up and down, and a listing.
use levels.Base.{
  ◌≡◌, ◌≢◌, ◌∙◌, sym, ◌&&◌, ◌||◌, not, refl, Bool, true, false, some, [], ◌∷◌, List, Bytes, codes,
  str_dec, ℕ_discrete, has_prefix, has_suffix, strip_prefix,
}
use levels.Base.Int.{pos, mul_int64, shl_one_int64}
use levels.Base.Checksum.{checksum}
use levels.Failure.{GoError, err, wrapped, retryable, retry_exhausted, nil, ok, is_retryable}
use levels.FileDesc.{
  FileDesc, FileType, type_table, is_metadata_key, parse_file_desc, parse_s3_key,
  scan_number_dot_word, scan_manifest, by_extension,
}
use levels.FileDesc.Scan.{scan_int, scan_word}
use levels.Files.{atomic_write_file, dir_of, contains_slash}
use levels.Retry.{with_retry, retry_loop, back_off, calc_backoff, sleep_ctx, exp_delay}
use levels.Client.S3Client.{
  put_bytes, put_attempt, path_key, path_prefix, remove, delete_attempt, list_attempt, read_pages,
  descriptors,
}
use levels.Client.S3Client
use levels.Config.{join}
use levels.Storage.State.{St, own_context}
use levels.Storage.Laws.{remote, in_cache}
use levels.Storage.Upload.{
  upload_file, after_upload, clean_shadow, persist_to_local, upload_to_shadow,
}
use levels.Storage.Writer.{
  MemWriter, copy_and_upload, create, copied_writer, new_writer, should_cache_locally, write, close,
  run_sync,
}
use levels.Storage.Writer.Laws.{write_all, concat, close-write_all, failed_close_reads_empty}
use levels.Storage.Access
use levels.Storage.Access.{
  open_file, seen, of_type, unseen_of_type, pending_files, pending_descs, add_pending,
}
use levels.Storage.Access.Listing.{seen-list}
use levels.Examples.World.{env, env_laws, settings, world}
use levels.Examples.Uploads.{journal}

abbrev writer : MemWriter
writer = record (new_writer env settings journal) {
  local_path = codes "/c/db/000007.log";
  sync_fn = copy_and_upload (codes "/c/db/000007.log");
}

abbrev pieces : List Bytes
pieces = (1 ∷ []) ∷ (2 ∷ 3 ∷ []) ∷ []

creates : (create env settings journal (world false false)).0 ≡ ok writer
unfolding create copied_writer should_cache_locally join
creates = refl

creates_down : (create env settings journal (world true false)).0 ≡ ok writer
unfolding create copied_writer should_cache_locally join
creates_down = refl

closes :
    let (w1, s1) =
      write_all env settings pieces writer (create env settings journal (world false false)).1 in
    (close env settings w1 s1).0.0 ≡ nil
unfolding create copied_writer should_cache_locally join write_all write close run_sync upload_file
    after_upload clean_shadow put_bytes put_attempt remove delete_attempt with_retry retry_loop
    is_retryable path_key is_metadata_key has_prefix strip_prefix str_dec ℕ_discrete
    atomic_write_file dir_of contains_slash
closes = refl

close-write_all_example :
    let (w1, s1) =
      write_all env settings pieces writer (create env settings journal (world false false)).1 in
    let t = (close env settings w1 s1).1 in
    (remote env_laws t (codes "000007.log") ≡ some (concat pieces))
    × (in_cache env_laws t (codes "000007.log")
        ≡ some (record { fd = journal; body = concat pieces }))
close-write_all_example =
    close-write_all settings env_laws journal (world false false) writer pieces creates closes

fails :
    let (w1, s1) =
      write_all env settings pieces writer (create env settings journal (world true false)).1 in
    (close env settings w1 s1).0.0
    ≡ err (wrapped "failed to upload file" (retryable retry_exhausted))
unfolding create copied_writer should_cache_locally join write_all write close run_sync upload_file
    persist_to_local upload_to_shadow put_bytes put_attempt with_retry retry_loop back_off
    calc_backoff sleep_ctx exp_delay is_retryable path_key is_metadata_key has_prefix strip_prefix
    str_dec ℕ_discrete atomic_write_file dir_of contains_slash checksum mul_int64 shl_one_int64
fails = refl

not_nil : {e : GoError} → err e ≢ nil
not_nil h = cc

fails_not_nil :
    let (w1, s1) =
      write_all env settings pieces writer (create env settings journal (world true false)).1 in
    (close env settings w1 s1).0.0 ≢ nil
fails_not_nil e = not_nil (sym fails ∙ e)

failed_close_reads_empty_example :
    let (w1, s1) =
      write_all env settings pieces writer (create env settings journal (world true false)).1 in
    (open_file env settings journal (close env settings w1 s1).1).0
    ≡ ok (record { body = []; closed = false })
failed_close_reads_empty_example =
    failed_close_reads_empty settings env_laws journal (world true false) writer pieces creates_down
      fails_not_nil

-- A table in the bucket and a journal that waits on the disk.
abbrev table : FileDesc
table = record { file_type = type_table; num = pos 3 }

abbrev both : St env
both = record (world false false) {
  client = record { objects = (codes "db/000003.ldb", 1 ∷ []) ∷ []; down = false };
  files = record { entries = (codes "/p/000007.log", 2 ∷ []) ∷ []; full = false };
}

abbrev any_type : FileType → Bool
any_type t = true

lists : (Access.list env settings any_type both).0 ≡ ok (journal ∷ table ∷ [])
unfolding Access.list add_pending pending_files pending_descs of_type unseen_of_type S3Client.list
    list_attempt read_pages descriptors path_prefix with_retry retry_loop parse_s3_key
    parse_file_desc scan_number_dot_word scan_manifest by_extension scan_int scan_word strip_prefix
    has_suffix str_dec ℕ_discrete contains_slash
lists = refl

lists_objects : (env.api.list (own_context env both) both.client).0 ≡ ok (table ∷ [])
unfolding S3Client.list list_attempt read_pages descriptors path_prefix with_retry retry_loop
    parse_s3_key parse_file_desc scan_number_dot_word scan_manifest by_extension scan_int scan_word
    strip_prefix str_dec ℕ_discrete
lists_objects = refl

seen-list_example :
    let k = codes "000003.ldb" in
    let pending = (pending_files env settings both).0 in
    seen env settings k (journal ∷ table ∷ [])
    ≡ seen env settings k (of_type env settings any_type pending)
      || not (seen env settings k pending)
        && seen env settings k (of_type env settings any_type (table ∷ []))
seen-list_example =
    seen-list env settings any_type both (journal ∷ table ∷ []) (table ∷ []) (codes "000003.ldb")
      lists lists_objects
