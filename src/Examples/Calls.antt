-- ===== src/Examples/Calls.antt =====
-- The calls of LevelDB in memory: the fence, CURRENT, a file that is opened, and pending files.
use levels.Base.{
  ◌≡◌, ◌⊎◌, refl, true, false, some, none, [], ◌∷◌, List, Bytes, codes, All, trim_space, str_dec,
  has_prefix, strip_prefix, has_suffix, ℕ_discrete, arith,
}
use levels.Base.Int.{pos}
use levels.Base.Checksum.{checksum}
use levels.Failure.{GoError, err, nil, ok, is_retryable}
use levels.FileDesc.{
  FileDesc, type_journal, type_manifest, is_metadata_key, parse_file_desc, scan_number_dot_word,
  scan_manifest, by_extension,
}
use levels.FileDesc.Scan.{scan_int, scan_word}
use levels.Files.{DirEntry, contains_slash}
use levels.Retry.{with_retry, retry_loop}
use levels.Client.S3Client.{put_bytes, put_attempt, path_key, get_bytes, get_attempt}
use levels.Config.{join}
use levels.Storage.State.{own_context, St, MemFile}
use levels.Storage.Laws.{remote, local, in_cache}
use levels.Storage.Upload.{pending_path}
use levels.Storage.Writer.{new_writer}
use levels.Storage.Access.{open_file, open_object, set_meta, get_meta}
use levels.Storage.Access.Laws.{open_file_source, get_meta-set_meta, MetaResult}
use levels.Storage.Pending.{
  PendingFileEntry, read_pending_files, read_entries, read_pending_file, is_corrupted,
  sort_by_priority, retry_entry, retry_entries, retry_pending_uploads,
}
use levels.Storage.Pending.Order.{IsOrdered}
use levels.Storage.Pending.Laws.{read_pending_files_lem, IsPending, retry_overwrites_manifest}
use levels.Storage.Pending.Unfenced.{marked, retry_pending_uploads-marked}
use levels.Storage.Fencing.{Operation, create, write, close_writer, remove, perform_all}
use levels.Storage.Fencing.Laws.{perform_all-IsFenced, IsFenced}
use levels.Examples.World.{env, env_laws, settings, world}
use levels.Examples.Uploads.{journal, body}

abbrev calls : List Operation
calls =
    create journal
    ∷ write (new_writer env settings journal) body
    ∷ close_writer (new_writer env settings journal)
    ∷ remove journal
    ∷ []

perform_all-IsFenced_example :
    IsFenced settings env_laws
      (world false true)
      (perform_all env settings calls (world false true))
perform_all-IsFenced_example = perform_all-IsFenced settings env_laws calls (world false true) refl

sets_meta : (set_meta env settings journal (world false false)).0 ≡ nil
unfolding set_meta put_bytes put_attempt with_retry retry_loop is_retryable path_key is_metadata_key
    has_prefix strip_prefix str_dec ℕ_discrete
sets_meta = refl

get_meta-set_meta_example :
    let t = (set_meta env settings journal (world false false)).1 in
    MetaResult settings env_laws journal t (get_meta env settings t).0
get_meta-set_meta_example =
    get_meta-set_meta settings env_laws type_journal 7 (world false false) (ground arith) sets_meta

-- The object is there, and the cache is empty.
abbrev pub uploaded : St env
uploaded = record (world false false) {
  client = record { objects = (codes "db/000007.log", body) ∷ []; down = false };
}

opens : (open_file env settings journal uploaded).0 ≡ ok (record { body = body; closed = false })
unfolding open_file open_object get_bytes get_attempt with_retry retry_loop path_key str_dec
    ℕ_discrete
opens = refl

open_file_source_example :
    ((f : MemFile) × (in_cache env_laws uploaded (codes "000007.log") ≡ some f) × (body ≡ f.body))
    ⊎ ((in_cache env_laws uploaded (codes "000007.log") ≡ none)
        × (((env.api.get_bytes (own_context env uploaded) (codes "000007.log") uploaded.client).0
              ≡ ok body)
            × (remote env_laws uploaded (codes "000007.log") ≡ some body)))
    ⊎ ((in_cache env_laws uploaded (codes "000007.log") ≡ none)
        × ((e : GoError) × ((env.api.get_bytes
                (own_context env uploaded)
                (codes "000007.log")
                uploaded.client).0
              ≡ err e)
            × (local env_laws uploaded (pending_path env settings (codes "000007.log"))
                ≡ some body)))
open_file_source_example =
    open_file_source settings env_laws journal uploaded (record { body = body; closed = false })
      opens

-- A manifest waits in the pending directory, with its checksum.
abbrev manifest : FileDesc
manifest = record { file_type = type_manifest; num = pos 3 }

abbrev sum_text : Bytes
sum_text = codes "55bc801d"

abbrev waiting : St env
waiting = record (world false false) {
  files = record {
    entries =
        (codes "/p/MANIFEST-000003", body) ∷ (codes "/p/MANIFEST-000003.cksum", sum_text) ∷ [];
    full = false;
  };
}

abbrev manifest_entry : DirEntry
manifest_entry = record { name = codes "MANIFEST-000003"; is_dir = false; info = ok 3 }

abbrev check_entry : DirEntry
check_entry = record { name = codes "MANIFEST-000003.cksum"; is_dir = false; info = ok 8 }

listed : env.fs.read_dir settings.pending_dir waiting.files ≡ ok (manifest_entry ∷ check_entry ∷ [])
unfolding strip_prefix contains_slash
listed = refl

check_read :
    let s1 = (retry_entry env settings manifest_entry waiting).1 in
    env.fs.read_file (pending_path env settings check_entry.name) s1.files ≡ ok sum_text
unfolding retry_entry parse_file_desc scan_number_dot_word scan_manifest by_extension scan_int
    scan_word put_bytes put_attempt with_retry retry_loop path_key is_metadata_key has_prefix
    strip_prefix str_dec ℕ_discrete join
check_read = refl

check_uploaded :
    let s1 = (retry_entry env settings manifest_entry waiting).1 in
    (retry_entry env settings check_entry s1).0 ≡ true
unfolding retry_entry parse_file_desc scan_number_dot_word scan_manifest by_extension scan_int
    scan_word put_bytes put_attempt with_retry retry_loop path_key is_metadata_key has_prefix
    strip_prefix str_dec ℕ_discrete join
check_uploaded = refl

retry_overwrites_manifest_example :
    remote env_laws (retry_pending_uploads env settings waiting).1 (codes "MANIFEST-000003")
    ≡ some sum_text
retry_overwrites_manifest_example =
    retry_overwrites_manifest settings env_laws 3 manifest_entry check_entry sum_text waiting
      (ground arith) refl refl listed refl refl refl check_read check_uploaded

retry_pending_uploads-marked_example :
    retry_pending_uploads env settings (record waiting { lock_lost = true })
    ≡ marked env settings true (retry_pending_uploads env settings waiting)
retry_pending_uploads-marked_example = retry_pending_uploads-marked env settings true waiting

counted : (retry_pending_uploads env settings waiting).0 ≡ ok (2, 0)
unfolding retry_pending_uploads retry_entries retry_entry parse_file_desc scan_number_dot_word
    scan_manifest by_extension scan_int scan_word put_bytes put_attempt with_retry retry_loop
    path_key is_metadata_key has_prefix strip_prefix str_dec ℕ_discrete join contains_slash
counted = refl

abbrev waiting_entry : PendingFileEntry
waiting_entry = record {
  name = codes "MANIFEST-000003";
  body = body;
  fd = manifest;
  local_path = codes "/p/MANIFEST-000003";
}

reads_pending : (read_pending_files env settings waiting).0 ≡ ok (waiting_entry ∷ [])
unfolding read_pending_files read_entries read_pending_file is_corrupted sort_by_priority
    parse_file_desc scan_number_dot_word scan_manifest by_extension scan_int scan_word strip_prefix
    str_dec ℕ_discrete join contains_slash has_suffix trim_space checksum
reads_pending = refl

read_pending_files_lem_example :
    IsOrdered (waiting_entry ∷ []) × All (IsPending settings env_laws waiting) (waiting_entry ∷ [])
read_pending_files_lem_example =
    read_pending_files_lem settings env_laws waiting (waiting_entry ∷ []) reads_pending
