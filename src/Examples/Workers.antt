-- ===== src/Examples/Workers.antt =====
-- The workers on two files in the pending directory, in memory.
use levels.Base.{
  ◌≡◌, ◌≢◌, ◌≤◌, ◌++◌, refl, Bool, true, false, some, [], ◌∷◌, List, ℕ, Str, codes, All, str_dec,
  strip_prefix, has_suffix, ℕ_discrete, arith, leb, ap, ◌∙◌, inl, inr, Option-cases,
  has_suffix-append,
}
use levels.Base.Int.{pos}
use levels.Failure.{ok, nil, Outcome}
use levels.FileDesc.{
  type_table, parse_file_desc, scan_number_dot_word, scan_manifest, by_extension,
  pending_file_priority,
}
use levels.FileDesc.Scan.{scan_int, scan_word}
use levels.Files.{DirEntry, contains_slash}
use levels.Retry.{with_retry, retry_loop}
use levels.Client.S3Client.{list_names, list_names_attempt, read_pages, path_prefix, relative_names}
use levels.Config.{join}
use levels.Pool.{Event, start, advance, running}
use levels.Storage.State.{Settings, St}
use levels.Storage.Laws.{remote, local}
use levels.Storage.Pending.{
  PendingFileEntry, read_pending_files, read_entries, read_pending_file, is_corrupted,
  sort_by_priority, insert_by_priority,
}
use levels.Storage.Workers.{
  sync_from_shadow, restore_shadows, sync_pending_to_s3, retry_pending_files_once,
}
use levels.Storage.Workers.Apart.{IsListing}
use levels.Storage.Workers.Laws.{Saved, sync_pending_to_s3_no_loss}
use levels.Storage.Workers.Retrying.{retry_pending_files_once_no_loss}
use levels.Storage.Workers.Ends.{
  sync_pending_to_s3_ends, retry_pending_files_once_ends, workers_bounded,
}
use levels.Storage.Workers.Loop.{LoopEvent, wake, work, Background, background_run}
use levels.Storage.Workers.Shadow.{StatFinds, sync_from_shadow_keeps}
use levels.Examples.World.{env, env_laws, settings, world, options}
use levels.Examples.Store.{find}
use levels.Examples.Uploads.{journal, body}

-- A journal and a table wait.
abbrev pub crashed : St env
crashed = record (world false false) {
  files = record {
    entries = (codes "/p/000007.log", body) ∷ (codes "/p/000009.ldb", 4 ∷ []) ∷ [];
    full = false;
  };
}

abbrev listing : List DirEntry
listing =
    record { name = codes "000007.log"; is_dir = false; info = ok 3 }
    ∷ record { name = codes "000009.ldb"; is_dir = false; info = ok 1 }
    ∷ []

abbrev pub pending_journal : PendingFileEntry
pending_journal = record {
  name = codes "000007.log";
  body = body;
  fd = journal;
  local_path = codes "/p/000007.log";
}

abbrev pending_table : PendingFileEntry
pending_table = record {
  name = codes "000009.ldb";
  body = 4 ∷ [];
  fd = record { file_type = type_table; num = pos 9 };
  local_path = codes "/p/000009.ldb";
}

abbrev files : List PendingFileEntry
files = pending_table ∷ pending_journal ∷ []

-- Both goroutines run, the second one first; the first has not ended.
abbrev schedule : List Event
schedule = start ∷ start ∷ advance 1 ∷ advance 0 ∷ advance 1 ∷ advance 1 ∷ advance 0 ∷ []

listing-IsListing : IsListing listing
listing-IsListing =
    unfold contains_slash in
    record {
      distinct = (((λ e. ground (arith, e), λ e. ground (arith, e)), tt), (tt, tt));
      plain = ((refl, refl), ((refl, refl), tt));
    }

abbrev pub never : PendingFileEntry → ℕ → Bool
never f n = false

listed : env.fs.read_dir settings.pending_dir crashed.files ≡ ok listing
unfolding strip_prefix contains_slash
listed = refl

reads : (read_pending_files env settings crashed).0 ≡ ok files
unfolding read_pending_files read_entries read_pending_file is_corrupted sort_by_priority
    insert_by_priority parse_file_desc scan_number_dot_word scan_manifest by_extension scan_int
    scan_word strip_prefix has_suffix contains_slash str_dec ℕ_discrete join pending_file_priority
reads = refl

retry_pending_files_once_no_loss_example :
    All
      (Saved settings env_laws
        (λ f. env.name f.fd)
        (retry_pending_files_once env settings never schedule crashed).1)
      files
retry_pending_files_once_no_loss_example =
    retry_pending_files_once_no_loss settings env_laws never schedule crashed listing files refl
      listed listing-IsListing reads (refl, (refl, tt))

abbrev restored : St env
restored = (sync_from_shadow env settings crashed).1

listed_later : env.fs.read_dir settings.pending_dir restored.files ≡ ok listing
unfolding strip_prefix contains_slash sync_from_shadow list_names list_names_attempt read_pages
    path_prefix relative_names with_retry retry_loop restore_shadows
listed_later = refl

reads_later : (read_pending_files env settings restored).0 ≡ ok files
unfolding read_pending_files read_entries read_pending_file is_corrupted sort_by_priority
    insert_by_priority parse_file_desc scan_number_dot_word scan_manifest by_extension scan_int
    scan_word strip_prefix has_suffix contains_slash str_dec ℕ_discrete join sync_from_shadow
    list_names list_names_attempt read_pages path_prefix relative_names with_retry retry_loop
    restore_shadows pending_file_priority
reads_later = refl

sync_pending_to_s3_no_loss_example :
    let (r, t) = sync_pending_to_s3 env settings schedule crashed in
    All (Saved settings env_laws (λ f. f.name) t) files
    × (r ≡ some nil → All (λ f. remote env_laws t f.name ≡ some f.body) files)
sync_pending_to_s3_no_loss_example =
    sync_pending_to_s3_no_loss settings env_laws schedule crashed listing files refl listed_later
      listing-IsListing reads_later

sync_pending_to_s3_ends_example :
    (more : List Event) × (r : Outcome) × ((sync_pending_to_s3 env settings
        (schedule ++ more)
        crashed).0
      ≡ some r)
sync_pending_to_s3_ends_example = sync_pending_to_s3_ends env settings schedule crashed

-- Each file has three rounds.
abbrev hurried : Settings
hurried = record settings { opt = record options { retry_max_duration = pos 10 } }

abbrev late : PendingFileEntry → ℕ → Bool
late f n = leb 3 n

retry_pending_files_once_ends_example :
    (more : List Event) × ((retry_pending_files_once env hurried late
        (schedule ++ more)
        (world true false)).0
      ≡ true)
retry_pending_files_once_ends_example =
    retry_pending_files_once_ends env hurried late (λ f. 3) schedule (world true false) refl
      (λ f n h. ground arith)

-- The background retry with nothing running.
abbrev quiet : Background env settings
quiet = record { storage = record crashed { lock_held = true }; slots = []; last_round = false }

abbrev two_starts : List LoopEvent
two_starts = wake false ∷ work never start ∷ work never start ∷ []

workers_bounded_example : running (background_run env settings two_starts quiet).slots ≤ 4
workers_bounded_example =
    workers_bounded env settings two_starts quiet 4 refl (inl (omega arith, refl))

not_checksum : (p : Str) → codes "/p/000007.log" ≢ p ++ codes ".cksum"
unfolding has_suffix str_dec ℕ_discrete
not_checksum p e =
    let is : has_suffix (codes "/p/000007.log") (codes ".cksum") ≡ true =
      ap (λ x. has_suffix x (codes ".cksum")) e ∙ has_suffix-append p (codes ".cksum") in
    absurd (cc)

stat_finds : StatFinds settings env_laws
unfolding env_laws
stat_finds p f h = elim (Option-cases (find f.entries p)) [
  | inl missing ↦ absurd (h missing)
  | inr (d, there) ↦ ground arith
]

journal_waits : local env_laws crashed (codes "/p/000007.log") ≡ some body
unfolding env_laws str_dec ℕ_discrete
journal_waits = refl

sync_from_shadow_keeps_example :
    local env_laws (sync_from_shadow env settings crashed).1 (codes "/p/000007.log") ≡ some body
sync_from_shadow_keeps_example =
    sync_from_shadow_keeps settings env_laws (codes "/p/000007.log") body crashed stat_finds
      not_checksum journal_waits
