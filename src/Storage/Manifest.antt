-- ===== src/Storage/Manifest.antt =====
-- `findLatestLocalManifest` and `findLatestPendingManifest`: the search for a manifest from which a
-- crashed session is recovered.
pub mod Laws
use levels.Base.{
  Bool, not, ◌||◌, List, [], ◌∷◌, Option, none, some, Str, Bytes, is_empty, has_suffix,
  if◌then◌else◌,
}
use levels.Base.Int.{ℤ, pos, ltb_ℤ}
use levels.Failure.{not_exist, plain, Result, ok, err}
use levels.Config.{join}
use levels.FileDesc.{type_manifest, FileDesc, scan_manifest}
use levels.Files.{DirEntry}
use levels.Storage.State.{Env, Settings, St}
use levels.Storage.Upload.{cksum, has_pending_dir}

-- One round of the loop of both: the best number so far, and the name that has it.
unfoldable pub better_manifest : (DirEntry → Bool) → DirEntry → ℤ × Str → ℤ × Str
better_manifest skip entry best = if skip entry then best else elim (scan_manifest entry.name) [
  | none ↦ best
  | some num ↦ if ltb_ℤ best.0 num then (num, entry.name) else best
]

unfoldable pub best_manifest : (DirEntry → Bool) → List DirEntry → ℤ × Str → ℤ × Str
best_manifest skip [] best = best
best_manifest skip (entry ∷ entries) best =
    best_manifest skip entries (better_manifest skip entry best)

abbrev pub is_directory : DirEntry → Bool
is_directory entry = entry.is_dir

abbrev pub is_no_manifest : DirEntry → Bool
is_no_manifest entry = entry.is_dir || has_suffix entry.name cksum

module _ (E : Env) (cfg : Settings) where
  open E use {fs}

  -- The search in a directory, by the entries that it passes over.
  unfoldable pub find_in : Str → (DirEntry → Bool) → St E → Result (FileDesc × Bytes)
  find_in dir skip s = elim (fs.read_dir dir s.files) [
    | err e ↦ err e
    | ok entries ↦
        let best = best_manifest skip entries (pos 0, []) in
        if is_empty best.1
        then err (plain "no MANIFEST file found")
        else elim (fs.read_file (join dir best.1) s.files) [
          | err e ↦ err e
          | ok body ↦ ok (record { file_type = type_manifest; num = best.0 }, body)
        ]
  ]

  unfoldable pub find_latest_local_manifest : St E → Result (FileDesc × Bytes)
  find_latest_local_manifest s = find_in cfg.local_dir is_directory s

  unfoldable pub find_latest_pending_manifest : St E → Result (FileDesc × Bytes)
  find_latest_pending_manifest s =
      if not (has_pending_dir E cfg)
      then err not_exist
      else find_in cfg.pending_dir is_no_manifest s
