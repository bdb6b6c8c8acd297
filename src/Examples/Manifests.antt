-- ===== src/Examples/Manifests.antt =====
-- Two manifests on the disk, in the local cache and in the pending directory.
use levels.Base.{◌≡◌, refl, [], ◌∷◌, codes, str_dec, ℕ_discrete, strip_prefix, has_suffix, false}
use levels.Base.Int.{pos}
use levels.Failure.{ok}
use levels.FileDesc.{FileDesc, type_manifest, scan_manifest}
use levels.FileDesc.Scan.{scan_int}
use levels.Files.{contains_slash}
use levels.Config.{join}
use levels.Storage.State.{St}
use levels.Storage.Manifest.{
  better_manifest, best_manifest, is_no_manifest, find_in, find_latest_local_manifest,
  find_latest_pending_manifest,
}
use levels.Storage.Manifest.Laws.{IsLatest, find_latest_pending_manifest-IsLatest}
use levels.Examples.World.{env, env_laws, settings, world}

abbrev latest : FileDesc
latest = record { file_type = type_manifest; num = pos 12 }

abbrev crashed : St env
crashed = record (world false false) {
  files = record {
    entries =
        (codes "/c/db/MANIFEST-000012", 1 ∷ [])
        ∷ (codes "/c/db/MANIFEST-000009", 2 ∷ [])
        ∷ (codes "/p/MANIFEST-000009", 2 ∷ [])
        ∷ (codes "/p/MANIFEST-000012", 3 ∷ [])
        ∷ [];
    full = false;
  };
}

finds_local : find_latest_local_manifest env settings crashed ≡ ok (latest, 1 ∷ [])
unfolding find_latest_local_manifest find_in best_manifest better_manifest scan_manifest scan_int
    strip_prefix contains_slash str_dec ℕ_discrete join
finds_local = refl

finds_pending : find_latest_pending_manifest env settings crashed ≡ ok (latest, 3 ∷ [])
unfolding find_latest_pending_manifest find_in best_manifest better_manifest scan_manifest scan_int
    strip_prefix has_suffix contains_slash str_dec ℕ_discrete join
finds_pending = refl

find_latest_pending_manifest-IsLatest_example :
    IsLatest settings env_laws settings.pending_dir is_no_manifest crashed latest (3 ∷ [])
find_latest_pending_manifest-IsLatest_example =
    find_latest_pending_manifest-IsLatest settings env_laws crashed latest (3 ∷ []) finds_pending
