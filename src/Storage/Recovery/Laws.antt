-- ===== src/Storage/Recovery/Laws.antt =====
-- What a success of `cleanupOrphaned` means for CURRENT and the manifest that it names.
use levels.Base.{◌≡◌, true, none, some, List, ◌++◌, Bytes, codes}
use levels.Failure.{ok}
use levels.FileDesc.{FileDesc}
use levels.Storage.State.{Env, Settings, St}
use levels.Storage.Laws.{EnvLaws, remote}
use levels.Storage.Access.{current}
use levels.Storage.Manifest.{find_latest_local_manifest}
use levels.Storage.Recovery.{usable, has_local_dir}
use levels.Storage.Recovery.Verify.{listed_objects}

module _ {E : Env} (cfg : Settings) (L : EnvLaws E) where
  abbrev Rebuilt : FileDesc → Bytes → St E → Type 0
  Rebuilt fd body t =
      (remote L t current ≡ some (E.name fd ++ codes "\n")) × (remote L t (E.name fd) ≡ some body)

  module _ (s : St E) (gone : remote L s current ≡ none) where
    abbrev Listed : List FileDesc → Type 0
    Listed files = listed_objects cfg L s ≡ ok files

    abbrev NoLocal : St E → Type 0
    NoLocal u =
        has_local_dir E cfg ≡ true → usable E cfg (find_latest_local_manifest E cfg u) ≡ none
