-- ===== src/Storage/Manifest/Laws.antt =====
-- The manifest that is found is the latest one.
use levels.Base.{
  ℕ, ◌≡◌, subst, ◌⊎◌, refl, inl, inr, true, false, Bool, List, [], ◌∷◌, some, Str, Bytes, All,
  arith, is_empty,
}
use levels.Base.Int.{ℤ, pos, negsuc, leb_ℤ}
use levels.Failure.{ok, Result-cases}
use levels.Config.{join}
use levels.FileDesc.{FileDesc, type_manifest, scan_manifest}
use levels.Files.{DirEntry}
use levels.Storage.State.{Env, Settings, St}
use levels.Storage.Laws.{EnvLaws, local}
use levels.Storage.Manifest.{
  better_manifest, best_manifest, is_directory, find_in, find_latest_local_manifest,
  find_latest_pending_manifest, is_no_manifest,
}

-- No entry that counts has a higher number.
abbrev pub IsBelow : (DirEntry → Bool) → ℤ → DirEntry → Type 0
IsBelow skip best entry =
    skip entry ≡ false → (m : ℤ) → scan_manifest entry.name ≡ some m → leb_ℤ m best ≡ true

leb_ℤ-trans : (a b c : ℤ) → leb_ℤ a b ≡ true → leb_ℤ b c ≡ true → leb_ℤ a c ≡ true
leb_ℤ-trans a b c h k = ground arith

better_manifest-grows :
    (skip : DirEntry → Bool) (entry : DirEntry) (best : ℤ × Str)
    → leb_ℤ best.0 (better_manifest skip entry best).0 ≡ true
unfolding better_manifest
better_manifest-grows skip entry best = ground arith

better_manifest-IsBelow :
    (skip : DirEntry → Bool) (entry : DirEntry) (best : ℤ × Str)
    → IsBelow skip (better_manifest skip entry best).0 entry
unfolding better_manifest
better_manifest-IsBelow skip entry best counts m found = ground arith

best_manifest-grows :
    (skip : DirEntry → Bool) (entries : List DirEntry) (best : ℤ × Str)
    → leb_ℤ best.0 (best_manifest skip entries best).0 ≡ true
unfolding best_manifest
best_manifest-grows skip [] best = ground arith
best_manifest-grows skip (entry ∷ entries) best =
    let next = better_manifest skip entry best in
    leb_ℤ-trans best.0 next.0 _ (better_manifest-grows skip entry best)
      (best_manifest-grows skip entries next)

best_manifest-IsBelow :
    (skip : DirEntry → Bool) (entries : List DirEntry) (best : ℤ × Str)
    → All (IsBelow skip (best_manifest skip entries best).0) entries
unfolding best_manifest
best_manifest-IsBelow skip [] best = tt
best_manifest-IsBelow skip (entry ∷ entries) best =
    let next = better_manifest skip entry best in
    (
      λ counts m found.
          leb_ℤ-trans m next.0 _ (better_manifest-IsBelow skip entry best counts m found)
            (best_manifest-grows skip entries next),
      best_manifest-IsBelow skip entries next,
    )

-- A name that was found gives the number.
abbrev IsNamed : ℤ × Str → Type 0
IsNamed best = (is_empty best.1 ≡ true) ⊎ (scan_manifest best.1 ≡ some best.0)

better_manifest-IsNamed :
    (skip : DirEntry → Bool) (entry : DirEntry) (best : ℤ × Str)
    → IsNamed best
    → IsNamed (better_manifest skip entry best)
unfolding better_manifest
better_manifest-IsNamed skip entry best h = ground (arith, h)

best_manifest-IsNamed :
    (skip : DirEntry → Bool) (entries : List DirEntry) (best : ℤ × Str)
    → IsNamed best
    → IsNamed (best_manifest skip entries best)
unfolding best_manifest
best_manifest-IsNamed skip [] best h = h
best_manifest-IsNamed skip (entry ∷ entries) best h =
    best_manifest-IsNamed skip entries (better_manifest skip entry best)
      (better_manifest-IsNamed skip entry best h)

from_zero : (num : ℤ) → leb_ℤ (pos 0) num ≡ true → (n : ℕ) × (num ≡ pos n)
from_zero (pos n) h = (n, refl)
from_zero (negsuc n) h = absurd (ground arith)

-- What is found is a manifest, and its number is not negative.
pub find_in-manifest :
    (E : Env) (cfg : Settings) (dir : Str) (skip : DirEntry → Bool) (s : St E) (fd : FileDesc)
    (body : Bytes)
    → find_in E cfg dir skip s ≡ ok (fd, body)
    → (n : ℕ) × (fd ≡ record { file_type = type_manifest; num = pos n })
unfolding find_in
find_in-manifest E cfg dir skip s fd body h = elim (Result-cases (E.fs.read_dir dir s.files)) [
  | inr (e, r) ↦ absurd (ground arith)
  | inl (entries, r) ↦
      let best = best_manifest skip entries (pos 0, []) in
      let (n, num) = from_zero best.0 (best_manifest-grows skip entries (pos 0, [])) in
      (n, ground arith)
]

module _ {E : Env} (cfg : Settings) (L : EnvLaws E) where
  -- What a search in a directory gives: bytes that lie there under a name with the number, and no
  -- entry that counts has a higher one.
  pub record IsLatest (dir : Str) (skip : DirEntry → Bool) (s : St E) (fd : FileDesc) (body : Bytes)
      : Type 0 where
    pub entries : List DirEntry
    pub listed : E.fs.read_dir dir s.files ≡ ok entries
    pub below : All (IsBelow skip fd.num) entries
    pub name : Str
    pub named : scan_manifest name ≡ some fd.num
    pub held : local L s (join dir name) ≡ some body

  find_in-IsLatest :
      (dir : Str) (skip : DirEntry → Bool) (s : St E) (fd : FileDesc) (body : Bytes)
      → find_in E cfg dir skip s ≡ ok (fd, body)
      → IsLatest dir skip s fd body
  unfolding find_in
  find_in-IsLatest dir skip s fd body h = elim (Result-cases (E.fs.read_dir dir s.files)) [
    | inr (e, r) ↦ absurd (ground arith)
    | inl (entries, r) ↦
        let best = best_manifest skip entries (pos 0, []) in
        let num : best.0 ≡ fd.num = ground arith in
        let named : scan_manifest best.1 ≡ some fd.num =
          ground (arith, best_manifest-IsNamed skip entries (pos 0, []) (inl refl)) in
        let held : local L s (join dir best.1) ≡ some body =
          ground (arith, L.fs.read_ok (join dir best.1) s.files body) in
        record {
          entries = entries;
          listed = r;
          below =
              subst (λ n. All (IsBelow skip n) entries) num
                (best_manifest-IsBelow skip entries (pos 0, []));
          name = best.1;
          named = named;
          held = held;
        }
  ]

  -- When findLatestPendingManifest finds a manifest, its bytes lie in the pending directory under
  -- a name with its number, and no file there but the checksum files has the name of a manifest
  -- with a higher number.
  pub find_latest_pending_manifest-IsLatest :
      (s : St E) (fd : FileDesc) (body : Bytes)
      → find_latest_pending_manifest E cfg s ≡ ok (fd, body)
      → IsLatest cfg.pending_dir is_no_manifest s fd body
  unfolding find_latest_pending_manifest
  find_latest_pending_manifest-IsLatest s fd body h =
      find_in-IsLatest cfg.pending_dir is_no_manifest s fd body (ground arith)

  -- When findLatestLocalManifest finds a manifest, its bytes lie in the local cache directory
  -- under a name with its number, and no file there has the name of a manifest with a higher
  -- number.
  find_latest_local_manifest-IsLatest :
      (s : St E) (fd : FileDesc) (body : Bytes)
      → find_latest_local_manifest E cfg s ≡ ok (fd, body)
      → IsLatest cfg.local_dir is_directory s fd body
  unfolding find_latest_local_manifest
  find_latest_local_manifest-IsLatest s fd body h =
      find_in-IsLatest cfg.local_dir is_directory s fd body h
