-- ===== src/Storage/Workers/Apart.antt =====
-- The files of one directory are apart from each other, and reading them leaves them on the disk.
use mathlib.Core.List.{append_assoc}
use levels.Base.{
  Pairwise, ◌≡◌, ◌≢◌, ap, sym, ◌∙◌, true, false, List, [], ◌∷◌, ◌++◌, Str, All, arith, has_suffix,
  has_suffix-append, append-injective, is_empty,
}
use levels.Config.{join}
use levels.Files.{DirEntry, contains_slash}
use levels.Storage.State.{Env, Settings}
use levels.Storage.Laws.{EnvLaws, contains_slash-append}
use levels.Storage.Upload.{cksum, pending_path, has_pending_dir}
use levels.Storage.Pending.{PendingFileEntry}
use levels.Storage.Workers.Rules.{Apart}

-- What os.ReadDir returns: different names, none with a slash.
pub record IsListing (entries : List DirEntry) : Type 0 where
  pub distinct : Pairwise (λ e f. e.name ≢ f.name) entries
  pub plain : All (λ e. (contains_slash e.name ≡ false) × (is_empty e.name ≡ false)) entries

module _ {E : Env} (cfg : Settings) (L : EnvLaws E) where
  -- A file that stands under its own name, which is no path and no checksum's.
  abbrev pub Stands : PendingFileEntry → Type 0
  Stands f =
      (f.local_path ≡ cfg.pending_dir ++ (b'/' ∷ f.name))
      × ((has_suffix f.name cksum ≡ false) × (contains_slash f.name ≡ false))

  pub nonempty_path :
      (n : Str)
      → has_pending_dir E cfg ≡ true
      → is_empty n ≡ false
      → pending_path E cfg n ≡ cfg.pending_dir ++ (b'/' ∷ n)
  unfolding join
  nonempty_path n dir more = ground arith

  under_checksum :
      (n : Str)
      → (cfg.pending_dir ++ (b'/' ∷ n)) ++ cksum ≡ cfg.pending_dir ++ (b'/' ∷ (n ++ cksum))
  under_checksum n = append_assoc cfg.pending_dir _ cksum

  pub not_checksum :
      (f : PendingFileEntry) (n : Str)
      → Stands f
      → f.local_path ≢ (cfg.pending_dir ++ (b'/' ∷ n)) ++ cksum
  not_checksum f n h same =
      let named : b'/' ∷ f.name ≡ b'/' ∷ (n ++ cksum) =
        append-injective cfg.pending_dir _ _ (sym h.0 ∙ same ∙ under_checksum n) in
      let named' : f.name ≡ n ++ cksum = append-injective (b'/' ∷ []) _ _ named in
      absurd (ground (arith, ap (λ x. has_suffix x cksum) named', has_suffix-append n cksum, h.1.0))

  pub not_path :
      (f : PendingFileEntry) (n : Str)
      → Stands f
      → f.name ≢ n
      → f.local_path ≢ cfg.pending_dir ++ (b'/' ∷ n)
  not_path f n h ne same =
      ne (append-injective (b'/' ∷ []) _ _ (append-injective cfg.pending_dir _ _ (sym h.0 ∙ same)))

  -- Files with different names and keys of these names are apart.
  pub Stands-Apart :
      (key : PendingFileEntry → Str) (f g : PendingFileEntry)
      → Stands f
      → Stands g
      → key f ≡ f.name
      → key g ≡ g.name
      → f.name ≢ g.name
      → Apart cfg L key f g
  Stands-Apart key f g hf hg kf kg ne = record {
    path = λ e. not_path f g.name hf ne (e ∙ hg.0);
    checksum = λ e. not_checksum f g.name hf (e ∙ ap (λ p. p ++ cksum) hg.0);
    key_of = λ e. ne (sym kf ∙ e ∙ kg);
    shadow = λ e.
        let slash : contains_slash f.name ≡ true =
          ap contains_slash (sym kf ∙ e) ∙ contains_slash-append cfg.shadow_prefix g.name in
        absurd (ground (arith, slash, hf.1.1));
  }
