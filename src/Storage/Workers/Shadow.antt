-- ===== src/Storage/Workers/Shadow.antt =====
-- `syncFromShadow` keeps the pending files that are there.
use levels.Base.{
  ◌≡◌, ◌≢◌, ◌∙◌, not, ◌||◌, none, some, List, [], ◌∷◌, ◌++◌, Str, Bytes, inl, inr, arith,
  Bool-cases, is_empty, trim_prefix,
}
use levels.Base.Checksum.{checksum}
use levels.Failure.{nil, Result-cases}
use levels.Files.{atomic_write_file}
use levels.Files.Others.{atomic_write_file-others}
use levels.Storage.State.{Env, Settings, St, own_context}
use levels.Storage.Laws.{EnvLaws, local}
use levels.Storage.Upload.{cksum, has_pending_dir, has_shadow, pending_path, shadow_key}
use levels.Storage.Workers.{restore_shadow, restore_shadows, sync_from_shadow}

module _ {E : Env} (cfg : Settings) (L : EnvLaws E) where
  -- os.Stat finds a file that is there.
  abbrev pub StatFinds : Type 0
  StatFinds = (p : Str) (f : E.fs.State) → L.file f p ≢ none → E.fs.stat p f ≡ nil

  module _ (finds : StatFinds) (path : Str) (body : Bytes)
      (plain : (p : Str) → path ≢ p ++ cksum) where
    restore_shadow-keeps :
        (key : Str) (s : St E)
        → local L s path ≡ some body
        → local L (restore_shadow E cfg key s) path ≡ some body
    unfolding restore_shadow
    restore_shadow-keeps key s held =
        let n = trim_prefix key (shadow_key E cfg []) in
        let target = pending_path E cfg n in
        let there : L.file s.files path ≢ none = λ e. ground (arith, e, held) in
        elim (Bool-cases (is_empty n)) [
          | inl nameless ↦ rw (nameless, restore_shadow) held
          | inr named ↦ elim (Result-cases (E.fs.stat target s.files)) [
            | inl (_, known) ↦ rw (named, known, restore_shadow) held
            | inr (e, unknown) ↦
                let other : path ≢ target =
                  λ same. ground (arith, unknown, finds target s.files (rw⁻¹ same there)) in
                elim (Result-cases (E.api.get_bytes (own_context E s) key s.client).0) [
                  | inr (e', missing) ↦ rw (named, unknown, missing, restore_shadow) held
                  | inl (found, got) ↦
                      let (r, f1) = atomic_write_file E.fs target found s.files in
                      let kept : L.file f1 path ≡ some body =
                        atomic_write_file-others E.fs L.file L.fs target found s.files path other
                          there
                        ∙ held in
                      elim (Result-cases r) [
                        | inr (e', failed) ↦ rw (named, unknown, got, failed, restore_shadow) kept
                        | inl (_, written) ↦
                            rw (named, unknown, got, written, restore_shadow)
                              (L.fs.write_other (target ++ cksum) (checksum found) f1 path
                                  (plain target)
                                ∙ kept)
                      ]
                ]
          ]
        ]

    restore_shadows-keeps :
        (keys : List Str) (s : St E)
        → local L s path ≡ some body
        → local L (restore_shadows E cfg keys s) path ≡ some body
    unfolding restore_shadows
    restore_shadows-keeps [] s held = held
    restore_shadows-keeps (key ∷ keys) s held =
        restore_shadows-keeps keys (restore_shadow E cfg key s) (restore_shadow-keeps key s held)

  -- When os.Stat finds every file that is there, syncFromShadow leaves every local file as it was
  -- that is no checksum file, whatever the shadow holds.
  pub sync_from_shadow_keeps :
      (path : Str) (body : Bytes) (s : St E)
      → StatFinds
      → ((p : Str) → path ≢ p ++ cksum)
      → local L s path ≡ some body
      → local L (sync_from_shadow E cfg s).1 path ≡ some body
  unfolding sync_from_shadow
  sync_from_shadow_keeps path body s finds plain held =
      elim (Bool-cases (not (has_shadow E cfg) || not (has_pending_dir E cfg))) [
        | inl unset ↦ rw (unset, sync_from_shadow) held
        | inr set ↦
            let (listed, c) = E.api.list_names (own_context E s) (shadow_key E cfg []) s.client in
            let s1 : St E = record s { client = c } in
            elim (Result-cases listed) [
              | inr (e, failed) ↦ rw (set, failed, sync_from_shadow) held
              | inl (keys, good) ↦
                  rw (set, good, sync_from_shadow)
                    (restore_shadows-keeps finds path body plain keys s1 held)
            ]
      ]
