-- ===== src/Storage/Rename/Laws.antt =====
-- What `Rename` does to the object store.
use levels.Base.{◌≡◌, ◌≢◌, ◌∙◌, ◌++◌, sym, ap, Bool-cases, inl, inr, none, Str, Bytes, arith}
use levels.Base.Checksum.{checksum}
use levels.Failure.{nil, Result-cases}
use levels.FileDesc.{FileDesc}
use levels.Client.{background}
use levels.Storage.State.{Env, Settings, St, own_context, when}
use levels.Storage.Laws.{EnvLaws, remote, append-ne_self}
use levels.Storage.Upload.{
  shadow_key, has_pending_dir, upload_to_shadow, clean_shadow, pending_path, cksum,
}
use levels.Storage.Upload.Laws.{clean_shadow-remote}
use levels.Storage.Rename.{
  move_cached, follow_renamed, rewrite_pending, move_pending, move_local, remove_source, after_copy,
  rename,
}

module _ {E : Env} (cfg : Settings) (L : EnvLaws E) where
  upload_to_shadow-remote :
      (n j : Str) (body : Bytes) (s : St E)
      → j ≢ shadow_key E cfg n
      → remote L (upload_to_shadow E cfg n body s).1 j ≡ remote L s j
  unfolding upload_to_shadow
  upload_to_shadow-remote n j body s ne =
      ground (arith, L.api.put_other (own_context E s) (shadow_key E cfg n) body s.client j ne)

  move_cached-remote :
      (oldfd newfd : FileDesc) (j : Str) (s : St E)
      → remote L (move_cached E cfg oldfd newfd s).1 j ≡ remote L s j
  unfolding move_cached
  move_cached-remote oldfd newfd j s =
      ground (arith, L.api.get_keeps (own_context E s) (E.name oldfd) s.client j)

  module _ (old new j : Str) (apart : j ≢ shadow_key E cfg old)
      (apart' : j ≢ shadow_key E cfg new) where
    follow_renamed-remote :
        (s : St E) → remote L (follow_renamed E cfg old new s).1 j ≡ remote L s j
    unfolding follow_renamed
    follow_renamed-remote s =
        let u = record s {
          files =
              (E.fs.rename (pending_path E cfg old ++ cksum) (pending_path E cfg new ++ cksum)
                s.files).1;
        } in
        let v = (clean_shadow E cfg old u).1 in
        let cleaned = clean_shadow-remote cfg L old j u apart in
        elim (Result-cases (E.fs.read_file (pending_path E cfg new) v.files)) [
          | inr (e, r) ↦ ground arith
          | inl (body, r) ↦ ground (arith, upload_to_shadow-remote new j body v apart')
        ]

    rewrite_pending-remote :
        (s : St E) → remote L (rewrite_pending E cfg old new s).1 j ≡ remote L s j
    unfolding rewrite_pending
    rewrite_pending-remote s =
        elim (Result-cases (E.fs.read_file (pending_path E cfg old) s.files)) [
          | inr (e, r) ↦ ground arith
          | inl (body, r) ↦
              let p = pending_path E cfg old in
              let q = pending_path E cfg new in
              let f1 = (E.fs.write_file q body s.files).1 in
              let f2 = (E.fs.remove (p ++ cksum) (E.fs.remove p f1).1).1 in
              let u = record s { files = (E.fs.write_file (q ++ cksum) (checksum body) f2).1 } in
              let v = (clean_shadow E cfg old u).1 in
              ground (
                arith,
                clean_shadow-remote cfg L old j u apart,
                upload_to_shadow-remote new j body v apart',
              )
        ]

    move_pending-remote : (s : St E) → remote L (move_pending E cfg old new s).1 j ≡ remote L s j
    unfolding move_pending
    move_pending-remote s =
        let u = record s {
          files = (E.fs.rename (pending_path E cfg old) (pending_path E cfg new) s.files).1;
        } in
        ground (arith, follow_renamed-remote u, rewrite_pending-remote u)

  -- Gone after a success, whichever of the two removals it was.
  remove_source_ok :
      (old : Str) (s : St E)
      → let (r, t) = remove_source E cfg old s in r ≡ nil → remote L t old ≡ none
  unfolding remove_source
  remove_source_ok old s h =
      let c = (E.api.remove (own_context E s) old s.client).1 in
      ground (
        arith,
        L.api.remove_ok (own_context E s) old s.client,
        L.api.remove_ok (background cfg.opt.request_timeout) old c,
      )

  remove_source-remote :
      (old j : Str) (s : St E) → j ≢ old → remote L (remove_source E cfg old s).1 j ≡ remote L s j
  unfolding remove_source
  remove_source-remote old j s ne =
      let c = (E.api.remove (own_context E s) old s.client).1 in
      ground (
        arith,
        L.api.remove_other (own_context E s) old s.client j ne,
        L.api.remove_other (background cfg.opt.request_timeout) old c j ne,
      )

  move_local-remote :
      (oldfd newfd : FileDesc) (j : Str) (s : St E)
      → remote L (move_local E cfg oldfd newfd s).1 j ≡ remote L s j
  unfolding move_local
  move_local-remote oldfd newfd j s = ground arith

  module _ (oldfd newfd : FileDesc) (j : Str) (apart : j ≢ shadow_key E cfg (E.name oldfd))
      (apart' : j ≢ shadow_key E cfg (E.name newfd)) where
    -- The state in which the source is removed.
    abbrev moved : St E → St E
    moved s =
        let s1 = (move_cached E cfg oldfd newfd s).1 in
        (when (has_pending_dir E cfg) (move_pending E cfg (E.name oldfd) (E.name newfd)) s1).1

    moved-remote : (s : St E) → remote L (moved s) j ≡ remote L s j
    moved-remote s =
        let s1 = (move_cached E cfg oldfd newfd s).1 in
        let cached = move_cached-remote oldfd newfd j s in
        elim (Bool-cases (has_pending_dir E cfg)) [
          | inl dir ↦
              ground
                (arith, cached, move_pending-remote (E.name oldfd) (E.name newfd) j apart apart' s1)
          | inr unset ↦ ground (arith, cached)
        ]

    after_copy-remote :
        (s : St E) → j ≢ E.name oldfd → remote L (after_copy E cfg oldfd newfd s).1 j ≡ remote L s j
    unfolding after_copy
    after_copy-remote s ne =
        let u = moved s in
        let v = (remove_source E cfg (E.name oldfd) u).1 in
        ground (
          arith,
          moved-remote s,
          remove_source-remote (E.name oldfd) j u ne,
          move_local-remote oldfd newfd j v,
        )

  after_copy-gone :
      (oldfd newfd : FileDesc) (s : St E)
      → let (r, t) = after_copy E cfg oldfd newfd s in r ≡ nil → remote L t (E.name oldfd) ≡ none
  unfolding after_copy
  after_copy-gone oldfd newfd s h =
      let s1 = (move_cached E cfg oldfd newfd s).1 in
      let u =
        (when (has_pending_dir E cfg) (move_pending E cfg (E.name oldfd) (E.name newfd)) s1).1 in
      let v = (remove_source E cfg (E.name oldfd) u).1 in
      elim (Result-cases (remove_source E cfg (E.name oldfd) u).0) [
        | inr (e, r) ↦ absurd (ground arith)
        | inl (_, r) ↦ ground (
          arith,
          remove_source_ok (E.name oldfd) u r,
          move_local-remote oldfd newfd (E.name oldfd) v,
        )
      ]

  -- When Rename succeeds between two names of which the new one is not the shadow key of the old
  -- one, the old file was in the object store before, the new file has its bytes there now, and
  -- the old one is gone.
  pub rename_ok :
      (oldfd newfd : FileDesc) (s : St E)
      → E.name oldfd ≢ E.name newfd
      → E.name newfd ≢ shadow_key E cfg (E.name oldfd)
      → let (r, t) = rename E cfg oldfd newfd s in
        r ≡ nil
        → (remote L s (E.name oldfd) ≢ none)
          × ((remote L t (E.name newfd) ≡ remote L s (E.name oldfd))
              × (remote L t (E.name oldfd) ≡ none))
  unfolding rename
  rename_ok oldfd newfd s ne apart h =
      let old = E.name oldfd in
      let new = E.name newfd in
      let ctx = own_context E s in
      let u = record s { client = (E.api.copy ctx old new s.client).1 } in
      elim (Result-cases (E.api.copy ctx old new s.client).0) [
        | inr (e, r) ↦ absurd (ground arith)
        | inl (_, r) ↦
            let copied = L.api.copy_ok ctx old new s.client ne r in
            let same : rename E cfg oldfd newfd s ≡ after_copy E cfg oldfd newfd u = ground arith in
            let kept =
              after_copy-remote oldfd newfd new apart
                (λ e. append-ne_self cfg.shadow_prefix b'/' new (sym e)) u (λ e. ne (sym e)) in
            let gone = after_copy-gone oldfd newfd u (sym (ap (λ x. x.0) same) ∙ h) in
            rw same (copied.0, (kept ∙ copied.1, gone))
      ]
