-- ===== src/Storage/Recovery/Verify.antt =====
-- How `cleanupOrphaned` may end, and that `verifyCurrentManifest` ends so.
use levels.Base.{
  ◌≡◌, ◌≢◌, refl, sym, ap, subst, ◌∙◌, ◌⊎◌, inl, inr, true, false, Option, none, some, List, [],
  ◌∷◌, ◌++◌, Str, Bytes, codes, trim_space, arith, Option-cases, if◌then◌else◌,
}
use levels.Failure.{GoError, Result, ok, err, nil, Outcome, Result-cases}
use levels.FileDesc.{FileDesc, type_manifest, parse_file_desc}
use levels.Client.{is_some-ne-none, is_some-eq-none}
use levels.Storage.State.{Env, Settings, St, own_context}
use levels.Storage.Laws.{EnvLaws, remote}
use levels.Storage.Upload.{has_pending_dir, pending_path, put}
use levels.Storage.Access.{current, get, exists, list_objects}
use levels.Storage.Recovery.{
  remove_all_orphaned, readable, restore_from_pending, restore_manifest, verify_manifest,
  verify_current_manifest, has_local_dir, local_copy, usable, rebuild,
}
use levels.Storage.Manifest.{find_latest_local_manifest, find_latest_pending_manifest}

module _ {E : Env} (cfg : Settings) (L : EnvLaws E) where
  -- The copies of a file from which it may be restored.
  abbrev pub local_source : FileDesc → St E → Option Bytes
  local_source fd s =
      if has_local_dir E cfg then readable E cfg (local_copy E cfg (E.name fd)) s else none

  abbrev pub pending_source : FileDesc → St E → Option Bytes
  pending_source fd s =
      if has_pending_dir E cfg then readable E cfg (pending_path E cfg (E.name fd)) s else none

  -- There is no such copy, or the object store does not take it.
  abbrev pub Refused : FileDesc → Option Bytes → St E → Type 0
  Refused fd source s =
      (source ≡ none)
      ⊎ ((body : Bytes) × (source ≡ some body) × ((put E cfg (E.name fd) body s).0 ≢ nil))

  -- With the disk as it is in `s`, neither copy can be uploaded.
  abbrev pub Unrestorable : FileDesc → St E → Type 0
  Unrestorable fd s =
      ((v : St E) × (v.files ≡ s.files) × Refused fd (local_source fd v) v)
      × ((w : St E) × (w.files ≡ s.files) × Refused fd (pending_source fd w) w)

  -- With the disk as it is in `s`, there is no manifest to rebuild CURRENT from.
  abbrev pub NoManifest : St E → Type 0
  NoManifest s =
      (has_local_dir E cfg ≡ true → usable E cfg (find_latest_local_manifest E cfg s) ≡ none)
      × (has_pending_dir E cfg ≡ true → usable E cfg (find_latest_pending_manifest E cfg s) ≡ none)

  abbrev pub listed_objects : St E → Result (List FileDesc)
  listed_objects s = (list_objects E cfg (exists E cfg current s).1).0

  -- Why the objects of the state `s` are of no use.
  pub data Hopeless (s : St E) : Type 0 where
    -- CURRENT is no name of a file.
    invalid :
        (text : Bytes)
        → remote L s current ≡ some text
        → parse_file_desc (trim_space text) ≡ none
        → Hopeless s
    -- The file that CURRENT names is missing.
    lost :
        (text : Bytes) (fd : FileDesc)
        → remote L s current ≡ some text
        → parse_file_desc (trim_space text) ≡ some fd
        → remote L s (E.name fd) ≡ none
        → Unrestorable fd s
        → Hopeless s
    -- CURRENT is missing, and there are files.
    orphans :
        (f : FileDesc) (files : List FileDesc) (u : St E)
        → remote L s current ≡ none
        → listed_objects s ≡ ok (f ∷ files)
        → u.files ≡ s.files
        → NoManifest u
        → Hopeless s
    -- CURRENT is missing, and the object store does not take a new one or its manifest.
    unwritable :
        (fd : FileDesc) (body : Bytes) (u : St E)
        → remote L s current ≡ none
        → (rebuild E cfg fd body u).0 ≢ nil
        → Hopeless s

  -- How a cleaning up that succeeds may end, from the state `s` in the state `t`.
  pub data Cleaned (s t : St E) : Type 0 where
    -- The file that CURRENT named is there.
    consistent :
        (text : Bytes) (fd : FileDesc)
        → remote L s current ≡ some text
        → parse_file_desc (trim_space text) ≡ some fd
        → remote L t (E.name fd) ≢ none
        → Cleaned s t
    -- CURRENT was missing; now it names a manifest that is there.
    rebuilt :
        (fd : FileDesc) (body : Bytes)
        → remote L s current ≡ none
        → remote L t current ≡ some (E.name fd ++ codes "\n")
        → fd.file_type ≡ type_manifest
        → remote L t (E.name fd) ≡ some body
        → Cleaned s t
    -- Everything was thrown away as the last resort, with the disk as it was.
    emptied :
        (u : St E)
        → Hopeless s
        → u.files ≡ s.files
        → remove_all_orphaned E cfg u ≡ (nil, t)
        → Cleaned s t
    -- No files were listed, and there is nothing to rebuild from.
    nothing :
        remote L s current ≡ none
        → listed_objects s ≡ ok []
        → t.files ≡ s.files
        → (has_local_dir E cfg ≡ true → NoManifest t)
        → Cleaned s t

  -- What a restoration of a given file may end with.
  abbrev Restored : Type 0 → FileDesc → St E → Outcome × St E → Type 0
  Restored Why fd s (r, t) =
      r ≡ nil
      → (remote L t (E.name fd) ≢ none)
        ⊎ (Why × ((u : St E) × (u.files ≡ s.files) × (remove_all_orphaned E cfg u ≡ (nil, t))))

  put_there :
      (key : Str) (body : Bytes) (s : St E)
      → (put E cfg key body s).0 ≡ nil
      → remote L (put E cfg key body s).1 key ≢ none
  put_there key body s h e = ground (arith, L.api.put_ok (own_context E s) key body s.client h, e)

  pub last_resort :
      (x : Outcome × St E) (u : St E)
      → x ≡ remove_all_orphaned E cfg u
      → x.0 ≡ nil
      → remove_all_orphaned E cfg u ≡ (nil, x.1)
  last_resort x u e h = sym e ∙ ap (λ r. (r, x.1)) h

  pub failed-ne_nil : (r : Outcome) (e : GoError) → r ≡ err e → r ≢ nil
  failed-ne_nil r e failed h = absurd (ground (arith, failed, h))

  restore_from_pending-Restored :
      (fd : FileDesc) (s : St E)
      → Restored (Refused fd (pending_source fd s) s) fd s (restore_from_pending E cfg fd s)
  unfolding restore_from_pending
  restore_from_pending-Restored fd s h = elim (Option-cases (pending_source fd s)) [
    | inl missing ↦
        inr (inl missing, (s, refl, last_resort _ s (rw (missing, restore_from_pending) refl) h))
    | inr (body, found) ↦
        let s1 = (put E cfg (E.name fd) body s).1 in
        elim (Result-cases (put E cfg (E.name fd) body s).0) [
          | inr (e, refused) ↦ inr (
            inr (body, found, failed-ne_nil _ e refused),
            (s1, refl, last_resort _ s1 (rw (found, refused, restore_from_pending) refl) h),
          )
          | inl (_, done) ↦
              let state : (restore_from_pending E cfg fd s).1.client ≡ s1.client =
                rw (found, done, restore_from_pending) refl in
              inl (λ e.
                put_there (E.name fd) body s done
                  (sym (ap (λ c. L.object c (E.name fd)) state) ∙ e))
        ]
  ]

  -- The second copy is tried from a state with the same disk.
  then_pending :
      (fd : FileDesc) (s s1 : St E) (x : Outcome × St E)
      → s1.files ≡ s.files
      → Refused fd (local_source fd s) s
      → Restored (Refused fd (pending_source fd s1) s1) fd s1 x
      → Restored (Unrestorable fd s) fd s x
  then_pending fd s s1 x disk first second h = elim (second h) [
    | inl there ↦ inl there
    | inr (why, (u, same, gone)) ↦ inr (((s, refl, first), (s1, disk, why)), (u, same ∙ disk, gone))
  ]

  restore_manifest-Restored :
      (fd : FileDesc) (s : St E) → Restored (Unrestorable fd s) fd s (restore_manifest E cfg fd s)
  unfolding restore_manifest
  restore_manifest-Restored fd s h = elim (Option-cases (local_source fd s)) [
    | inl missing ↦
        let same : restore_manifest E cfg fd s ≡ restore_from_pending E cfg fd s =
          rw (missing, restore_manifest) refl in
        subst (Restored (Unrestorable fd s) fd s) (sym same)
          (then_pending fd s s _ refl (inl missing) (restore_from_pending-Restored fd s)) h
    | inr (body, found) ↦
        let s1 = (put E cfg (E.name fd) body s).1 in
        elim (Result-cases (put E cfg (E.name fd) body s).0) [
          | inr (e, refused) ↦
              let same : restore_manifest E cfg fd s ≡ restore_from_pending E cfg fd s1 =
                rw (found, refused, restore_manifest) refl in
              subst (Restored (Unrestorable fd s) fd s) (sym same)
                (then_pending fd s s1 _ refl (inr (body, found, failed-ne_nil _ e refused))
                  (restore_from_pending-Restored fd s1))
                h
          | inl (_, done) ↦
              let state : (restore_manifest E cfg fd s).1 ≡ s1 =
                rw (found, done, restore_manifest) refl in
              inl (rw state (put_there (E.name fd) body s done))
        ]
  ]

  abbrev Missing : FileDesc → St E → Type 0
  Missing fd s = (remote L s (E.name fd) ≡ none) × Unrestorable fd s

  verify_manifest-Restored :
      (fd : FileDesc) (s : St E) → Restored (Missing fd s) fd s (verify_manifest E cfg fd s)
  unfolding verify_manifest
  verify_manifest-Restored fd s h =
      let s1 = (exists E cfg (E.name fd) s).1 in
      elim (Result-cases (exists E cfg (E.name fd) s).0) [
        | inr (e, unknown) ↦ absurd (ground arith)
        | inl (true, there) ↦
            let some_object = L.api.exists_ok (own_context E s) (E.name fd) s.client true there in
            let state : (verify_manifest E cfg fd s).1 ≡ s1 = rw (there, verify_manifest) refl in
            let kept = L.api.exists_keeps (own_context E s) (E.name fd) s.client (E.name fd) in
            inl (rw state (λ e. is_some-ne-none _ some_object (sym kept ∙ e)))
        | inl (false, missing) ↦
            let none_there =
              is_some-eq-none _
                (L.api.exists_ok (own_context E s) (E.name fd) s.client false missing) in
            let same : verify_manifest E cfg fd s ≡ restore_manifest E cfg fd s1 =
              rw (missing, verify_manifest) refl in
            elim (restore_manifest-Restored fd s1 (sym (ap (λ x. x.0) same) ∙ h)) [
              | inl there ↦ inl (rw same there)
              | inr (why, (u, disk, gone)) ↦
                  inr ((none_there, why), (u, disk, gone ∙ ap (λ x. (nil, x.1)) (sym same)))
            ]
      ]

  -- From a later state, in which the disk and the objects have not changed since.
  pub verify_current_manifest-Cleaned :
      (s u : St E)
      → ((j : Str) → remote L u j ≡ remote L s j)
      → u.files ≡ s.files
      → (verify_current_manifest E cfg u).0 ≡ nil
      → Cleaned s (verify_current_manifest E cfg u).1
  unfolding verify_current_manifest
  verify_current_manifest-Cleaned s u kept disk h =
      let u1 = (get E cfg current u).1 in
      let read_keeps = λ (j : Str). L.api.get_keeps (own_context E u) current u.client j ∙ kept j in
      elim (Result-cases (get E cfg current u).0) [
        | inr (e, unread) ↦ absurd (ground arith)
        | inl (text, read) ↦
            let held : remote L s current ≡ some text =
              sym (kept current) ∙ L.api.get_ok (own_context E u) current u.client text read in
            elim (Option-cases (parse_file_desc (trim_space text))) [
              | inl bad ↦
                  emptied u1 (invalid text held bad) disk
                    (last_resort _ u1 (rw (read, bad, verify_current_manifest) refl) h)
              | inr (fd, parsed) ↦
                  let same : verify_current_manifest E cfg u ≡ verify_manifest E cfg fd u1 =
                    rw (read, parsed, verify_current_manifest) refl in
                  elim (verify_manifest-Restored fd u1 (sym (ap (λ x. x.0) same) ∙ h)) [
                    | inl there ↦ consistent text fd held parsed (rw same there)
                    | inr ((missing, ((v, on_v, first), (w, on_w, second))), (u2, on_u, gone)) ↦
                        emptied u2
                          (lost text fd held parsed (sym (read_keeps (E.name fd)) ∙ missing)
                            ((v, on_v ∙ disk, first), (w, on_w ∙ disk, second)))
                          (on_u ∙ disk) (gone ∙ ap (λ x. (nil, x.1)) (sym same))
                  ]
            ]
      ]
