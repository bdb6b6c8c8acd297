-- ===== src/Files/Atomic.antt =====
-- `atomicWriteFile` replaces a file at once or not at all.
use levels.Base.{◌≡◌, ◌≢◌, ◌∙◌, Option, none, some, Str, Bytes, inl, inr, refl, sym, str_dec}
use levels.Failure.{GoError, Outcome, ok, err, nil, Result-cases}
use levels.Files.{FileSystem, IsTemp, IsLawfulFs, dir_of, atomic_write_file}

module _ (fs : FileSystem) (file : fs.State → Str → Option Bytes) where
  -- What a write of a whole file may do: on success it is all there and nothing else has changed,
  -- on failure no file that was there has changed.
  pub record IsAtomic (path : Str) (body : Bytes) (s : fs.State) (r : Outcome) (t : fs.State)
      : Type 0 where
    pub written : r ≡ nil → file t path ≡ some body
    pub unwritten : r ≢ nil → file t path ≡ file s path
    pub clean : r ≡ nil → (j : Str) → j ≢ path → file t j ≡ file s j
    pub others : (j : Str) → j ≢ path → file s j ≢ none → file t j ≡ file s j

  module _ (lawful : IsLawfulFs fs file) (path : Str) (plain : ¬ IsTemp path) (body : Bytes)
      (s : fs.State) where
    abbrev Kept : Str → fs.State → Type 0
    Kept tmp t = (j : Str) → j ≢ tmp → file t j ≡ file s j

    not_temp : {tmp : Str} → (fs.create_temp (dir_of path) s).0 ≡ ok tmp → path ≢ tmp
    not_temp {tmp} made same = plain (rw same (lawful.temp_fresh _ s tmp made).1)

    -- A write that failed and left other files than the temporary one alone.
    failed :
        (tmp : Str) (e : GoError) (t : fs.State)
        → (fs.create_temp (dir_of path) s).0 ≡ ok tmp
        → Kept tmp t
        → IsAtomic path body s (err e) t
    failed tmp e t made kept = record {
      written = λ h. absurd (cc);
      unwritten = λ _. kept path (not_temp made);
      clean = λ h. absurd (cc);
      others = λ j _ there. kept j (λ same. there (rw same (lawful.temp_fresh _ s tmp made).0));
    }

    -- After the renaming the temporary name is free again.
    moved_away :
        (tmp : Str) (t : fs.State)
        → (fs.create_temp (dir_of path) s).0 ≡ ok tmp
        → (fs.rename tmp path t).0 ≡ nil
        → Kept tmp t
        → (j : Str) → j ≢ path
        → file (fs.rename tmp path t).1 j ≡ file s j
    moved_away tmp t made moved kept j ne = elim (str_dec j tmp) [
      | no other ↦ lawful.rename_other tmp path t j other ne ∙ kept j other
      | yes same ↦ rw same (
          (lawful.rename_ok tmp path t (λ e. not_temp made (sym e)) moved).1
          ∙ sym (lawful.temp_fresh _ s tmp made).0)
    ]

    -- On a path that is no temporary one, atomicWriteFile leaves the new content when it succeeds
    -- and the old content when it fails, touches no other file that was there, and a success
    -- leaves no file behind.
    pub atomic_write_file-IsAtomic :
        let (r, t) = atomic_write_file fs path body s in IsAtomic path body s r t
    unfolding atomic_write_file
    atomic_write_file-IsAtomic = elim (Result-cases (fs.create_temp (dir_of path) s).0) [
      | inr (e, made) ↦
          rw (made, atomic_write_file)
            (record {
              written = λ h. absurd (cc);
              unwritten = λ _. lawful.temp_other _ s path (λ h. cc);
              clean = λ h. absurd (cc);
              others = λ j _ _. lawful.temp_other _ s j (λ h. cc);
            })
      | inl (tmp, made) ↦
          let s1 = (fs.create_temp (dir_of path) s).1 in
          let s2 = (fs.write_temp tmp body s1).1 in
          let s3 = (fs.close_temp tmp s2).1 in
          let s4 = (fs.rename tmp path s3).1 in
          let kept2 : Kept tmp s2 = λ j h.
            lawful.write_temp_other tmp body s1 j h ∙ lawful.temp_other _ s j (λ e. h (cc)) in
          let kept3 : Kept tmp s3 = λ j h. lawful.close_keeps tmp s2 j ∙ kept2 j h in
          let kept4 : Kept tmp (fs.remove tmp s3).1 =
            λ j h. lawful.remove_other tmp s3 j h ∙ kept3 j h in
          elim (Result-cases (fs.write_temp tmp body s1).0) [
            | inr (e, wrote) ↦ rw (made, atomic_write_file, wrote) (failed tmp _ _ made kept4)
            | inl (_, wrote) ↦ elim (Result-cases (fs.close_temp tmp s2).0) [
              | inr (e, shut) ↦
                  rw (made, atomic_write_file, wrote, shut) (failed tmp _ _ made kept4)
              | inl (_, shut) ↦ elim (Result-cases (fs.rename tmp path s3).0) [
                | inr (e, moved) ↦
                    rw (made, atomic_write_file, wrote, shut, moved)
                      (failed tmp _ _ made (λ j h.
                        lawful.remove_other tmp s4 j h
                        ∙ lawful.rename_failed tmp path s3 j (λ h'. cc)
                        ∙ kept3 j h))
                | inl (_, moved) ↦
                    rw (made, atomic_write_file, wrote, shut, moved)
                      (record {
                        written = λ _.
                            (lawful.rename_ok tmp path s3 (λ e. not_temp made (sym e)) moved).0
                            ∙ lawful.close_keeps tmp s2 tmp
                            ∙ lawful.write_temp_ok tmp body s1 wrote;
                        unwritten = λ h. absurd (h refl);
                        others = λ j ne _. moved_away tmp s3 made moved kept3 j ne;
                        clean = λ _ j ne. moved_away tmp s3 made moved kept3 j ne;
                      })
              ]
            ]
          ]
    ]
