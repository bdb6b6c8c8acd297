-- ===== src/Files/Others.antt =====
-- `atomicWriteFile` leaves other files alone that were there, whatever the name of its own.
use levels.Base.{◌≡◌, ◌≢◌, ◌∙◌, Option, none, Str, Bytes, inl, inr}
use levels.Failure.{Result-cases}
use levels.Files.{FileSystem, IsLawfulFs, dir_of, atomic_write_file}

module _ (fs : FileSystem) (file : fs.State → Str → Option Bytes)
    (lawful : IsLawfulFs fs file) where
  pub atomic_write_file-others :
      (path : Str) (body : Bytes) (s : fs.State) (j : Str)
      → j ≢ path
      → file s j ≢ none
      → file (atomic_write_file fs path body s).1 j ≡ file s j
  unfolding atomic_write_file
  atomic_write_file-others path body s j ne there =
      let made0 = fs.create_temp (dir_of path) s in
      elim (Result-cases made0.0) [
        | inr (e, made) ↦
            rw (made, atomic_write_file) (lawful.temp_other (dir_of path) s j (λ h. cc))
        | inl (tmp, made) ↦
            let s2 = (fs.write_temp tmp body made0.1).1 in
            let s3 = (fs.close_temp tmp s2).1 in
            let s4 = (fs.rename tmp path s3).1 in
            let other : j ≢ tmp =
              λ same. there (rw same (lawful.temp_fresh (dir_of path) s tmp made).0) in
            let kept3 : file s3 j ≡ file s j =
              lawful.close_keeps tmp s2 j
              ∙ lawful.write_temp_other tmp body made0.1 j other
              ∙ lawful.temp_other (dir_of path) s j (λ h. other (cc)) in
            let kept4 = lawful.rename_other tmp path s3 j other ne ∙ kept3 in
            elim (Result-cases (fs.write_temp tmp body made0.1).0) [
              | inr (e, wrote) ↦
                  rw (made, atomic_write_file, wrote) (lawful.remove_other tmp s3 j other ∙ kept3)
              | inl (_, wrote) ↦ elim (Result-cases (fs.close_temp tmp s2).0) [
                | inr (e, shut) ↦
                    rw (made, atomic_write_file, wrote, shut)
                      (lawful.remove_other tmp s3 j other ∙ kept3)
                | inl (_, shut) ↦ elim (Result-cases (fs.rename tmp path s3).0) [
                  | inr (e, moved) ↦
                      rw (made, atomic_write_file, wrote, shut, moved)
                        (lawful.remove_other tmp s4 j other ∙ kept4)
                  | inl (_, moved) ↦ rw (made, atomic_write_file, wrote, shut, moved) kept4
                ]
              ]
            ]
      ]
