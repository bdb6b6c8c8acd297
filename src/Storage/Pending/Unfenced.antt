-- ===== src/Storage/Pending/Unfenced.antt =====
-- `RetryPendingUploads` once the lock is lost.
use levels.Base.{ℕ, ◌+◌, ◌≡◌, refl, Bool, List, [], ◌∷◌, arith, inl, inr}
use levels.Failure.{Result-cases}
use levels.Files.{DirEntry}
use levels.Storage.State.{Env, Settings, St}
use levels.Storage.Pending.{retry_entry, retry_entries, retry_pending_uploads}

module _ (E : Env) (cfg : Settings) where
  abbrev pub marked : {A : Type 0} → Bool → A × St E → A × St E
  marked lost (a, s) = (a, record s { lock_lost = lost })

  retry_entry-marked :
      (lost : Bool) (entry : DirEntry) (s : St E)
      → retry_entry E cfg entry (record s { lock_lost = lost })
        ≡ marked lost (retry_entry E cfg entry s)
  unfolding retry_entry
  retry_entry-marked lost entry s = ground arith

  retry_entries-marked :
      (lost : Bool) (entries : List DirEntry) (success fail : ℕ) (s : St E)
      → retry_entries E cfg entries success fail (record s { lock_lost = lost })
        ≡ marked lost (retry_entries E cfg entries success fail s)
  unfolding retry_entries
  retry_entries-marked lost [] success fail s = refl
  retry_entries-marked lost (entry ∷ entries) success fail s =
      let s1 = (retry_entry E cfg entry s).1 in
      ground (
        arith,
        retry_entry-marked lost entry s,
        retry_entries-marked lost entries success fail s,
        retry_entries-marked lost entries (success + 1) fail s1,
        retry_entries-marked lost entries success (fail + 1) s1,
      )

  -- RetryPendingUploads does not depend on the loss of the lock: whether it is lost or not, it
  -- makes the same calls, returns the same counts and leaves the same state.
  pub retry_pending_uploads-marked :
      (lost : Bool) (s : St E)
      → retry_pending_uploads E cfg (record s { lock_lost = lost })
        ≡ marked lost (retry_pending_uploads E cfg s)
  unfolding retry_pending_uploads
  retry_pending_uploads-marked lost s =
      elim (Result-cases (E.fs.read_dir cfg.pending_dir s.files)) [
        | inr (e, r) ↦ ground arith
        | inl (entries, r) ↦ ground (arith, retry_entries-marked lost entries 0 0 s)
      ]
