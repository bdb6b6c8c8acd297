-- ===== src/Storage/Workers/Rules.antt =====
-- The workers that upload pending files obey the rules of a pool: no worker disturbs the file of
-- another one, and none removes the local copy of its own file before the object store has it.
use levels.Base.{
  ap, Bool, ◌&&◌, ◌||◌, ℕ, ◌≡◌, ◌≢◌, ◌⊎◌, inl, inr, refl, sym, ◌∙◌, false, some, ◌++◌, Str, arith,
  Bool-cases,
}
use levels.Base.Int.{pos, ltb_ℤ}
use levels.Failure.{nil}
use levels.Pool.{uploaded, Work}
use levels.Pool.Keeps.{Rules, Keeps, Finishing, Harmless}
use levels.Storage.State.{Env, Settings, St, own_context}
use levels.Storage.Laws.{EnvLaws, remote, local, append-ne_self}
use levels.Storage.Upload.{cksum, shadow_key, put}
use levels.Storage.Upload.Laws.{clean_shadow-remote, clean_shadow-files}
use levels.Storage.Pending.{PendingFileEntry}
use levels.Storage.Workers.{
  remove_local, remove_checksum, remove_shadow, cache_recovered, retry_work, upload_round,
  sync_work, upload_pending,
}

module _ {E : Env} (cfg : Settings) (L : EnvLaws E) (key : PendingFileEntry → Str) where
  -- The file is still on the disk; the key is its name.
  abbrev pub Held : PendingFileEntry → St E → Type 0
  Held f s = (key f ≡ f.name) × (local L s f.local_path ≡ some f.body)

  abbrev pub Sent : PendingFileEntry → St E → Type 0
  Sent f s = (key f ≡ f.name) × (remote L s (key f) ≡ some f.body)

  -- What one file has is nothing that the worker of another one writes or removes.
  pub record Apart (other f : PendingFileEntry) : Type 0 where
    pub path : other.local_path ≢ f.local_path
    pub checksum : other.local_path ≢ f.local_path ++ cksum
    pub key_of : key other ≢ key f
    pub shadow : key other ≢ shadow_key E cfg f.name

  remove_local-Keeps :
      (other f : PendingFileEntry) (s : St E)
      → Apart other f
      → Keeps (retry_work E cfg (λ g n. false)) Held Sent Apart other s (remove_local E cfg f s)
  remove_local-Keeps other f s apart =
      (λ h. (h.0, L.fs.remove_other f.local_path s.files other.local_path apart.path ∙ h.1), λ h. h)

  remove_checksum-Keeps :
      (other f : PendingFileEntry) (s : St E)
      → Apart other f
      → Keeps (retry_work E cfg (λ g n. false)) Held Sent Apart other s (remove_checksum E cfg f s)
  remove_checksum-Keeps other f s apart = (
    λ h. (
      h.0,
      L.fs.remove_other (f.local_path ++ cksum) s.files other.local_path apart.checksum ∙ h.1,
    ),
    λ h. h,
  )

  remove_shadow-Keeps :
      (other f : PendingFileEntry) (s : St E)
      → Apart other f
      → Keeps (retry_work E cfg (λ g n. false)) Held Sent Apart other s (remove_shadow E cfg f s)
  remove_shadow-Keeps other f s apart = (
    λ h. (h.0, ap (λ t. L.file t other.local_path) (clean_shadow-files cfg L f.name s) ∙ h.1),
    λ h. (h.0, clean_shadow-remote cfg L f.name (key other) s apart.shadow ∙ h.1),
  )

  cache_recovered-Keeps :
      (other f : PendingFileEntry) (s : St E)
      → Keeps (retry_work E cfg (λ g n. false)) Held Sent Apart other s (cache_recovered E cfg f s)
  unfolding cache_recovered
  cache_recovered-Keeps other f s = ground arith

  -- The worker's own shadow has another key than its file.
  remove_shadow-Sent :
      (f : PendingFileEntry) (s : St E) → Sent f s → Sent f (remove_shadow E cfg f s)
  remove_shadow-Sent f s h =
      let apart : key f ≢ shadow_key E cfg f.name =
        λ e. append-ne_self cfg.shadow_prefix _ f.name (sym e ∙ h.0) in
      (h.0, clean_shadow-remote cfg L f.name (key f) s apart ∙ h.1)

  -- An upload under the key of the file, from the state before the round.
  abbrev Puts : Work (St E) PendingFileEntry → Type 0
  Puts W =
      (f : PendingFileEntry) (n : ℕ) (s : St E)
      → (((W.attempt f n s).1 ≡ (put E cfg (key f) f.body s).1)
          × ((W.attempt f n s).0 ≡ uploaded → (put E cfg (key f) f.body s).0 ≡ nil))
        ⊎ (((W.attempt f n s).1 ≡ s) × ((W.attempt f n s).0 ≢ uploaded))

  put-Keeps :
      (other f : PendingFileEntry) (s : St E)
      → Apart other f
      → Keeps
          (retry_work E cfg (λ g n. false))
          Held
          Sent
          Apart
          other
          s
          (put E cfg (key f) f.body s).1
  put-Keeps other f s apart = (
    λ h. h,
    λ h. (
      h.0,
      L.api.put_other (own_context E s) (key f) f.body s.client (key other) apart.key_of ∙ h.1,
    ),
  )

  Puts-Rules :
      (W : Work (St E) PendingFileEntry)
      → Puts W
      → ((f : PendingFileEntry) → Finishing W Held Sent Apart f (W.cleanup f))
      → ((other f : PendingFileEntry)
          → Apart other f
          → Harmless W Held Sent Apart other (W.cleanup f))
      → Rules W Held Sent Apart
  Puts-Rules W puts own others = record {
    attempt_holds = λ f n s h. elim (puts f n s) [
      | inl (same, sends) ↦ rw same h
      | inr (same, never) ↦ rw same h
    ];
    attempt_sends = λ f n s h done. elim (puts f n s) [
      | inl (same, sends) ↦
          rw same (h.0, L.api.put_ok (own_context E s) (key f) f.body s.client (sends done))
      | inr (same, never) ↦ absurd (never done)
    ];
    attempt_other = λ other f n s apart. elim (puts f n s) [
      | inl (same, sends) ↦ rw same (put-Keeps other f s apart)
      | inr (same, never) ↦ rw same (λ h. h, λ h. h)
    ];
    cleanup_own = own;
    cleanup_other = others;
  }

module _ {E : Env} (cfg : Settings) (L : EnvLaws E) where
  upload_round-Puts :
      (overdue : PendingFileEntry → ℕ → Bool)
      → Puts cfg L (λ f. E.name f.fd) (retry_work E cfg overdue)
  unfolding upload_round
  upload_round-Puts overdue f n s =
      let ends : Bool =
        s.stopped || s.lock_lost || (ltb_ℤ (pos 0) cfg.opt.retry_max_duration && overdue f n) in
      elim (Bool-cases ends) [
        | inl stops ↦ inr (ground arith, ground arith)
        | inr goes ↦ inl (ground arith, ground arith)
      ]

  pub retry_work-Rules :
      (overdue : PendingFileEntry → ℕ → Bool)
      → let key : PendingFileEntry → Str = λ f. E.name f.fd in
        Rules (retry_work E cfg overdue) (Held cfg L key) (Sent cfg L key) (Apart cfg L key)
  retry_work-Rules overdue =
      let key : PendingFileEntry → Str = λ f. E.name f.fd in
      Puts-Rules cfg L key (retry_work E cfg overdue) (upload_round-Puts overdue)
        (λ f. (λ s h. h, (λ s h. h, (remove_shadow-Sent cfg L key f, tt))))
        (λ other f apart. (
          λ s. remove_local-Keeps cfg L key other f s apart,
          (
            λ s. remove_checksum-Keeps cfg L key other f s apart,
            (λ s. remove_shadow-Keeps cfg L key other f s apart, tt),
          ),
        ))

  upload_pending-Puts : Puts cfg L (λ f. f.name) (sync_work E cfg)
  unfolding upload_pending
  upload_pending-Puts f n s = inl (refl, ground arith)

  pub sync_work-Rules :
      let key : PendingFileEntry → Str = λ f. f.name in
      Rules (sync_work E cfg) (Held cfg L key) (Sent cfg L key) (Apart cfg L key)
  sync_work-Rules =
      let key : PendingFileEntry → Str = λ f. f.name in
      Puts-Rules cfg L key (sync_work E cfg) upload_pending-Puts
        (λ f. (
          λ s h. h,
          (
            λ s h. h,
            (remove_shadow-Sent cfg L key f, (λ s. (cache_recovered-Keeps cfg L key f f s).1, tt)),
          ),
        ))
        (λ other f apart. (
          λ s. remove_local-Keeps cfg L key other f s apart,
          (
            λ s. remove_checksum-Keeps cfg L key other f s apart,
            (
              λ s. remove_shadow-Keeps cfg L key other f s apart,
              (cache_recovered-Keeps cfg L key other f, tt),
            ),
          ),
        ))
