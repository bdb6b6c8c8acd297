-- ===== src/Storage/Construction/Laws.antt =====
-- What a storage is like that `NewS3Storage` has made.
use mathlib.Core.List.{append_assoc}
use levels.Base.{
  if◌then◌else◌, ◌≡◌, refl, sym, ap, ◌∙◌, true, false, none, [], ◌∷◌, ◌++◌, Str, codes, is_empty,
  arith, inl, inr, Bool-cases, ℕ,
}
use levels.Base.Int.{ℤ}
use levels.Failure.{Result, ok, nil, Result-cases}
use levels.Config.{OpenOption, apply_defaults, validate, join, local_path, local_persistence_path}
use levels.Config.Laws.{
  IsComplete, apply_defaults-IsComplete, local_persistence_path-under, apply_defaults_always_on,
}
use levels.Files.{IsWithin}
use levels.Storage.State.{Env, St}
use levels.Storage.Laws.{EnvLaws, local}
use levels.Storage.Upload.{has_pending_dir, has_shadow, pending_path}
use levels.Storage.Recovery.{has_local_dir, remove_all_orphaned}
use levels.Storage.Recovery.Orphans.{remove_all_orphaned_within}
use levels.Storage.Construction.{Opened, opened, make_dir, open_dirs, new_s3_storage}

is_empty-append : (a : Str) (c : ℕ) (b : Str) → is_empty (a ++ (c ∷ b)) ≡ false
is_empty-append [] c b = refl
is_empty-append (d ∷ a) c b = refl

join_whole :
    (a b : Str)
    → is_empty a ≡ false
    → is_empty b ≡ false
    → (join a b ≡ a ++ (b'/' ∷ b)) × (is_empty (join a b) ≡ false)
unfolding join
join_whole a b ha hb = (ground arith, ground (arith, is_empty-append a b'/' b))

valid_paths :
    (opt : OpenOption)
    → validate opt ≡ nil
    → (is_empty (local_path opt) ≡ false) × (is_empty (local_persistence_path opt) ≡ false)
unfolding validate local_path local_persistence_path
valid_paths opt valid =
    let given : (is_empty opt.local_cache_dir ≡ false) × (is_empty opt.path ≡ false) =
      ground arith in
    let whole = join_whole opt.local_cache_dir opt.path given.0 given.1 in
    (
      whole.1,
      elim (Bool-cases (is_empty opt.local_persistence_dir)) [
        | inl unset ↦ ground (
          arith,
          join_whole (join opt.local_cache_dir opt.path) (codes "pending_uploads") whole.1 refl,
        )
        | inr set ↦
            let own = join_whole opt.local_persistence_dir opt.path set given.1 in
            ground (
              arith,
              join_whole (join opt.local_persistence_dir opt.path) (codes "pending_uploads") own.1
                  refl,
            )
      ],
    )

inside_of :
    (dir pending n : Str)
    → pending ≡ dir ++ codes "/pending_uploads"
    → IsWithin dir (join pending n)
unfolding join
inside_of dir pending [] e =
    let full : is_empty pending ≡ false = ap is_empty e ∙ is_empty-append dir _ _ in
    inr (codes "pending_uploads", ground (arith, full, e))
inside_of dir pending (c ∷ n) e =
    let full : is_empty pending ≡ false = ap is_empty e ∙ is_empty-append dir _ _ in
    inr (
      codes "pending_uploads" ++ (b'/' ∷ c ∷ n),
      (join_whole pending (c ∷ n) full refl).0
          ∙ ap (λ d. d ++ (b'/' ∷ c ∷ n)) e
          ∙ append_assoc dir (codes "/pending_uploads") (b'/' ∷ c ∷ n),
    )

module _ {E : Env} (new_lru : ℤ → Result E.lru.State) where
  -- The storage is open with its directories and options complete, and does not hold the lock.
  pub record IsReady (o : Opened E) : Type 0 where
    pub pending : has_pending_dir E o.cfg ≡ true
    pub shadow : has_shadow E o.cfg ≡ true
    pub local_dir : has_local_dir E o.cfg ≡ true
    pub complete : IsComplete o.cfg.opt
    pub opened : o.storage.closed ≡ false
    pub unlocked : o.storage.lock_held ≡ false
    pub running : o.storage.stopped ≡ false

  abbrev Made : OpenOption → Opened E → Type 0
  Made opt o =
      (cache : E.lru.State) × (c : E.api.State) × (f : E.fs.State) × (o
        ≡ opened E new_lru opt cache c f)

  open_dirs-Made :
      (opt : OpenOption) (cache : E.lru.State) (c : E.api.State) (f : E.fs.State) (o : Opened E)
      → (open_dirs E new_lru opt cache c f).0 ≡ ok o
      → Made opt o
  unfolding open_dirs
  open_dirs-Made opt cache c f o h =
      let (made, f1) = make_dir E new_lru (local_path opt) f in
      let (pending, f2) =
        if opt.enable_local_persistence
        then E.fs.mkdir_all (local_persistence_path opt) f1
        else (nil, f1) in
      elim (Result-cases made) [
        | inr (e, bad) ↦ absurd (ground arith)
        | inl (_, good) ↦ elim (Result-cases pending) [
          | inr (e, bad) ↦ absurd (ground arith)
          | inl (_, fine) ↦ (cache, c, f2, ground arith)
        ]
      ]

  new_s3_storage-Made :
      (given : OpenOption) (c : E.api.State) (f : E.fs.State) (o : Opened E)
      → (new_s3_storage E new_lru given c f).0 ≡ ok o
      → Made (apply_defaults given) o × (validate (apply_defaults given) ≡ nil)
  unfolding new_s3_storage
  new_s3_storage-Made given c f o h =
      let opt = apply_defaults given in
      elim (Result-cases (validate opt)) [
        | inr (e, bad) ↦ absurd (ground arith)
        | inl (_, valid) ↦ elim (Result-cases (new_lru opt.max_cache_size)) [
          | inr (e, bad) ↦ absurd (ground arith)
          | inl (cache, good) ↦ (open_dirs-Made opt cache c f o (ground arith), valid)
        ]
      ]

  -- A storage that NewS3Storage has made is open, has its pending directory, its local directory
  -- and its shadow prefix, has complete options, and does not hold the lock.
  pub new_s3_storage-IsReady :
      (given : OpenOption) (c : E.api.State) (f : E.fs.State) (o : Opened E)
      → (new_s3_storage E new_lru given c f).0 ≡ ok o
      → IsReady o
  new_s3_storage-IsReady given c f o h =
      let ((cache, c', f', made), valid) = new_s3_storage-Made given c f o h in
      let opt = apply_defaults given in
      let (whole, deep) = valid_paths opt valid in
      let (persists, shadowed) = apply_defaults_always_on given in
      rw made (record {
        pending = ground (arith, persists, deep);
        shadow = ground (arith, shadowed);
        local_dir = ground (arith, whole);
        complete = apply_defaults-IsComplete given;
        opened = refl;
        unlocked = refl;
        running = refl;
      })

  -- For a storage that NewS3Storage has made from options without a directory for pending files of
  -- their own, a removeAllOrphaned while the lock is held, in which os.RemoveAll succeeds on the
  -- local cache directory, leaves no pending file of any name.
  pub remove_all_orphaned-new_s3_storage :
      (L : EnvLaws E) (given : OpenOption) (c : E.api.State) (f : E.fs.State) (o : Opened E)
      (s : St E) (n : Str)
      → (new_s3_storage E new_lru given c f).0 ≡ ok o
      → given.local_persistence_dir ≡ []
      → s.lock_lost ≡ false
      → (E.fs.remove_all o.cfg.local_dir s.files).0 ≡ nil
      → local L (remove_all_orphaned E o.cfg s).1 (pending_path E o.cfg n) ≡ none
  remove_all_orphaned-new_s3_storage L given c f o s n h unset held done =
      let ((cache, c', f', made), valid) = new_s3_storage-Made given c f o h in
      let ready = new_s3_storage-IsReady given c f o h in
      let opt = apply_defaults given in
      let pends : o.cfg.pending_dir ≡ local_persistence_path opt =
        ap (λ x. x.cfg.pending_dir) made
        ∙ ap (λ b. if b then local_persistence_path opt else [])
            (apply_defaults_always_on given).0 in
      let unset' : opt.local_persistence_dir ≡ [] = unfold apply_defaults in unset in
      let under : o.cfg.pending_dir ≡ o.cfg.local_dir ++ codes "/pending_uploads" =
        pends
        ∙ local_persistence_path-under opt unset' valid
        ∙ ap (λ d. d ++ codes "/pending_uploads") (sym (ap (λ x. x.cfg.local_dir) made)) in
      remove_all_orphaned_within o.cfg L (pending_path E o.cfg n) s held ready.local_dir done
        (inside_of o.cfg.local_dir o.cfg.pending_dir n under)
