-- ===== src/Storage/Access/Laws.antt =====
-- What `Open`, `SetMeta`, `GetMeta` and `Remove` give.
use levels.Base.{
  ℕ, ◌^◌, ◌<◌, ◌≡◌, ◌∙◌, sym, ap, ◌⊎◌, inl, inr, false, true, none, some, ◌++◌, codes, arith,
  Option-cases, trim_space,
}
use Prim.Native.String.{String}
use levels.Base.Int.{pos}
use levels.Failure.{GoError, Result, ok, err, nil, not_exist, wrapped, Result-cases}
use levels.FileDesc.{FileType, FileDesc, parse_file_desc}
use levels.FileDesc.Naming.{parse_file_desc-name, trim_space-name}
use levels.Client.{is_some-eq-none}
use levels.Storage.State.{MemFile, Env, Settings, St, own_context}
use levels.Storage.Laws.{EnvLaws, remote, local, in_cache}
use levels.Storage.Upload.{pending_path}
use levels.Storage.Writer.{MemReader}
use levels.Storage.Access.{current, set_meta, get_meta, read_meta, check_meta, open_file, get}

module _ {E : Env} (cfg : Settings) (L : EnvLaws E) where
  -- What `SetMeta` wrote.
  set_meta_writes :
      (fd : FileDesc) (s : St E)
      → let (r, t) = set_meta E cfg fd s in
        r ≡ nil → remote L t current ≡ some (E.name fd ++ codes "\n")
  unfolding set_meta
  set_meta_writes fd s h =
      ground (arith, L.api.put_ok (own_context E s) current (E.name fd ++ codes "\n") s.client)

  -- The bytes of a reader that Open returns are those of the cache; or the cache has none, and
  -- they are those that GetBytes returned and the object store has; or the cache has none,
  -- GetBytes failed, and they are those of the pending directory.
  pub open_file_source :
      (fd : FileDesc) (s : St E) (r : MemReader)
      → (open_file E cfg fd s).0 ≡ ok r
      → let n = E.name fd in
        ((f : MemFile) × (in_cache L s n ≡ some f) × (r.body ≡ f.body))
        ⊎ ((in_cache L s n ≡ none)
            × (((E.api.get_bytes (own_context E s) n s.client).0 ≡ ok r.body)
                × (remote L s n ≡ some r.body)))
        ⊎ ((in_cache L s n ≡ none)
            × ((e : GoError) × ((E.api.get_bytes (own_context E s) n s.client).0 ≡ err e)
                × (local L s (pending_path E cfg n) ≡ some r.body)))
  unfolding open_file
  open_file_source fd s r h =
      let n = E.name fd in
      let s1 = record s { cache = (E.lru.get n s.cache).1 } in
      elim (Option-cases (L.cached s.cache n)) [
        | inr (f, hit) ↦ inl (f, hit, ground (arith, L.lru.get_found n s.cache))
        | inl miss ↦ elim (Result-cases (get E cfg n s1).0) [
          | inl (body, got) ↦ inr (
              inl (
                miss,
                (
                  ground (arith, L.lru.get_found n s.cache),
                  ground (
                    arith,
                    L.lru.get_found n s.cache,
                    L.api.get_ok (own_context E s1) n s.client body,
                  ),
                ),
              ))
          | inr (e, missing) ↦ inr (
              inr (
                miss,
                (
                  e,
                  missing,
                  ground (
                    arith,
                    L.lru.get_found n s.cache,
                    L.fs.read_ok (pending_path E cfg n) s.files r.body,
                  ),
                ),
              ))
        ]
      ]

  -- What `GetMeta` may say in a state `t` whose CURRENT names the file `fd`.
  abbrev pub MetaResult : FileDesc → St E → Result FileDesc → Type 0
  MetaResult fd t r =
      (r ≡ ok fd)
      ⊎ ((r ≡ err not_exist) × (remote L t (E.name fd) ≡ none))
      ⊎ ((label : String) × (e : GoError) × (r ≡ err (wrapped label e)))

  check_meta_lem : (fd : FileDesc) (t : St E) → MetaResult fd t (check_meta E cfg fd t).0
  unfolding check_meta
  check_meta_lem fd t =
      elim (Result-cases (E.api.exists (own_context E t) (E.name fd) t.client).0) [
        | inr (e, r) ↦ inr (inr ("failed to check meta file existence", e, ground arith))
        | inl (true, r) ↦ inl (ground arith)
        | inl (false, r) ↦ inr (
            inl (
              ground arith,
              is_some-eq-none _ (L.api.exists_ok (own_context E t) _ t.client false r),
            ))
      ]

  MetaResult-same :
      (fd : FileDesc) (t u : St E) (r : Result FileDesc)
      → remote L u (E.name fd) ≡ remote L t (E.name fd)
      → MetaResult fd u r
      → MetaResult fd t r
  MetaResult-same fd t u r same (inl found) = inl found
  MetaResult-same fd t u r same (inr (inl (missing, gone))) = inr (inl (missing, sym same ∙ gone))
  MetaResult-same fd t u r same (inr (inr failure)) = inr (inr failure)

  module _ (fd : FileDesc)
      (parses : parse_file_desc (trim_space (E.name fd ++ codes "\n")) ≡ some fd) (t : St E)
      (line : remote L t current ≡ some (E.name fd ++ codes "\n")) where
    read_meta_lem : MetaResult fd t (read_meta E cfg t).0
    unfolding read_meta
    read_meta_lem = elim (Result-cases (E.api.get_bytes (own_context E t) current t.client).0) [
      | inr (e, r) ↦ inr (inr ("failed to get meta", e, ground arith))
      | inl (text, r) ↦
          let got : text ≡ E.name fd ++ codes "\n" =
            ground (arith, L.api.get_ok (own_context E t) current t.client text) in
          let u = record t { client = (E.api.get_bytes (own_context E t) current t.client).1 } in
          let there : (read_meta E cfg t).0 ≡ (check_meta E cfg fd u).0 =
            ground (arith, ap (λ x. parse_file_desc (trim_space x)) got) in
          rw there (
            MetaResult-same fd t u _ (L.api.get_keeps (own_context E t) current t.client _)
              (check_meta_lem fd u))
    ]

  get_meta_lem :
      (fd : FileDesc) (t : St E)
      → parse_file_desc (trim_space (E.name fd ++ codes "\n")) ≡ some fd
      → remote L t current ≡ some (E.name fd ++ codes "\n")
      → t.closed ≡ false
      → MetaResult fd t (get_meta E cfg t).0
  unfolding get_meta
  get_meta_lem fd t parses line opened =
      let ctx = own_context E t in
      let u = record t { client = (E.api.exists ctx current t.client).1 } in
      elim (Result-cases (E.api.exists ctx current t.client).0) [
        | inr (e, r) ↦ inr (inr ("failed to check CURRENT existence", e, ground arith))
        | inl (false, r) ↦ absurd (ground (arith, L.api.exists_ok ctx current t.client false r))
        | inl (true, r) ↦
            let there : (get_meta E cfg t).0 ≡ (read_meta E cfg u).0 = ground arith in
            rw there (
              MetaResult-same fd t u _ (L.api.exists_keeps ctx current t.client _)
                (read_meta_lem fd parses u (L.api.exists_keeps ctx current t.client _ ∙ line)))
      ]

  -- After SetMeta has succeeded, GetMeta returns the same file, or says that there is no such file
  -- and there is none in the object store, or returns a wrapped error of the client. The content
  -- of CURRENT is never found invalid.
  pub get_meta-set_meta :
      (u : FileType) (n : ℕ) (s : St E)
      → let fd : FileDesc = record { file_type = u; num = pos n } in
        n < 2 ^ 63
        → (set_meta E cfg fd s).0 ≡ nil
        → let t = (set_meta E cfg fd s).1 in MetaResult fd t (get_meta E cfg t).0
  get_meta-set_meta u n s h done =
      let fd : FileDesc = record { file_type = u; num = pos n } in
      get_meta_lem fd (set_meta E cfg fd s).1
        (rw (trim_space-name L.naming u n) (parse_file_desc-name L.naming u n h))
        (set_meta_writes fd s done) (unfold set_meta in ground arith)
