-- ===== src/Storage/Access/Listing.antt =====
-- What `List` returns, by the names of its files.
use levels.Base.{◌≡◌, ◌∙◌, ap, refl, Bool, not, ◌&&◌, ◌||◌, List, [], ◌∷◌, ◌++◌, Str, arith}
use levels.Failure.{ok}
use levels.FileDesc.{FileType, FileDesc}
use levels.Storage.State.{Env, Settings, St, own_context}
use levels.Storage.Access.{seen, of_type, unseen_of_type, pending_files, add_pending, list}

module _ (E : Env) (cfg : Settings) where
  seen-append :
      (k : Str) (xs ys : List FileDesc)
      → seen E cfg k (xs ++ ys) ≡ seen E cfg k xs || seen E cfg k ys
  seen-append k [] ys = refl
  seen-append k (fd ∷ xs) ys = ground (arith, seen-append k xs ys)

  seen-unseen_of_type :
      (k : Str) (ft : FileType → Bool) (pending files : List FileDesc)
      → seen E cfg k (unseen_of_type E cfg ft pending files)
        ≡ not (seen E cfg k pending) && seen E cfg k (of_type E cfg ft files)
  unfolding unseen_of_type of_type
  seen-unseen_of_type k ft pending [] = ground arith
  seen-unseen_of_type k ft pending (fd ∷ files) =
      ground (arith, seen-unseen_of_type k ft pending files)

  pending_files-client :
      (s : St E) (c : E.api.State)
      → (pending_files E cfg (record s { client = c })).0 ≡ (pending_files E cfg s).0
  unfolding pending_files
  pending_files-client s c = refl

  -- A name is in what List returns exactly if it is that of a pending file of the types asked for,
  -- or of such a file in the object store while no pending file of any type has that name.
  pub seen-list :
      (ft : FileType → Bool) (s : St E) (result files : List FileDesc) (k : Str)
      → (list E cfg ft s).0 ≡ ok result
      → (E.api.list (own_context E s) s.client).0 ≡ ok files
      → let pending = (pending_files E cfg s).0 in
        seen E cfg k result
        ≡ seen E cfg k (of_type E cfg ft pending)
          || not (seen E cfg k pending) && seen E cfg k (of_type E cfg ft files)
  unfolding list add_pending
  seen-list ft s result files k h listed =
      let pending = (pending_files E cfg s).0 in
      let here = pending_files-client s (E.api.list (own_context E s) s.client).1 in
      let shown : result ≡ of_type E cfg ft pending ++ unseen_of_type E cfg ft pending files =
        ground (arith, here) in
      rw shown (
        seen-append k (of_type E cfg ft pending) (unseen_of_type E cfg ft pending files)
        ∙ ap (λ b. seen E cfg k (of_type E cfg ft pending) || b)
            (seen-unseen_of_type k ft pending files))
