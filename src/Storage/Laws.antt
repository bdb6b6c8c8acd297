-- ===== src/Storage/Laws.antt =====
-- What the storage relies on of its parts, and the views by which its laws are stated.
use levels.Base.{
  ◌≢◌, ap, ℕ, Option, ◌∷◌, ◌++◌, Str, Bytes, length, length-append, arith, ◌≡◌, [], true,
}
use levels.FileDesc.Naming.{IsNaming}
use levels.Client.{IsLawful}
use levels.Files.{IsLawfulFs, contains_slash}
use levels.Storage.State.{MemFile, IsLawfulLru, Env, St}

-- The client, the files and the cache are lawful, and goleveldb names files as documented.
pub record EnvLaws (E : Env) : Type 0 where
  pub object : E.api.State → Str → Option Bytes
  pub api : IsLawful E.api object
  pub file : E.fs.State → Str → Option Bytes
  pub fs : IsLawfulFs E.fs file
  pub cached : E.lru.State → Str → Option MemFile
  pub lru : IsLawfulLru E.lru cached
  pub naming : IsNaming E.name

module _ {E : Env} (L : EnvLaws E) where
  -- What the object store, the local disk and the cache hold.
  abbrev pub remote : St E → Str → Option Bytes
  remote s k = L.object s.client k

  abbrev pub local : St E → Str → Option Bytes
  local s p = L.file s.files p

  abbrev pub in_cache : St E → Str → Option MemFile
  in_cache s k = L.cached s.cache k

-- A key below a prefix is another key.
pub append-ne_self : (p : Str) (c : ℕ) (s : Str) → p ++ (c ∷ s) ≢ s
append-ne_self p c s e = absurd (omega (arith, length-append {0} p (c ∷ s), ap length e))

pub contains_slash-append : (p n : Str) → contains_slash (p ++ (b'/' ∷ n)) ≡ true
unfolding contains_slash
contains_slash-append [] n = ground arith
contains_slash-append (c ∷ p) n = ground (arith, contains_slash-append p n)
