-- ===== src/Cache.antt =====
-- src/bqemulator/sql/cache.py: the cache of query results. The clock's reading is an argument, in
-- whole ticks; the digest of a key is a parameter.
pub mod Bounds
pub mod Contents
use bqemulator.Prelude.{
  ℕ, ◌+◌, Bool, true, false, ◌||◌, Option, none, some, List, [], ◌∷◌, ◌++◌, length, ltb, leb,
  if◌then◌else◌, not, Text, text_eq, ◌==◌,
}
use bqemulator.Dict.{Dict, get, put, remove, keep}

pub record CacheEntry (T : Type 0) : Type 0 where
  pub table : T
  pub referenced_tables : List Text
  pub created_at : ℕ

-- QueryCache: its two settings. A lifetime that is not positive is 0.
pub record Settings : Type 0 where
  pub ttl : ℕ
  pub max_entries : ℕ

abbrev pub enabled : Settings → Bool
enabled c = ltb 0 c.ttl

-- The text that _key digests: the project, the SQL and the parameters, if there are any.
abbrev pub key_text : Text → Text → Text → Text
key_text project_id sql parameters = project_id ++ (sql ++ parameters)

unfoldable pub referenced : Text → List Text → Bool
referenced t [] = false
referenced t (r ∷ rs) = (t == r) || referenced t rs

module _ {T : Type 0} where
  -- The key of the first entry that no other is older than.
  unfoldable pub oldest_from : Text → ℕ → Dict Text (CacheEntry T) → Text
  oldest_from k c [] = k
  oldest_from k c ((j, e) ∷ d) =
      let later = oldest_from j e.created_at d in
      let same = oldest_from k c d in if ltb e.created_at c then later else same

  -- min(self._store, key=...): `none` is the ValueError on an empty store.
  unfoldable pub oldest_key : Dict Text (CacheEntry T) → Option Text
  unfolding oldest_from
  oldest_key [] = none
  oldest_key ((k, e) ∷ d) = some (oldest_from k e.created_at d)

  evicted : Option Text → Dict Text (CacheEntry T) → Option (Dict Text (CacheEntry T))
  evicted none d = none
  evicted (some k) d = some (remove d k)

  -- The eviction of put.
  unfoldable pub make_room : Settings → Dict Text (CacheEntry T) → Option (Dict Text (CacheEntry T))
  unfolding oldest_key evicted
  make_room c d = if leb c.max_entries (length d) then evicted (oldest_key d) d else some d

  stored :
      Text → CacheEntry T → Option (Dict Text (CacheEntry T)) → Option (Dict Text (CacheEntry T))
  stored k e none = none
  stored k e (some d) = some (put d k e)

  -- QueryCache.put under a digested key, at time `now`: `none` is the exception.
  unfoldable pub cache_put :
      Settings
      → ℕ
      → Text
      → T
      → List Text
      → Dict Text (CacheEntry T)
      → Option (Dict Text (CacheEntry T))
  unfolding make_room stored
  cache_put c now k result tables d =
      if enabled c
      then stored k (record { table = result; referenced_tables = tables; created_at = now })
          (make_room c d)
      else some d

  unless_expired :
      Settings
      → ℕ
      → Text
      → Option (CacheEntry T)
      → Dict Text (CacheEntry T)
      → Option T × Dict Text (CacheEntry T)
  unless_expired c now k none d = (none, d)
  unless_expired c now k (some e) d =
      if ltb (e.created_at + c.ttl) now then (none, remove d k) else (some e.table, d)

  -- QueryCache.get
  unfoldable pub cache_get :
      Settings → ℕ → Text → Dict Text (CacheEntry T) → Option T × Dict Text (CacheEntry T)
  unfolding unless_expired
  cache_get c now k d = if enabled c then unless_expired c now k (get d k) d else (none, d)

  unfoldable pub keys_to_remove : Text → Dict Text (CacheEntry T) → List Text
  unfolding referenced
  keys_to_remove t [] = []
  keys_to_remove t ((k, e) ∷ d) =
      let rest = keys_to_remove t d in if referenced t e.referenced_tables then k ∷ rest else rest

  unfoldable pub remove_all : List Text → Dict Text (CacheEntry T) → Dict Text (CacheEntry T)
  remove_all [] d = d
  remove_all (k ∷ ks) d = remove_all ks (remove d k)

  -- QueryCache.invalidate_table: the number of entries that go, and the rest.
  unfoldable pub invalidate_table : Text → Dict Text (CacheEntry T) → ℕ × Dict Text (CacheEntry T)
  unfolding keys_to_remove remove_all
  invalidate_table t d = (length (keys_to_remove t d), remove_all (keys_to_remove t d) d)
