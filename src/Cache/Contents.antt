-- ===== src/Cache/Contents.antt =====
-- What is found in the cache: after a put, until it expires, and after an invalidation.
use bqemulator.Prelude.{
  ℕ, ◌+◌, ◌≡◌, refl, sym, ap, ◌∙◌, Bool, true, false, ◌||◌, Option, none, some, List, [], ◌∷◌,
  arith, ltb, if◌then◌else◌, Text, text_eq, ◌==◌, ==_iff,
}
use bqemulator.Dict.{Dict, Unique, get, put, remove, get-put_self, get-remove}
use bqemulator.Cache.{
  CacheEntry, Settings, enabled, referenced, make_room, stored, cache_put, cache_get,
  keys_to_remove, remove_all, invalidate_table,
}

is_removed : Text → List Text → Bool
is_removed k [] = false
is_removed k (j ∷ js) = j == k || is_removed k js

module _ {T : Type 0} where
  found_put :
      (k : Text) (e : CacheEntry T) (o : Option (Dict Text (CacheEntry T)))
      (d : Dict Text (CacheEntry T))
      → stored k e o ≡ some d
      → get d k ≡ some e
  unfolding stored
  found_put k e none d h = cc
  found_put k e (some m) d h =
      let same : put m k e ≡ d = cc in ap (λ x. get x k) (sym same) ∙ get-put_self m k e

  -- With the cache enabled, what is put under a key is found under it until its lifetime is over, and
  -- not after that.
  pub cache_get-cache_put :
      (c : Settings) (now later : ℕ) (k : Text) (result : T) (tables : List Text)
      (d d' : Dict Text (CacheEntry T))
      → enabled c ≡ true
      → cache_put c now k result tables d ≡ some d'
      → (cache_get c later k d').0 ≡ (if ltb (now + c.ttl) later then none else some result)
  unfolding cache_put cache_get
  cache_get-cache_put c now later k result tables d d' on h =
      let e : CacheEntry T = record {
        table = result;
        referenced_tables = tables;
        created_at = now;
      } in
      rw (on, found_put k e (make_room c d) d' (rw on at h)) (ground arith)

  get-remove_all :
      (ks : List Text) (d : Dict Text (CacheEntry T)) (k : Text)
      → get (remove_all ks d) k ≡ (if is_removed k ks then none else get d k)
  unfolding remove_all is_removed
  get-remove_all [] d k = refl
  get-remove_all (j ∷ ks) d k = ground (arith, get-remove_all ks (remove d j) k, get-remove d j k)

  -- The entry is there and does not refer to the table.
  abbrev pub unless_referenced : Text → Option (CacheEntry T) → Option (CacheEntry T)
  unless_referenced t none = none
  unless_referenced t (some e) = if referenced t e.referenced_tables then none else some e

  key_absent :
      (t k : Text) (d : Dict Text (CacheEntry T))
      → get d k ≡ none
      → is_removed k (keys_to_remove t d) ≡ false
  unfolding keys_to_remove get is_removed
  key_absent t k [] h = refl
  key_absent t k ((j, e) ∷ d) h = ground (arith, key_absent t k d)

  key_kept :
      (t k : Text) (d : Dict Text (CacheEntry T))
      → Unique d
      → (if is_removed k (keys_to_remove t d) then none else get d k)
        ≡ unless_referenced t (get d k)
  unfolding keys_to_remove get is_removed
  key_kept t k [] u = refl
  key_kept t k ((j, e) ∷ d) u = ground (arith, key_kept t k d u.1, key_absent t k d, ==_iff j k)

  -- In a store without double keys, an invalidation drops exactly the entries that refer to the table,
  -- and keeps the others as they are.
  pub get-invalidate_table :
      (t k : Text) (d : Dict Text (CacheEntry T))
      → Unique d
      → get (invalidate_table t d).1 k ≡ unless_referenced t (get d k)
  unfolding invalidate_table
  get-invalidate_table t k d u = get-remove_all (keys_to_remove t d) d k ∙ key_kept t k d u
