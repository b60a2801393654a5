-- ===== src/Cache/Bounds.antt =====
-- The size of the cache, and which entry is evicted.
use bqemulator.Prelude.{
  ℕ, suc, ◌<◌, ◌⊎◌, ◌≤◌, ◌≡◌, refl, true, Option, none, some, List, [], ◌∷◌, arith, length, leb,
  Text, text_eq, ==_iff, Bool-cases, inl, inr,
}
use bqemulator.Dict.{Dict, get, has, put, remove, length-put}
use bqemulator.Cache.{
  CacheEntry, Settings, enabled, oldest_from, oldest_key, evicted, make_room, cache_put,
}

module _ {T : Type 0} where
  length-remove : (d : Dict Text (CacheEntry T)) (k : Text) → length (remove d k) ≤ length d
  unfolding remove
  length-remove [] k = omega arith
  length-remove ((j, e) ∷ d) k = ground (arith, length-remove d k)

  length-remove-has :
      (d : Dict Text (CacheEntry T)) (k : Text)
      → has d k ≡ true
      → suc (length (remove d k)) ≤ length d
  unfolding remove get
  length-remove-has [] k h = cc
  length-remove-has ((j, e) ∷ d) k h = ground (arith, length-remove d k, length-remove-has d k)

  oldest_from-has :
      (k : Text) (c : ℕ) (d : Dict Text (CacheEntry T))
      → (oldest_from k c d ≡ k) ⊎ (has d (oldest_from k c d) ≡ true)
  unfolding oldest_from get
  oldest_from-has k c [] = inl refl
  oldest_from-has k c ((j, e) ∷ d) = ground (
    arith,
    oldest_from-has k c d,
    oldest_from-has j e.created_at d,
    ==_iff j (oldest_from j e.created_at d),
    ==_iff j (oldest_from k c d),
  )

  oldest_key-has :
      (d : Dict Text (CacheEntry T)) (k : Text) → oldest_key d ≡ some k → has d k ≡ true
  unfolding oldest_key get
  oldest_key-has [] k h = cc
  oldest_key-has ((j, e) ∷ d) k h = ground (arith, oldest_from-has j e.created_at d, ==_iff j k)

  make_room-length :
      (c : Settings) (d : Dict Text (CacheEntry T))
      → 0 < c.max_entries
      → length d ≤ c.max_entries
      → (d' : Dict Text (CacheEntry T)) × (make_room c d ≡ some d') × (length d' < c.max_entries)
  unfolding make_room oldest_key
  make_room-length c d few h = elim (Bool-cases (leb c.max_entries (length d))) [
    | inr room ↦ (d, rw room refl, ground arith)
    | inl full ↦ rw full (evict d (oldest_key d) refl (ground arith))
  ]
    where
      evict :
          (d : Dict Text (CacheEntry T)) (o : Option Text)
          → oldest_key d ≡ o
          → length d ≡ c.max_entries
          → (d' : Dict Text (CacheEntry T)) × (evicted o d ≡ some d') × (length d' < c.max_entries)
      evict [] none q n = let no : ⊥ = omega arith in absurd no
      evict (x ∷ d) none q n = let no : ⊥ = cc q in absurd no
      evict d (some k) q n =
          (remove d k, refl, omega (arith, length-remove-has d k (oldest_key-has d k q)))

  -- With room for an entry at all, a put raises nothing and leaves at most `max_entries` entries, if there
  -- were no more before.
  pub cache_put-length :
      (c : Settings) (now : ℕ) (k : Text) (result : T) (tables : List Text)
      (d : Dict Text (CacheEntry T))
      → 0 < c.max_entries
      → length d ≤ c.max_entries
      → (d' : Dict Text (CacheEntry T)) × (cache_put c now k result tables d ≡ some d')
        × (length d' ≤ c.max_entries)
  cache_put-length c now k result tables d few h =
      let e : CacheEntry T = record {
        table = result;
        referenced_tables = tables;
        created_at = now;
      } in
      elim (Bool-cases (enabled c)) [
        | inr off ↦ (d, unfold cache_put in rw off refl, h)
        | inl on ↦
            let (m, q, room) = make_room-length c d few h in
            (put m k e, unfold cache_put in rw (on, q) refl, ground (arith, length-put m k e))
      ]
