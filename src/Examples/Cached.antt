-- ===== src/Examples/Cached.antt =====
-- The cache of query results, and the states of a job.
use bqemulator.Prelude.{
  ℕ, ◌+◌, ◌≤◌, ◌≡◌, refl, none, some, [], ◌∷◌, arith, length, ltb, if◌then◌else◌, Text, text,
  text_eq, list_beq,
}
use bqemulator.Dict.{Dict, get, put, remove}
use bqemulator.Cache.{CacheEntry, Settings, cache_put, cache_get, invalidate_table, oldest_key}
use bqemulator.Cache.Bounds.{cache_put-length}
use bqemulator.Cache.Contents.{unless_referenced, cache_get-cache_put, get-invalidate_table}
use bqemulator.Jobs.{
  pending, finished, start, complete, advance_all, advance_job, rank, advance_all-length,
}

abbrev settings : Settings
settings = record { ttl = 60; max_entries = 2 }

abbrev entry : ℕ → CacheEntry ℕ
entry now = record { table = now; referenced_tables = text "p.d.t" ∷ []; created_at = now }

abbrev full : Dict Text (CacheEntry ℕ)
full = (text "a", entry 5) ∷ (text "b", entry 3) ∷ []

-- The older entry, `b`, makes room.
put-evicts :
    cache_put settings 9 (text "c") 9 (text "p.d.t" ∷ []) full
    ≡ some ((text "a", entry 5) ∷ (text "c", entry 9) ∷ [])
unfolding cache_put oldest_key remove put list_beq
put-evicts = refl

cache_put-length_example :
    (d' : Dict Text (CacheEntry ℕ)) × (cache_put settings 9 (text "c") 9 (text "p.d.t" ∷ []) full
      ≡ some d')
    × (length d' ≤ 2)
cache_put-length_example =
    cache_put-length settings 9 (text "c") 9 (text "p.d.t" ∷ []) full (omega arith) (omega arith)

cache_get-cache_put_example :
    (cache_get settings 70 (text "c") ((text "a", entry 5) ∷ (text "c", entry 9) ∷ [])).0
    ≡ (if ltb (9 + 60) 70 then none else some 9)
cache_get-cache_put_example =
    cache_get-cache_put settings 9 70 (text "c") 9 (text "p.d.t" ∷ []) full
      ((text "a", entry 5) ∷ (text "c", entry 9) ∷ []) refl put-evicts

get-invalidate_table_example :
    get (invalidate_table (text "p.d.t") full).1 (text "a")
    ≡ unless_referenced (text "p.d.t") (get full (text "a"))
unfolding get list_beq
get-invalidate_table_example =
    get-invalidate_table (text "p.d.t") (text "a") full (refl, (refl, tt))

runs-through : advance_all (some pending) (start ∷ complete ∷ []) ≡ some finished
unfolding advance_all advance_job
runs-through = refl

advance_all-length_example : rank pending + 2 ≤ rank finished
advance_all-length_example =
    advance_all-length pending finished (start ∷ complete ∷ []) runs-through
