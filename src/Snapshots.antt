-- ===== src/Snapshots.antt =====
-- src/bqemulator/versioning/snapshots.py: the snapshots behind FOR SYSTEM_TIME AS OF. Time is in whole
-- microseconds; the id that _new_snapshot_id makes of the clock and of uuid4 is an argument.
pub mod Lookup
pub mod Changes
pub mod History
pub mod Purge
use bqemulator.Prelude.{
  ℕ, ◌+◌, ◌≡◌, Bool, true, false, ◌&&◌, ◌||◌, not, Option, none, some, List, [], ◌∷◌, ◌++◌, ltb,
  leb, nat_eq, if◌then◌else◌, Text, text, text_eq, triple_eq, ◌==◌, is_some, select,
}
use bqemulator.Dict.{Dict, get, has, put, remove, values}
use bqemulator.Identifiers.{quoted_table_ref}

abbrev pub TableKey : Type 0
TableKey = Text × Text × Text

pub data SnapshotKind : Type 0 where
  auto user : SnapshotKind

-- SnapshotMeta, its first three ids as one key
pub record SnapshotMeta : Type 0 where
  pub snapshot_id : Text
  pub source : TableKey
  pub snapshot_time : ℕ
  pub kind : SnapshotKind
  pub duckdb_schema : Text
  pub duckdb_table : Text
  pub expires_at : Option ℕ

-- DuckDB, as far as the manager calls it. A table is named by its quoted reference; `none` is an exception.
pub record SnapshotEngine (R : Type 0) : Type 1 where
  pub E : Type 0
  pub rows : E → Text → List R
  pub create_table_as : Text → Text → E → Option E
  pub drop_table : Text → E → E
  pub rows-create_table_as :
      (new old j : Text) (e e' : E)
      → create_table_as new old e ≡ some e'
      → rows e' j ≡ (if new == j then rows e old else rows e j)
  pub rows-drop_table :
      (ref j : Text) (e : E) → (ref == j) ≡ false → rows (drop_table ref e) j ≡ rows e j

pub data SnapshotError : Type 0 where
  in_the_future before_retention before_first_state : SnapshotError
  unsafe_identifier engine_failed already_exists : SnapshotError

pub data Answer (A : Type 0) : Type 0 where
  ok : A → Answer A
  raised : SnapshotError → Answer A

-- The catalog's tables and snapshots, the database and the TableDataChanged events published so far.
pub record Versions (T E : Type 0) : Type 0 where
  pub tables : Dict TableKey T
  pub snapshots : Dict Text SnapshotMeta
  pub engine : E
  pub published : List TableKey

-- SNAPSHOTS_SCHEMA
abbrev pub snapshots_schema : Text
snapshots_schema = text "_bqemulator_snapshots"

-- f'"{schema}"."{table}"'
unfoldable pub snapshot_ref : Text → Text → Text
snapshot_ref schema t = text "\"" ++ (schema ++ (text "\".\"" ++ (t ++ text "\"")))

-- The sort by snapshot_time, which is stable.
unfoldable pub insert_by_time : SnapshotMeta → List SnapshotMeta → List SnapshotMeta
insert_by_time s [] = s ∷ []
insert_by_time s (t ∷ ts) =
    let rest = insert_by_time s ts in
    if leb s.snapshot_time t.snapshot_time then s ∷ t ∷ ts else t ∷ rest

unfoldable pub sort_by_time : List SnapshotMeta → List SnapshotMeta
unfolding insert_by_time
sort_by_time [] = []
sort_by_time (s ∷ ss) = insert_by_time s (sort_by_time ss)

abbrev pub is_of : TableKey → SnapshotMeta → Bool
is_of key s = s.source == key

-- MemoryCatalogRepository.list_snapshots_for_table
unfoldable pub list_snapshots_for_table : TableKey → Dict Text SnapshotMeta → List SnapshotMeta
unfolding sort_by_time select
list_snapshots_for_table key d = sort_by_time (select (is_of key) (values d))

-- MemoryCatalogRepository.list_all_snapshots
unfoldable pub list_all_snapshots : Dict Text SnapshotMeta → List SnapshotMeta
unfolding sort_by_time
list_all_snapshots d = sort_by_time (values d)

abbrev pub is_eligible : ℕ → SnapshotMeta → Bool
is_eligible target s = leb s.snapshot_time target

unfoldable pub later_of : SnapshotMeta → SnapshotMeta → SnapshotMeta
later_of s t = if ltb s.snapshot_time t.snapshot_time then t else s

-- max(s, *ss, key=snapshot_time): the first of the largest
unfoldable pub latest_of : SnapshotMeta → List SnapshotMeta → SnapshotMeta
latest_of s [] = s
latest_of s (t ∷ ts) = latest_of (later_of s t) ts

unfoldable pub latest_or_raise : List SnapshotMeta → Answer (Option SnapshotMeta)
unfolding latest_of
latest_or_raise [] = raised before_first_state
latest_or_raise (s ∷ ss) = ok (some (latest_of s ss))

unfoldable pub resolve_among : ℕ → List SnapshotMeta → Answer (Option SnapshotMeta)
unfolding latest_or_raise select
resolve_among target [] = ok none
resolve_among target (s ∷ ss) = latest_or_raise (select (is_eligible target) (s ∷ ss))

-- resolve_time_travel at the time `now`, with the retention in microseconds
unfoldable pub resolve_time_travel :
    ℕ → ℕ → TableKey → ℕ → Dict Text SnapshotMeta → Answer (Option SnapshotMeta)
unfolding resolve_among list_snapshots_for_table
resolve_time_travel retention now key target d =
    if ltb now target
    then raised in_the_future
    else if ltb (target + retention) now
    then raised before_retention
    else resolve_among target (list_snapshots_for_table key d)

-- now + timedelta(days=retention_days) for an AUTO snapshot
abbrev pub expiry : SnapshotKind → ℕ → ℕ → Option ℕ
expiry auto retention now = some (now + retention)
expiry user retention now = none

-- kind == "AUTO" and expires_at is not None and expires_at <= now
unfoldable pub is_purged : ℕ → SnapshotMeta → Bool
is_purged now s = elim s.kind [
  | auto ↦ elim s.expires_at [ none ↦ false | some t ↦ leb t now ]
  | user ↦ false
]

-- '"' in text
unfoldable pub has_quote : Text → Bool
has_quote [] = false
has_quote (c ∷ s) = nat_eq c b'"' || has_quote s

abbrev pub meta_of : Text → TableKey → ℕ → SnapshotKind → ℕ → SnapshotMeta
meta_of id key now kind retention = record {
  snapshot_id = id;
  source = key;
  snapshot_time = now;
  kind = kind;
  duckdb_schema = snapshots_schema;
  duckdb_table = id;
  expires_at = expiry kind retention now;
}

abbrev pub goes_with_table : Bool → SnapshotMeta → Bool
goes_with_table true s = true
goes_with_table false s = elim s.kind [ auto ↦ true | user ↦ false ]

module _ {T R : Type 0} (D : SnapshotEngine R) where
  open D use {E, rows, create_table_as, drop_table}

  -- catalog.create_snapshot behind CREATE TABLE AS
  unfoldable pub captured :
      SnapshotMeta → Option E → Versions T E → Versions T E × Answer (Option SnapshotMeta)
  captured s none v = (v, raised engine_failed)
  captured s (some e) v =
      if has v.snapshots s.snapshot_id
      then (record v { engine = e }, raised already_exists)
      else (record v { engine = e; snapshots = put v.snapshots s.snapshot_id s }, ok (some s))

  unfoldable pub captured_from :
      SnapshotMeta → Option Text → Versions T E → Versions T E × Answer (Option SnapshotMeta)
  unfolding captured
  captured_from s none v = (v, raised unsafe_identifier)
  captured_from s (some ref) v =
      captured s (create_table_as (snapshot_ref s.duckdb_schema s.duckdb_table) ref v.engine) v

  -- capture
  unfoldable pub capture :
      ℕ
      → Text
      → TableKey
      → SnapshotKind
      → ℕ
      → Versions T E
      → Versions T E × Answer (Option SnapshotMeta)
  unfolding captured_from
  capture retention id key kind now v =
      if has v.tables key
      then captured_from (meta_of id key now kind retention)
          (quoted_table_ref (key.0) (key.1) (key.2)) v
      else (v, ok none)

  abbrev pub published_after :
      TableKey
      → Versions T E × Answer (Option SnapshotMeta)
      → Versions T E × Answer (Option SnapshotMeta)
  published_after key (v, raised e) = (v, raised e)
  published_after key (v, ok s) = (record v { published = key ∷ v.published }, ok s)

  -- record_change
  unfoldable pub record_change :
      ℕ → Text → TableKey → ℕ → Versions T E → Versions T E × Answer (Option SnapshotMeta)
  unfolding capture
  record_change retention id key now v = published_after key (capture retention id key auto now v)

  -- drop_snapshot
  unfoldable pub drop_snapshot : SnapshotMeta → Versions T E → Versions T E × Answer (Unit {0})
  unfolding has_quote
  drop_snapshot s v =
      if has_quote s.duckdb_schema || has_quote s.duckdb_table
      then (v, raised unsafe_identifier)
      else (
        record v {
          engine = drop_table (snapshot_ref s.duckdb_schema s.duckdb_table) v.engine;
          snapshots = remove v.snapshots s.snapshot_id;
        },
        ok tt,
      )

  abbrev pub then_count :
      Versions T E × Answer (Unit {0})
      → (Versions T E → Versions T E × Answer ℕ)
      → Versions T E × Answer ℕ
  then_count (v, raised e) k = (v, raised e)
  then_count (v, ok u) k = k v

  abbrev pub purged_one : Versions T E × Answer ℕ → Versions T E × Answer ℕ
  purged_one (v, raised e) = (v, raised e)
  purged_one (v, ok n) = (v, ok (n + 1))

  -- The loop over the snapshots that are to go, and their number.
  unfoldable pub drop_each :
      (SnapshotMeta → Bool) → List SnapshotMeta → Versions T E → Versions T E × Answer ℕ
  unfolding drop_snapshot
  drop_each test [] v = (v, ok 0)
  drop_each test (s ∷ ss) v =
      let dropped = then_count (drop_snapshot s v) (λ v'. purged_one (drop_each test ss v')) in
      let kept = drop_each test ss v in if test s then dropped else kept

  -- purge_expired
  unfoldable pub purge_expired : ℕ → Versions T E → Versions T E × Answer ℕ
  unfolding drop_each is_purged list_all_snapshots
  purge_expired now v = drop_each (is_purged now) (list_all_snapshots v.snapshots) v

  -- drop_snapshots_for_table
  unfoldable pub drop_snapshots_for_table : TableKey → Bool → Versions T E → Versions T E × Answer ℕ
  unfolding drop_each list_snapshots_for_table
  drop_snapshots_for_table key include_user v =
      drop_each (goes_with_table include_user) (list_snapshots_for_table key v.snapshots) v
