-- ===== src/Snapshots/History.antt =====
-- What a query FOR SYSTEM_TIME AS OF reads, after any history of changes (versioning/snapshots.py).
use bqemulator.Prelude.{
  ℕ, ◌+◌, ◌≤◌, ◌<◌, ◌≡◌, ◌≢◌, Option, none, some, List, text_eq, triple_eq, Member,
}
use bqemulator.Dict.{Dict}
use bqemulator.Snapshots.{
  TableKey, SnapshotMeta, SnapshotEngine, Answer, in_the_future, before_retention,
  before_first_state, ok, raised,
}
use bqemulator.Snapshots.Changes.{Change, snapshot_rows}

module _ {R : Type 0} (D : SnapshotEngine R) where
  open D use {E, rows}

  -- `s` holds the rows that the table had from its last change on that is not after the target.
  abbrev pub SeesLast : List (Change R) → E → TableKey → ℕ → SnapshotMeta → Type 0
  SeesLast h e key target s =
      (c : Change R) × Member c h
      × (c.source ≡ key)
      × (c.time ≤ target)
      × ((b : Change R) → Member b h → b.source ≡ key → b.time ≤ target → b.time ≤ c.time)
      × (snapshot_rows D e s ≡ c.rows_then)

  -- What the answer for a table says of its changes.
  abbrev pub Reads :
      ℕ → ℕ → TableKey → ℕ → List (Change R) → E → Answer (Option SnapshotMeta) → Type 0
  Reads retention now key target h e (raised in_the_future) = now < target
  Reads retention now key target h e (raised before_retention) = target + retention < now
  Reads retention now key target h e (raised before_first_state) =
      ((c : Change R) × Member c h × (c.source ≡ key))
      × ((c : Change R) → Member c h → c.source ≡ key → target < c.time)
  Reads retention now key target h e (raised other) = ⊥
  Reads retention now key target h e (ok none) = (c : Change R) → Member c h → c.source ≢ key
  Reads retention now key target h e (ok (some s)) = SeesLast h e key target s
