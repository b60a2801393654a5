-- ===== src/Snapshots/Purge.antt =====
-- purge_expired of versioning/snapshots.py drops snapshots that queries in the window still need.
use bqemulator.Prelude.{ℕ, List, [], ◌∷◌, Text, text_eq, triple_eq}
use bqemulator.Dict.{Dict}
use bqemulator.Snapshots.{TableKey, SnapshotMeta, SnapshotEngine, Versions, auto, meta_of}

module _ (key : TableKey) (id1 id2 : Text) (t1 t2 target now retention : ℕ) where
  abbrev pub first : SnapshotMeta
  first = meta_of id1 key t1 auto retention

  abbrev pub second : SnapshotMeta
  second = meta_of id2 key t2 auto retention

  module _ {T R : Type 0} (D : SnapshotEngine R) where
    open D use {E}

    abbrev pub with_both : Dict TableKey T → E → List TableKey → Versions T E
    with_both tables engine published = record {
      tables = tables;
      snapshots = (id1, first) ∷ (id2, second) ∷ [];
      engine = engine;
      published = published;
    }
