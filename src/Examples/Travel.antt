-- ===== src/Examples/Travel.antt =====
-- Two changes of a table, queries as of times around them, and a purge.
use bqemulator.Prelude.{
  ℕ, ◌≡◌, refl, some, none, List, [], ◌∷◌, Text, text, text_eq, triple_eq, pair_eq, if◌then◌else◌,
  arith, ◌==◌, Option,
}
use bqemulator.Dict.{Dict, get, put, get-put}
use bqemulator.Snapshots.{TableKey, SnapshotEngine, Versions, record_change}
use bqemulator.Snapshots.Changes.{History}
use bqemulator.Snapshots.Purge.{with_both}

abbrev or_empty : Option (List ℕ) → List ℕ
or_empty none = []
or_empty (some rows) = rows

abbrev contents : Dict Text (List ℕ) → Text → List ℕ
contents e ref = or_empty (get e ref)

contents-put :
    (new old j : Text) (e e' : Dict Text (List ℕ))
    → some (put e new (contents e old)) ≡ some e'
    → contents e' j ≡ (if new == j then contents e old else contents e j)
contents-put new old j e e' h = ground (arith, get-put e new j (contents e old))

-- A database that never drops a table.
abbrev keeping : SnapshotEngine ℕ
keeping = record {
  E = Dict Text (List ℕ);
  rows = contents;
  create_table_as = λ new old e. some (put e new (contents e old));
  drop_table = λ ref e. e;
  rows-create_table_as = contents-put;
  rows-drop_table = λ ref j e other. refl;
}

abbrev orders : TableKey
orders = (text "p", text "d", text "t")

abbrev orders_ref : Text
orders_ref = text "\"p__d\".\"t\""

abbrev empty : Versions (Unit {0}) (Dict Text (List ℕ))
empty = record { tables = (orders, tt) ∷ []; snapshots = []; engine = []; published = [] }

abbrev engine_then : Dict Text (List ℕ)
engine_then = (orders_ref, 7 ∷ []) ∷ []

abbrev changed_once : Versions (Unit {0}) (Dict Text (List ℕ))
changed_once =
    (record_change keeping 100 (text "s_1") orders 10 (record empty { engine = engine_then })).0

abbrev twice_changed : Versions (Unit {0}) (Dict Text (List ℕ))
twice_changed =
    with_both orders (text "a") (text "b") 10 70 60 150 100 keeping ((orders, tt) ∷ []) [] []
