-- ===== src/Examples/Store.antt =====
-- A concrete target database: the rows of each table, and a switch that makes insertions raise.
use bqemulator.Prelude.{
  ℕ, ◌≡◌, Bool, false, Option, none, some, List, [], ◌++◌, arith, if◌then◌else◌, Text, text_eq,
  ◌==◌,
}
use bqemulator.Dict.{Dict, get, put, get-put}
use bqemulator.WriteApi.{TargetStore, TableKey}

abbrev pub Db : Type 0
Db = Bool × Dict Text (List ℕ)

abbrev pub or_empty : Option (List ℕ) → List ℕ
or_empty none = []
or_empty (some t) = t

abbrev pub rows_in : Db → Text → List ℕ
rows_in e j = or_empty (get e.1 j)

abbrev pub insert_in : Text → List ℕ → Db → Option Db
insert_in ref t e = if e.0 then none else some (false, put e.1 ref (rows_in e ref ++ t))

pub insert_in-rows :
    (ref j : Text) (t : List ℕ) (e e' : Db)
    → insert_in ref t e ≡ some e'
    → rows_in e' j ≡ (if ref == j then rows_in e ref ++ t else rows_in e j)
insert_in-rows ref j t e e' h = ground (arith, get-put e.1 ref j (rows_in e ref ++ t))

pub same-rows :
    (k : TableKey) (j : Text) (e e' : Db) → some e ≡ some e' → rows_in e' j ≡ rows_in e j
same-rows k j e e' h = ground arith

abbrev pub memory : TargetStore ℕ
memory = record {
  E = Db;
  rows = rows_in;
  insert = insert_in;
  record_change = λ k e. some e;
  rows-insert = insert_in-rows;
  rows-record_change = same-rows;
}
