-- ===== src/Examples/Catalogs.antt =====
-- The catalog in memory.
use bqemulator.Prelude.{
  ◌≡◌, ◌⊎◌, refl, ℕ, true, false, [], ◌∷◌, text, text_eq, pair_eq, triple_eq, quadruple_eq,
  list_beq, pair_beq, triple_beq, arith, List,
}
use bqemulator.Dict.{get, has, put, remove}
use bqemulator.Catalog.{
  Catalog, Child, Dataset, table, routine, model, new_catalog, changed, refused, delete_dataset,
  create_dataset, create_child, cascade, delete_keys, keys_in_dataset, snapshots_in_dataset,
  not_empty, blocked, upsert_materialized_view,
}
use bqemulator.Catalog.Cascade.{IsCascaded, delete_dataset-contents}
use bqemulator.Catalog.Parents.{IsUnder, HasParents}
use bqemulator.Catalog.Calls.{
  Call, call, call_all, new_dataset, dropped_dataset, new_child, new_view, call_all-HasParents,
}

abbrev sales : Dataset ℕ
sales = record { project_id = text "p"; dataset_id = text "s"; body = 0 }

abbrev orders : Child ℕ
orders = record { project_id = text "p"; dataset_id = text "s"; child_id = text "t"; body = 1 }

abbrev kept : Child ℕ
kept = record { project_id = text "p"; dataset_id = text "k"; child_id = text "t"; body = 2 }

abbrev history : List (Call ℕ)
history =
    new_dataset sales
    ∷ new_dataset (record sales { dataset_id = text "k" })
    ∷ new_child table orders
    ∷ new_child table kept
    ∷ new_view orders
    ∷ []

abbrev filled : Catalog ℕ
filled = record {
  datasets =
      ((text "p", text "s"), sales)
      ∷ ((text "p", text "k"), record sales { dataset_id = text "k" })
      ∷ [];
  tables = ((text "p", text "s", text "t"), orders) ∷ ((text "p", text "k", text "t"), kept) ∷ [];
  routines = [];
  models = [];
  snapshots = [];
  mviews = ((text "p", text "s", text "t"), orders) ∷ [];
  row_access = [];
}

abbrev emptied : Catalog ℕ
emptied = record {
  datasets = ((text "p", text "k"), record sales { dataset_id = text "k" }) ∷ [];
  tables = ((text "p", text "k", text "t"), kept) ∷ [];
  routines = [];
  models = [];
  snapshots = [];
  mviews = [];
  row_access = [];
}

history-filled : call_all history new_catalog ≡ filled
unfolding call_all call create_dataset create_child get put list_beq pair_beq triple_beq
    upsert_materialized_view
history-filled = refl

delete_dataset-refused : delete_dataset (text "p") (text "s") true false filled ≡ refused not_empty
unfolding delete_dataset keys_in_dataset list_beq pair_beq triple_beq get
delete_dataset-refused = refl

delete_dataset-emptied : delete_dataset (text "p") (text "s") false true filled ≡ changed emptied
unfolding delete_dataset cascade delete_keys keys_in_dataset snapshots_in_dataset list_beq pair_beq
    triple_beq get remove
delete_dataset-emptied = refl

delete_dataset-contents_example :
    ((has (filled.datasets) (text "p", text "s") ≡ false) × (false ≡ true) × (emptied ≡ filled))
    ⊎ ((has (filled.datasets) (text "p", text "s") ≡ true)
        × IsCascaded (text "p") (text "s") filled emptied
        × ((true ≡ true) ⊎ (blocked (text "p") (text "s") filled ≡ false)))
delete_dataset-contents_example =
    delete_dataset-contents (text "p") (text "s") false true filled emptied delete_dataset-emptied

new_catalog-HasParents : HasParents (new_catalog {B = ℕ})
unfolding HasParents IsUnder get
new_catalog-HasParents table key found = ground (arith, found)
new_catalog-HasParents routine key found = ground (arith, found)
new_catalog-HasParents model key found = ground (arith, found)

call_all-HasParents_example :
    HasParents (call_all (dropped_dataset (text "p") (text "s") false false ∷ history) new_catalog)
call_all-HasParents_example =
    call_all-HasParents (dropped_dataset (text "p") (text "s") false false ∷ history) new_catalog
      new_catalog-HasParents
