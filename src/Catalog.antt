-- ===== src/Catalog.antt =====
-- src/bqemulator/catalog/memory_repository.py: the catalog as dicts, without jobs and without a storage
-- engine behind it. Of a resource the ids are written out; `B` is the type of the rest.
pub mod Cascade
pub mod Parents
pub mod Calls
use bqemulator.Prelude.{
  Bool, true, false, ◌||◌, ◌&&◌, not, Option, none, some, List, [], ◌∷◌, if◌then◌else◌, Text,
  text_eq, pair_eq, triple_eq, quadruple_eq, Eq, ◌==◌, is_some,
}
use bqemulator.Dict.{Dict, get, has, put, remove, values}

abbrev pub DatasetKey : Type 0
DatasetKey = Text × Text

abbrev pub ChildKey : Type 0
ChildKey = Text × Text × Text

abbrev pub PolicyKey : Type 0
PolicyKey = Text × Text × Text × Text

-- DatasetMeta
pub record Dataset (B : Type 0) : Type 0 where
  pub project_id : Text
  pub dataset_id : Text
  pub body : B

-- TableMeta, RoutineMeta, ModelMeta, MaterializedViewMeta: what a dataset holds.
pub record Child (B : Type 0) : Type 0 where
  pub project_id : Text
  pub dataset_id : Text
  pub child_id : Text
  pub body : B

-- SnapshotMeta
pub record Snapshot (B : Type 0) : Type 0 where
  pub snapshot_id : Text
  pub project_id : Text
  pub dataset_id : Text
  pub body : B

-- The attributes of MemoryCatalogRepository.
pub record Catalog (B : Type 0) : Type 0 where
  pub datasets : Dict DatasetKey (Dataset B)
  pub tables : Dict ChildKey (Child B)
  pub routines : Dict ChildKey (Child B)
  pub models : Dict ChildKey (Child B)
  pub snapshots : Dict Text (Snapshot B)
  pub mviews : Dict ChildKey (Child B)
  pub row_access : Dict PolicyKey B

pub data CatalogError : Type 0 where
  already_exists not_found not_empty : CatalogError

-- The catalog after a call, or the error that it raises, which changes nothing.
pub data Changed (B : Type 0) : Type 0 where
  changed : Catalog B → Changed B
  refused : CatalogError → Changed B

-- The resources that block the deletion of their dataset.
pub data Kind : Type 0 where
  table routine model : Kind

-- k[0] and k[1]
abbrev pub dataset_of_child : ChildKey → DatasetKey
dataset_of_child k = (k.0, k.1)

abbrev pub dataset_of_policy : PolicyKey → DatasetKey
dataset_of_policy k = (k.0, k.1)

abbrev pub is_empty : {A : Type 0} → List A → Bool
is_empty [] = true
is_empty (x ∷ xs) = false

module _ {K V : Type 0} where
  -- _keys_in_dataset, with the first two elements of a key
  unfoldable pub keys_in_dataset : (K → DatasetKey) → Dict K V → Text → Text → List K
  keys_in_dataset of [] p d = []
  keys_in_dataset of ((k, v) ∷ mapping) p d =
      let rest = keys_in_dataset of mapping p d in
      if (of k).0 == p && (of k).1 == d then k ∷ rest else rest

module _ {K V : Type 0} ⦃e : Eq K⦄ where
  -- _delete_keys
  unfoldable pub delete_keys : Dict K V → List K → Dict K V
  delete_keys mapping [] = mapping
  delete_keys mapping (k ∷ ks) = delete_keys (remove mapping k) ks

-- __init__
abbrev pub new_catalog : {B : Type 0} → Catalog B
new_catalog = record {
  datasets = [];
  tables = [];
  routines = [];
  models = [];
  snapshots = [];
  mviews = [];
  row_access = [];
}

module _ {B : Type 0} where
  abbrev pub child_key : Child B → ChildKey
  child_key c = (c.project_id, c.dataset_id, c.child_id)

  abbrev pub children : Kind → Catalog B → Dict ChildKey (Child B)
  children table c = c.tables
  children routine c = c.routines
  children model c = c.models

  abbrev pub with_children : Kind → Dict ChildKey (Child B) → Catalog B → Catalog B
  with_children table d c = record c { tables = d }
  with_children routine d c = record c { routines = d }
  with_children model d c = record c { models = d }

  -- create_dataset
  unfoldable pub create_dataset : Dataset B → Catalog B → Changed B
  create_dataset s c =
      if has c.datasets (s.project_id, s.dataset_id)
      then refused already_exists
      else changed (record c { datasets = put c.datasets (s.project_id, s.dataset_id) s })

  -- update_dataset
  unfoldable pub update_dataset : Dataset B → Catalog B → Changed B
  update_dataset s c =
      if has c.datasets (s.project_id, s.dataset_id)
      then changed (record c { datasets = put c.datasets (s.project_id, s.dataset_id) s })
      else refused not_found

  -- create_table, create_routine and create_model
  unfoldable pub create_child : Kind → Child B → Catalog B → Changed B
  create_child k x c =
      if has (children k c) (child_key x)
      then refused already_exists
      else if has c.datasets (x.project_id, x.dataset_id)
      then changed (with_children k (put (children k c) (child_key x) x) c)
      else refused not_found

  -- update_table, update_routine and update_model
  unfoldable pub update_child : Kind → Child B → Catalog B → Changed B
  update_child k x c =
      if has (children k c) (child_key x)
      then changed (with_children k (put (children k c) (child_key x) x) c)
      else refused not_found

  -- delete_table, delete_routine and delete_model
  unfoldable pub delete_child : Kind → ChildKey → Bool → Catalog B → Changed B
  delete_child k key not_found_ok c =
      if has (children k c) key
      then changed (with_children k (remove (children k c) key) c)
      else if not_found_ok
      then changed c
      else refused not_found

  unfoldable pub snapshots_in_dataset : Dict Text (Snapshot B) → Text → Text → List Text
  snapshots_in_dataset [] p d = []
  snapshots_in_dataset ((i, s) ∷ snapshots) p d =
      let rest = snapshots_in_dataset snapshots p d in
      if s.project_id == p && s.dataset_id == d then i ∷ rest else rest

  -- The cascade of delete_dataset, with the dataset itself.
  unfoldable pub cascade : Text → Text → Catalog B → Catalog B
  unfolding keys_in_dataset delete_keys snapshots_in_dataset
  cascade p d c = record {
    datasets = remove c.datasets (p, d);
    tables = delete_keys c.tables (keys_in_dataset dataset_of_child c.tables p d);
    routines = delete_keys c.routines (keys_in_dataset dataset_of_child c.routines p d);
    models = delete_keys c.models (keys_in_dataset dataset_of_child c.models p d);
    snapshots = delete_keys c.snapshots (snapshots_in_dataset c.snapshots p d);
    mviews = delete_keys c.mviews (keys_in_dataset dataset_of_child c.mviews p d);
    row_access = delete_keys c.row_access (keys_in_dataset dataset_of_policy c.row_access p d);
  }

  abbrev pub blocked : Text → Text → Catalog B → Bool
  blocked p d c =
      not (is_empty (keys_in_dataset dataset_of_child c.tables p d))
      || not (is_empty (keys_in_dataset dataset_of_child c.routines p d))
      || not (is_empty (keys_in_dataset dataset_of_child c.models p d))

  -- delete_dataset
  unfoldable pub delete_dataset : Text → Text → Bool → Bool → Catalog B → Changed B
  unfolding cascade
  delete_dataset p d not_found_ok delete_contents c =
      if has c.datasets (p, d)
      then if blocked p d c && not delete_contents
        then refused not_empty
        else changed (cascade p d c)
      else if not_found_ok
      then changed c
      else refused not_found

  -- upsert_materialized_view
  unfoldable pub upsert_materialized_view : Child B → Catalog B → Changed B
  upsert_materialized_view x c = changed (record c { mviews = put c.mviews (child_key x) x })

  -- delete_materialized_view
  unfoldable pub delete_materialized_view : ChildKey → Bool → Catalog B → Changed B
  delete_materialized_view k not_found_ok c =
      if has c.mviews k
      then changed (record c { mviews = remove c.mviews k })
      else if not_found_ok
      then changed c
      else refused not_found

  -- create_snapshot
  unfoldable pub create_snapshot : Snapshot B → Catalog B → Changed B
  create_snapshot s c =
      if has c.snapshots s.snapshot_id
      then refused already_exists
      else changed (record c { snapshots = put c.snapshots s.snapshot_id s })

  -- delete_snapshot
  unfoldable pub delete_snapshot : Text → Bool → Catalog B → Changed B
  delete_snapshot i not_found_ok c =
      if has c.snapshots i
      then changed (record c { snapshots = remove c.snapshots i })
      else if not_found_ok
      then changed c
      else refused not_found

  -- create_row_access_policy and update_row_access_policy
  unfoldable pub create_row_access_policy : PolicyKey → B → Catalog B → Changed B
  create_row_access_policy k b c =
      if has c.row_access k
      then refused already_exists
      else changed (record c { row_access = put c.row_access k b })

  unfoldable pub update_row_access_policy : PolicyKey → B → Catalog B → Changed B
  update_row_access_policy k b c =
      if has c.row_access k
      then changed (record c { row_access = put c.row_access k b })
      else refused not_found

  -- delete_row_access_policy
  unfoldable pub delete_row_access_policy : PolicyKey → Bool → Catalog B → Changed B
  delete_row_access_policy k not_found_ok c =
      if has c.row_access k
      then changed (record c { row_access = remove c.row_access k })
      else if not_found_ok
      then changed c
      else refused not_found
