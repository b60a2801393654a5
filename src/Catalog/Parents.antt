-- ===== src/Catalog/Parents.antt =====
-- Every table, routine and model of catalog/memory_repository.py has its dataset.
use bqemulator.Prelude.{
  ◌≡◌, sym, true, arith, Text, text_eq, pair_eq, triple_eq, quadruple_eq, ==_iff, ==_refl,
}
use bqemulator.Dict.{Dict, has, put, remove, get-remove, get-put}
use bqemulator.Catalog.{
  DatasetKey, Kind, table, routine, model, children, with_children, dataset_of_child, Catalog,
  Child, Dataset, ChildKey, child_key,
}
use bqemulator.Catalog.Cascade.{IsCascaded}

module _ {B : Type 0} where
  -- Each key is that of something in one of the datasets.
  unfoldable pub IsUnder : Dict ChildKey (Child B) → Dict DatasetKey (Dataset B) → Type 0
  IsUnder d datasets =
      (key : ChildKey) → has d key ≡ true → has datasets (dataset_of_child key) ≡ true

  -- Every table, routine and model has its dataset.
  unfoldable pub HasParents : Catalog B → Type 0
  HasParents c = (k : Kind) → IsUnder (children k c) c.datasets

  pub put_dataset-IsUnder :
      (d : Dict ChildKey (Child B)) (datasets : Dict DatasetKey (Dataset B)) (k : DatasetKey)
      (s : Dataset B)
      → IsUnder d datasets
      → IsUnder d (put datasets k s)
  unfolding IsUnder
  put_dataset-IsUnder d datasets k s h key t =
      ground (arith, h key, get-put datasets k (dataset_of_child key) s)

  pub put-IsUnder :
      (d : Dict ChildKey (Child B)) (datasets : Dict DatasetKey (Dataset B)) (x : Child B)
      → has datasets (x.project_id, x.dataset_id) ≡ true
      → IsUnder d datasets
      → IsUnder (put d (child_key x) x) datasets
  unfolding IsUnder
  put-IsUnder d datasets x there h key t =
      ground (arith, get-put d (child_key x) key x, ==_iff (child_key x) key, h key)

  pub put_again-IsUnder :
      (d : Dict ChildKey (Child B)) (datasets : Dict DatasetKey (Dataset B)) (x : Child B)
      → has d (child_key x) ≡ true
      → IsUnder d datasets
      → IsUnder (put d (child_key x) x) datasets
  unfolding IsUnder
  put_again-IsUnder d datasets x there h = put-IsUnder d datasets x (h (child_key x) there) h

  pub remove-IsUnder :
      (d : Dict ChildKey (Child B)) (datasets : Dict DatasetKey (Dataset B)) (k : ChildKey)
      → IsUnder d datasets
      → IsUnder (remove d k) datasets
  unfolding IsUnder
  remove-IsUnder d datasets k h key t = ground (arith, get-remove d k key, h key)

  pub with_children-HasParents :
      (k : Kind) (d : Dict ChildKey (Child B)) (c : Catalog B)
      → IsUnder d c.datasets
      → HasParents c
      → HasParents (with_children k d c)
  unfolding HasParents
  with_children-HasParents table d c new h table = new
  with_children-HasParents table d c new h routine = h routine
  with_children-HasParents table d c new h model = h model
  with_children-HasParents routine d c new h table = h table
  with_children-HasParents routine d c new h routine = new
  with_children-HasParents routine d c new h model = h model
  with_children-HasParents model d c new h table = h table
  with_children-HasParents model d c new h routine = h routine
  with_children-HasParents model d c new h model = new

  pub cascaded-HasParents :
      (p s : Text) (c new : Catalog B) → IsCascaded p s c new → HasParents c → HasParents new
  unfolding HasParents IsUnder
  cascaded-HasParents p s c new gone h k key t = ground (
    arith,
    gone.of_datasets (dataset_of_child key),
    gone.of_children k key,
    ==_iff (p, s) (dataset_of_child key),
    ==_refl p,
    ==_refl s,
    h k key,
  )

  pub put_dataset-HasParents :
      (c : Catalog B) (s : Dataset B) (k : DatasetKey)
      → HasParents c
      → HasParents (record c { datasets = put c.datasets k s })
  unfolding HasParents
  put_dataset-HasParents c s k h table = put_dataset-IsUnder c.tables c.datasets k s (h table)
  put_dataset-HasParents c s k h routine = put_dataset-IsUnder c.routines c.datasets k s (h routine)
  put_dataset-HasParents c s k h model = put_dataset-IsUnder c.models c.datasets k s (h model)

  -- What HasParents speaks of, equal in both.
  pub kept-HasParents :
      (new c : Catalog B)
      → new.tables ≡ c.tables
      → new.routines ≡ c.routines
      → new.models ≡ c.models
      → new.datasets ≡ c.datasets
      → HasParents c
      → HasParents new
  unfolding HasParents IsUnder
  kept-HasParents new c t r m d h table key found = rw d (h table key (rw (sym t) found))
  kept-HasParents new c t r m d h routine key found = rw d (h routine key (rw (sym r) found))
  kept-HasParents new c t r m d h model key found = rw d (h model key (rw (sym m) found))
