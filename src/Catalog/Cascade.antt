-- ===== src/Catalog/Cascade.antt =====
-- What delete_dataset of catalog/memory_repository.py removes.
use bqemulator.Prelude.{
  ◌≡◌, ◌⊎◌, ◌↔◌, refl, Bool, true, false, ◌||◌, ◌&&◌, none, some, List, [], ◌∷◌, arith,
  if◌then◌else◌, Text, text_eq, pair_eq, triple_eq, quadruple_eq, Eq, ◌==◌, ==_iff, inl, inr,
}
use mathlib.Core.Path.{subst}
use bqemulator.Dict.{Dict, get, has, remove, get-remove}
use bqemulator.Catalog.{
  DatasetKey, PolicyKey, Kind, table, routine, model, children, dataset_of_child, dataset_of_policy,
  Catalog, Snapshot, ChildKey, keys_in_dataset, delete_keys, snapshots_in_dataset, cascade, changed,
  delete_dataset, blocked,
}

is_listed : {K : Type 0} ⦃e : Eq K⦄ → K → List K → Bool
is_listed k [] = false
is_listed k (j ∷ js) = j == k || is_listed k js

module _ {K V : Type 0} ⦃e : Eq K⦄ where
  get-delete_keys :
      (d : Dict K V) (ks : List K) (k : K)
      → get (delete_keys d ks) k ≡ (if is_listed k ks then none else get d k)
  unfolding delete_keys is_listed
  get-delete_keys d [] k = refl
  get-delete_keys d (j ∷ ks) k = ground (arith, get-delete_keys (remove d j) ks k, get-remove d j k)

module _ {K V : Type 0} ⦃e : Eq K⦄ (of : K → DatasetKey) where
  -- A key is listed exactly if it is there and in the dataset.
  listed_iff :
      (d : Dict K V) (p s : Text) (k : K)
      → (is_listed k (keys_in_dataset of d p s) ≡ true)
        ↔ ((((of k).0 == p && (of k).1 == s) ≡ true) × (has d k ≡ true))
  unfolding is_listed keys_in_dataset get
  listed_iff [] p s k = ground arith
  listed_iff ((j, v) ∷ d) p s k = ground (arith, ==_iff j k, listed_iff d p s k)

  pub get-delete_keys_in_dataset :
      (d : Dict K V) (p s : Text) (k : K)
      → get (delete_keys d (keys_in_dataset of d p s)) k
        ≡ (if (of k).0 == p && (of k).1 == s then none else get d k)
  get-delete_keys_in_dataset d p s k =
      ground (arith, get-delete_keys d (keys_in_dataset of d p s) k, listed_iff d p s k)

abbrev pub is_in_dataset : DatasetKey → Text → Text → Bool
is_in_dataset k p s = k.0 == p && k.1 == s

-- No snapshot of the dataset is found among those that stay.
module _ {B : Type 0} where
  snapshot-listed :
      (d : Dict Text (Snapshot B)) (p s i : Text) (x : Snapshot B)
      → get d i ≡ some x
      → is_listed i (snapshots_in_dataset d p s) ≡ false
      → (x.project_id == p && x.dataset_id == s) ≡ false
  unfolding is_listed snapshots_in_dataset get
  snapshot-listed [] p s i x h n = ground arith
  snapshot-listed ((j, y) ∷ d) p s i x h n = ground (arith, ==_iff j i, snapshot-listed d p s i x)

  pub no_snapshot_left :
      (d : Dict Text (Snapshot B)) (p s i : Text) (x : Snapshot B)
      → get (delete_keys d (snapshots_in_dataset d p s)) i ≡ some x
      → (x.project_id == p && x.dataset_id == s) ≡ false
  no_snapshot_left d p s i x h =
      ground (arith, get-delete_keys d (snapshots_in_dataset d p s) i, snapshot-listed d p s i x)

  -- `new` is `old` without the dataset and without all that is in it.
  pub record IsCascaded (p s : Text) (old new : Catalog B) : Type 0 where
    pub of_datasets :
        (k : DatasetKey) → get new.datasets k ≡ (if (p, s) == k then none else get old.datasets k)
    pub of_children :
        (kind : Kind) (k : ChildKey)
        → get (children kind new) k
          ≡ (if is_in_dataset (dataset_of_child k) p s then none else get (children kind old) k)
    pub of_mviews :
        (k : ChildKey)
        → get new.mviews k
          ≡ (if is_in_dataset (dataset_of_child k) p s then none else get old.mviews k)
    pub of_row_access :
        (k : PolicyKey)
        → get new.row_access k
          ≡ (if is_in_dataset (dataset_of_policy k) p s then none else get old.row_access k)
    pub of_snapshots :
        (i : Text) (x : Snapshot B)
        → get new.snapshots i ≡ some x
        → is_in_dataset (x.project_id, x.dataset_id) p s ≡ false

  children-cascade :
      (p s : Text) (c : Catalog B) (kind : Kind) (k : ChildKey)
      → get (children kind (cascade p s c)) k
        ≡ (if is_in_dataset (dataset_of_child k) p s then none else get (children kind c) k)
  unfolding cascade
  children-cascade p s c table k = get-delete_keys_in_dataset dataset_of_child c.tables p s k
  children-cascade p s c routine k = get-delete_keys_in_dataset dataset_of_child c.routines p s k
  children-cascade p s c model k = get-delete_keys_in_dataset dataset_of_child c.models p s k

  cascade-IsCascaded : (p s : Text) (c : Catalog B) → IsCascaded p s c (cascade p s c)
  unfolding cascade
  cascade-IsCascaded p s c = record {
    of_datasets = λ k. get-remove c.datasets (p, s) k;
    of_children = children-cascade p s c;
    of_mviews = λ k. get-delete_keys_in_dataset dataset_of_child c.mviews p s k;
    of_row_access = λ k. get-delete_keys_in_dataset dataset_of_policy c.row_access p s k;
    of_snapshots = λ i x. no_snapshot_left c.snapshots p s i x;
  }

  delete_dataset-cases :
      (p s : Text) (not_found_ok delete_contents : Bool) (c new : Catalog B)
      → delete_dataset p s not_found_ok delete_contents c ≡ changed new
      → ((has c.datasets (p, s) ≡ false) × (not_found_ok ≡ true) × (new ≡ c))
        ⊎ ((has c.datasets (p, s) ≡ true)
            × (cascade p s c ≡ new)
            × ((delete_contents ≡ true) ⊎ (blocked p s c ≡ false)))
  unfolding delete_dataset
  delete_dataset-cases p s ok contents c new h = ground arith

  -- A call of delete_dataset that raises nothing finds no such dataset, with not_found_ok, and changes
  -- nothing; or it removes the dataset with its tables, routines, models, materialized views, policies and
  -- snapshots, and no key of another dataset among the former, and then without delete_contents
  -- no table, routine or model was in it.
  pub delete_dataset-contents :
      (p s : Text) (not_found_ok delete_contents : Bool) (c new : Catalog B)
      → delete_dataset p s not_found_ok delete_contents c ≡ changed new
      → ((has c.datasets (p, s) ≡ false) × (not_found_ok ≡ true) × (new ≡ c))
        ⊎ ((has c.datasets (p, s) ≡ true)
            × IsCascaded p s c new
            × ((delete_contents ≡ true) ⊎ (blocked p s c ≡ false)))
  delete_dataset-contents p s ok contents c new h =
      elim (delete_dataset-cases p s ok contents c new h) [
        | inl absent ↦ inl absent
        | inr (found, same_catalog, why) ↦
            inr
              (found, subst (λ d. IsCascaded p s c d) same_catalog (cascade-IsCascaded p s c), why)
      ]
