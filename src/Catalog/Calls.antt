-- ===== src/Catalog/Calls.antt =====
-- The calls of catalog/memory_repository.py that change the catalog, in any order.
use bqemulator.Prelude.{
  ◌≡◌, inl, inr, refl, sym, Bool, true, false, List, [], ◌∷◌, arith, Text, text_eq, pair_eq,
  triple_eq, quadruple_eq, Bool-cases,
}
use mathlib.Core.Path.{subst}
use bqemulator.Dict.{has}
use bqemulator.Catalog.{
  PolicyKey, Kind, children, Catalog, Child, Dataset, Snapshot, ChildKey, child_key, Changed,
  changed, refused, delete_dataset, create_dataset, update_dataset, create_child, update_child,
  delete_child, create_snapshot, delete_snapshot, upsert_materialized_view,
  delete_materialized_view, create_row_access_policy, update_row_access_policy,
  delete_row_access_policy,
}
use bqemulator.Catalog.Parents.{
  HasParents, put-IsUnder, put_again-IsUnder, remove-IsUnder, with_children-HasParents,
  cascaded-HasParents, put_dataset-HasParents, kept-HasParents,
}
use bqemulator.Catalog.Cascade.{delete_dataset-contents}

-- The calls that change the catalog.
pub data Call (B : Type 0) : Type 0 where
  new_dataset : Dataset B → Call B
  changed_dataset : Dataset B → Call B
  dropped_dataset : Text → Text → Bool → Bool → Call B
  new_child : Kind → Child B → Call B
  changed_child : Kind → Child B → Call B
  dropped_child : Kind → ChildKey → Bool → Call B
  new_snapshot : Snapshot B → Call B
  dropped_snapshot : Text → Bool → Call B
  new_view : Child B → Call B
  dropped_view : ChildKey → Bool → Call B
  new_policy : PolicyKey → B → Call B
  changed_policy : PolicyKey → B → Call B
  dropped_policy : PolicyKey → Bool → Call B

module _ {B : Type 0} where
  unfoldable pub call : Call B → Catalog B → Changed B
  call (new_dataset s) = create_dataset s
  call (changed_dataset s) = update_dataset s
  call (dropped_dataset p s ok contents) = delete_dataset p s ok contents
  call (new_child k x) = create_child k x
  call (changed_child k x) = update_child k x
  call (dropped_child k key ok) = delete_child k key ok
  call (new_snapshot s) = create_snapshot s
  call (dropped_snapshot i ok) = delete_snapshot i ok
  call (new_view x) = upsert_materialized_view x
  call (dropped_view k ok) = delete_materialized_view k ok
  call (new_policy k b) = create_row_access_policy k b
  call (changed_policy k b) = update_row_access_policy k b
  call (dropped_policy k ok) = delete_row_access_policy k ok

  abbrev pub after : Changed B → Catalog B → Catalog B
  after (changed new) c = new
  after (refused e) c = c

  -- The catalog after calls, of which some are refused.
  unfoldable pub call_all : List (Call B) → Catalog B → Catalog B
  call_all [] c = c
  call_all (x ∷ calls) c = call_all calls (after (call x c) c)

  create_child-HasParents :
      (k : Kind) (x : Child B) (c : Catalog B)
      → HasParents c
      → HasParents (after (create_child k x c) c)
  unfolding create_child HasParents
  create_child-HasParents k x c h = elim (Bool-cases (has (children k c) (child_key x))) [
    | inl e ↦ rw e h
    | inr e ↦ elim (Bool-cases (has c.datasets (x.project_id, x.dataset_id))) [
      | inl there ↦
          rw (e, there)
            (with_children-HasParents k _ c (put-IsUnder (children k c) c.datasets x there (h k)) h)
      | inr gone ↦ rw (e, gone) h
    ]
  ]

  update_child-HasParents :
      (k : Kind) (x : Child B) (c : Catalog B)
      → HasParents c
      → HasParents (after (update_child k x c) c)
  unfolding update_child HasParents
  update_child-HasParents k x c h = elim (Bool-cases (has (children k c) (child_key x))) [
    | inl e ↦
        rw e
          (with_children-HasParents k _ c (put_again-IsUnder (children k c) c.datasets x e (h k)) h)
    | inr e ↦ rw e h
  ]

  delete_child-HasParents :
      (k : Kind) (key : ChildKey) (ok : Bool) (c : Catalog B)
      → HasParents c
      → HasParents (after (delete_child k key ok c) c)
  unfolding delete_child HasParents
  delete_child-HasParents k key true c h = elim (Bool-cases (has (children k c) key)) [
    | inl e ↦
        rw e (with_children-HasParents k _ c (remove-IsUnder (children k c) c.datasets key (h k)) h)
    | inr e ↦ rw e h
  ]
  delete_child-HasParents k key false c h = elim (Bool-cases (has (children k c) key)) [
    | inl e ↦
        rw e (with_children-HasParents k _ c (remove-IsUnder (children k c) c.datasets key (h k)) h)
    | inr e ↦ rw e h
  ]

  delete_dataset-HasParents :
      (p s : Text) (ok contents : Bool) (c : Catalog B)
      → HasParents c
      → HasParents (after (delete_dataset p s ok contents c) c)
  delete_dataset-HasParents p s ok contents c h =
      elim (delete_dataset p s ok contents c)
          as (λ r. r ≡ delete_dataset p s ok contents c → HasParents (after r c)) [
            | changed new ↦ λ e. elim (delete_dataset-contents p s ok contents c new (sym e)) [
              | inl (gone, allowed, same_catalog) ↦ subst (λ d. HasParents d) (sym same_catalog) h
              | inr (found, gone, why) ↦ cascaded-HasParents p s c new gone h
            ]
            | refused e ↦ λ _. h
          ]
        refl

  create_dataset-HasParents :
      (s : Dataset B) (c : Catalog B) → HasParents c → HasParents (after (create_dataset s c) c)
  unfolding create_dataset
  create_dataset-HasParents s c h =
      elim (Bool-cases (has c.datasets (s.project_id, s.dataset_id))) [
        | inl e ↦ rw e h
        | inr e ↦ rw e (put_dataset-HasParents c s (s.project_id, s.dataset_id) h)
      ]

  update_dataset-HasParents :
      (s : Dataset B) (c : Catalog B) → HasParents c → HasParents (after (update_dataset s c) c)
  unfolding update_dataset
  update_dataset-HasParents s c h =
      elim (Bool-cases (has c.datasets (s.project_id, s.dataset_id))) [
        | inl e ↦ rw e (put_dataset-HasParents c s (s.project_id, s.dataset_id) h)
        | inr e ↦ rw e h
      ]

  call-HasParents : (x : Call B) (c : Catalog B) → HasParents c → HasParents (after (call x c) c)
  unfolding call create_snapshot delete_snapshot upsert_materialized_view delete_materialized_view
      create_row_access_policy update_row_access_policy delete_row_access_policy
  call-HasParents (new_dataset s) c = create_dataset-HasParents s c
  call-HasParents (changed_dataset s) c = update_dataset-HasParents s c
  call-HasParents (dropped_dataset p s ok contents) c = delete_dataset-HasParents p s ok contents c
  call-HasParents (new_child k x) c = create_child-HasParents k x c
  call-HasParents (changed_child k x) c = update_child-HasParents k x c
  call-HasParents (dropped_child k key ok) c = delete_child-HasParents k key ok c
  call-HasParents (new_view x) c = kept-HasParents _ c refl refl refl refl
  call-HasParents x c =
      kept-HasParents (after (call x c) c) c (ground arith) (ground arith) (ground arith)
        (ground arith)

  -- However calls are made, refused ones included, from the empty catalog on or any other in which every
  -- table, routine and model has its dataset, each has it after them.
  pub call_all-HasParents :
      (calls : List (Call B)) (c : Catalog B) → HasParents c → HasParents (call_all calls c)
  unfolding call_all
  call_all-HasParents [] c h = h
  call_all-HasParents (x ∷ calls) c h =
      call_all-HasParents calls (after (call x c) c) (call-HasParents x c h)
