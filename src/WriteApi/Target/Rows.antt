-- ===== src/WriteApi/Target/Rows.antt =====
-- Which rows an insertion and a batch commit put into which table.
use bqemulator.Prelude.{
  ◌≡◌, refl, sym, ap, ◌∙◌, Bool, true, false, Option, none, some, List, [], ◌∷◌, ◌++◌, append-nil,
  arith, ltb, length, concat, if◌then◌else◌, Text, text_eq, triple_eq, ◌==◌, ==_iff, Bool-cases,
  inl, inr,
}
use bqemulator.Dict.{Dict, get}
use bqemulator.Identifiers.{quoted_table_ref}
use bqemulator.Streaming.Stream.{StreamType, WriteStream, Table, finalized, batch_committed}
use bqemulator.Streaming.Strategies.{commit}
use bqemulator.Streaming.Strategies.Delivery.{rows_of, rows_of-concat_buffer}
use bqemulator.WriteApi.{Server, TargetStore, TableKey}
use bqemulator.WriteApi.Handlers.{key_of}
use bqemulator.WriteApi.Target.{
  flush_if_rows, has_rows, insert_into, inserted, record_changed, count_rows,
}

-- The rows of `t` that come to stand in the table `j`, if the stream writes them.
abbrev pub lands_in : Option Text → Text → {R : Type 0} → Table R → Table R
lands_in none j t = []
lands_in (some ref) j t = if ref == j then t else []

module _ {R : Type 0} where
  abbrev pub lands : WriteStream R → Text → Table R → Table R
  lands s j t = lands_in (quoted_table_ref s.project_id s.dataset_id s.table_id) j t

module _ {R : Type 0} (T : TargetStore R) where
  open T use {E, rows, insert, record_change, rows-insert, rows-record_change}

  record_changed-rows :
      (o : Option E) (k : TableKey) (e : E) (sv : Server R E) (j : Text)
      → record_change k e ≡ o
      → (record_changed T o sv).0 ≡ true
      → rows (record_changed T o sv).1.store j ≡ rows e j
  unfolding record_changed
  record_changed-rows none k e sv j q h = cc
  record_changed-rows (some e') k e sv j q h = rows-record_change k j e e' q

  inserted-rows :
      (o : Option E) (ref : Text) (k : TableKey) (t : Table R) (sv : Server R E) (j : Text)
      → insert ref t sv.store ≡ o
      → (inserted T o k (length t) sv).0 ≡ true
      → rows (inserted T o k (length t) sv).1.store j
        ≡ rows sv.store j ++ (if ref == j then t else [])
  inserted-rows none ref k t sv j q h = unfold inserted in cc
  inserted-rows (some e) ref k t sv j q h =
      let sv' = count_rows T (get sv.tables k) k (length t) (record sv { store = e }) in
      unfold inserted in
      (record_changed-rows (record_change k e) k e sv' j refl h
        ∙ rows-insert ref j t sv.store e q
        ∙ lands_cases ref j)
    where
      lands_cases :
          (a b : Text)
          → (if a == b then rows sv.store a ++ t else rows sv.store b)
            ≡ rows sv.store b ++ (if a == b then t else [])
      lands_cases a b = elim (Bool-cases (a == b)) [
        | inl same ↦ rw same (ap (λ x. rows sv.store x ++ t) ((==_iff a b).0 same))
        | inr other ↦ rw other (sym (append-nil (rows sv.store b)))
      ]

  insert_into-rows :
      (o : Option Text) (k : TableKey) (t : Table R) (sv : Server R E) (j : Text)
      → (insert_into T o k t sv).0 ≡ true
      → rows (insert_into T o k t sv).1.store j ≡ rows sv.store j ++ lands_in o j t
  insert_into-rows none k t sv j h = unfold insert_into in cc
  insert_into-rows (some ref) k t sv j h =
      unfold insert_into in inserted-rows (insert ref t sv.store) ref k t sv j refl h

  lands_in_nil :
      (o : Option Text) (j : Text) (t : Table R) → ltb 0 (length t) ≡ false → lands_in o j t ≡ []
  lands_in_nil none j t h = refl
  lands_in_nil (some ref) j [] h = ground arith
  lands_in_nil (some ref) j (x ∷ t) h = ground arith

  flush_few :
      (s : WriteStream R) (t : Option (Table R)) (sv : Server R E)
      → has_rows t ≡ false
      → flush_if_rows T s t sv ≡ (true, sv)
  unfolding flush_if_rows
  flush_few s t sv h = rw h

  flush_many :
      (s : WriteStream R) (t : Option (Table R)) (sv : Server R E)
      → has_rows t ≡ true
      → flush_if_rows T s t sv
        ≡ insert_into T
            (quoted_table_ref s.project_id s.dataset_id s.table_id)
            (key_of s)
            (rows_of t)
            sv
  flush_many s t sv h = unfold flush_if_rows in rw h

  lands_few :
      (s : WriteStream R) (j : Text) (t : Option (Table R))
      → has_rows t ≡ false
      → lands s j (rows_of t) ≡ []
  lands_few s j none h =
      lands_in_nil (quoted_table_ref s.project_id s.dataset_id s.table_id) j [] refl
  lands_few s j (some t) h =
      lands_in_nil (quoted_table_ref s.project_id s.dataset_id s.table_id) j t h

  -- Where no exception is raised, the rows handed over are appended to the stream's table, and no
  -- other table changes.
  pub flush_if_rows-rows :
      (s : WriteStream R) (t : Option (Table R)) (sv : Server R E) (j : Text)
      → (flush_if_rows T s t sv).0 ≡ true
      → rows (flush_if_rows T s t sv).1.store j ≡ rows sv.store j ++ lands s j (rows_of t)
  flush_if_rows-rows s t sv j h = elim (Bool-cases (has_rows t)) [
    | inl much ↦
        let e = flush_many s t sv much in
        ap (λ (r : Bool × Server R E). rows r.1.store j) e
        ∙ insert_into-rows (quoted_table_ref s.project_id s.dataset_id s.table_id) (key_of s)
            (rows_of t) sv j (sym (ap (λ (r : Bool × Server R E). r.0) e) ∙ h)
    | inr few ↦
        ap (λ (r : Bool × Server R E). rows r.1.store j) (flush_few s t sv few)
        ∙ sym (append-nil (rows sv.store j))
        ∙ ap (λ x. rows sv.store j ++ x) (sym (lands_few s j t few))
  ]

module _ {R : Type 0} where
  -- A PENDING stream that is finalized: what pass 1 lets through.
  abbrev pub IsReady : Option (WriteStream R) → Type 0
  IsReady none = ⊥
  IsReady (some s) = (s.stream_type ≡ StreamType.pending) × (s.state ≡ finalized)

  -- What the batch commit is to put into table `j` for one stream: its whole buffer.
  abbrev pub batch_rows_of : Text → Option (WriteStream R) → List R
  batch_rows_of j none = []
  batch_rows_of j (some s) = lands s j (concat s.buffer)

  unfoldable pub batch_rows : Text → Dict Text (WriteStream R) → List Text → List R
  batch_rows j d [] = []
  batch_rows j d (n ∷ ns) = batch_rows_of j (get d n) ++ batch_rows j d ns

  pub commit_ready :
      (s : WriteStream R)
      → IsReady (some s)
      → ((commit s).0 ≡ record s { buffer = []; state = batch_committed })
        × (rows_of (commit s).1.committed_rows ≡ concat s.buffer)
  unfolding commit
  commit_ready s h = ground (arith, rows_of-concat_buffer s.buffer)
