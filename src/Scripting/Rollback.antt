-- ===== src/Scripting/Rollback.antt =====
-- Transactions of scripting/interpreter.py: what a rollback puts back.
use bqemulator.Prelude.{
  ◌≡◌, ◌⊎◌, inl, inr, refl, sym, ap, ◌∙◌, true, Option, none, some, List, [], ◌∷◌, arith,
  if◌then◌else◌, Text, text_eq, ◌==◌, ==_iff, is_some, All, Member, Bool-cases, Option-cases,
}
use bqemulator.Dict.{Dict, get, has, put, get-put}
use bqemulator.Scripting.Frames.{Variable}
use bqemulator.Scripting.Database.{Database}
use bqemulator.Scripting.Transactions.{
  Script, classify_txn_statement, restore_txn_snapshots, snapshot_all, copy, write_all_back,
}

module _ {O R : Type 0} (D : Database O R) where
  open D use {E, contents, write_back, dml_targets, run_sql, contents-write_back}

  -- Each copy is the table as it was at the start, and the table is still there.
  abbrev pub Entries : E → E → Dict Text (List R) → Type 0
  Entries start e txn =
      All
        (λ (x : Text × List R). (contents start x.0 ≡ some x.1) × (is_some (contents e x.0) ≡ true))
        txn

  -- The copies cover all that has changed since the start.
  pub record Covers (start e : E) (txn : Dict Text (List R)) : Type 0 where
    pub entries : Entries start e txn
    pub others : (t : Text) → get txn t ≡ none → contents e t ≡ contents start t

  write_all_back-contents :
      (start e : E) (txn : Dict Text (List R)) (t : Text)
      → Entries start e txn
      → contents (write_all_back D txn e) t ≡ (if has txn t then contents start t else contents e t)
  unfolding write_all_back get
  write_all_back-contents start e [] t h = refl
  write_all_back-contents start e ((k, r) ∷ txn) t h = elim (Option-cases (contents e k)) [
    | inl gone ↦ cc
    | inr (old, there) ↦
        let e' = write_back k r e in
        let back = λ (j : Text). contents-write_back k j old r e there in
        write_all_back-contents start e' txn t (still txn h.1 back)
        ∙ rw (back t) (ground (arith, ==_iff k t))
  ]
    where
      still :
          (d : Dict Text (List R))
          → Entries start e d
          → ((j : Text) → contents (write_back k r e) j ≡ (if k == j then some r else contents e j))
          → Entries start (write_back k r e) d
      still [] h b = tt
      still ((j, x) ∷ d) h b = ((h.0.0, rw (b j) (ground arith)), still d h.1 b)

  Entries-put :
      (start e : E) (txn : Dict Text (List R)) (k : Text) (r : List R)
      → Entries start e txn
      → contents start k ≡ some r
      → contents e k ≡ some r
      → Entries start e (put txn k r)
  unfolding put
  Entries-put start e [] k r h a b = ((a, rw b refl), tt)
  Entries-put start e ((j, x) ∷ txn) k r h a b = elim (Bool-cases (j == k)) [
    | inl same ↦
        let e' = (==_iff j k).0 same in
        rw same ((ap (contents start) e' ∙ a, rw (ap (contents e) e' ∙ b) refl), h.1)
    | inr other ↦ rw other (h.0, Entries-put start e txn k r h.1 a b)
  ]

  -- One round of the copying.
  abbrev copied : Text → E → Dict Text (List R) → Dict Text (List R)
  copied k e txn = if has txn k then txn else copy D k (contents e k) txn

  copied-none :
      (k : Text) (e : E) (txn : Dict Text (List R)) (t : Text)
      → get (copied k e txn) t ≡ none
      → (get txn t ≡ none) × (k ≡ t → contents e t ≡ none)
  unfolding copy
  copied-none k e txn t h = elim (Option-cases (get txn k)) [
    | inr (r, old) ↦ let h' : get txn t ≡ none = rw old at h in (h', λ same. cc (ap (get txn) same))
    | inl new ↦ elim (Option-cases (contents e k)) [
      | inl gone ↦ (rw (new, gone) at h, λ same. ap (contents e) (sym same) ∙ gone)
      | inr (r, there) ↦ put-none r (rw (new, there) at h)
    ]
  ]
    where
      put-none :
          (r : List R)
          → get (put txn k r) t ≡ none
          → (get txn t ≡ none) × (k ≡ t → contents e t ≡ none)
      put-none r g = ground (arith, get-put txn k t r, ==_iff k t)

  Covers-copied :
      (k : Text) (start e : E) (txn : Dict Text (List R))
      → Covers start e txn
      → Covers start e (copied k e txn)
  unfolding copy
  Covers-copied k start e txn h = elim (Option-cases (get txn k)) [
    | inr (r, old) ↦ rw old h
    | inl new ↦ elim (Option-cases (contents e k)) [
      | inl gone ↦ rw (new, gone) h
      | inr (r, there) ↦
          rw (new, there)
            (record {
              entries = Entries-put start e txn k r h.entries (sym (h.others k new) ∙ there) there;
              others = λ t n. h.others t (ground (arith, get-put txn k t r, ==_iff k t));
            })
    ]
  ]

  snapshot_all-none :
      (targets : List Text) (e : E) (txn : Dict Text (List R)) (t : Text)
      → get (snapshot_all D targets e txn) t ≡ none
      → (get txn t ≡ none) × (Member t targets → contents e t ≡ none)
  unfolding snapshot_all
  snapshot_all-none [] e txn t h = (h, λ m. absurd m)
  snapshot_all-none (k ∷ targets) e txn t h =
      let (a, b) = snapshot_all-none targets e (copied k e txn) t h in
      let (c, d) = copied-none k e txn t a in
      (c, λ m. elim m [ inl same ↦ d (sym same) | inr later ↦ b later ])

  Covers-snapshot_all :
      (targets : List Text) (start e : E) (txn : Dict Text (List R))
      → Covers start e txn
      → Covers start e (snapshot_all D targets e txn)
  unfolding snapshot_all
  Covers-snapshot_all [] start e txn h = h
  Covers-snapshot_all (k ∷ targets) start e txn h =
      Covers-snapshot_all targets start e (copied k e txn) (Covers-copied k start e txn h)

  -- The statement is DML as the code takes it: it is no transaction control, it writes only the tables
  -- that sqlglot names, and it makes or drops none.
  pub record IsDml (sql : Text) : Type 0 where
    pub plain : classify_txn_statement sql ≡ none
    pub untouched :
        (vars : Dict Text (Variable O)) (e : E) (t : Text)
        → (contents (run_sql sql vars e).1 t ≡ contents e t) ⊎ Member t (dml_targets sql)
    pub kept :
        (vars : Dict Text (Variable O)) (e : E) (t : Text)
        → is_some (contents (run_sql sql vars e).1 t) ≡ is_some (contents e t)

  pub Covers-run_sql :
      (sql : Text) (start : E) (vars : Dict Text (Variable O)) (e : E) (txn : Dict Text (List R))
      → IsDml sql
      → Covers start e txn
      → Covers start (run_sql sql vars e).1 (snapshot_all D (dml_targets sql) e txn)
  Covers-run_sql sql start vars e txn d h =
      let txn' = snapshot_all D (dml_targets sql) e txn in
      let c = Covers-snapshot_all (dml_targets sql) start e txn h in
      record {
        entries = later txn' c.entries;
        others = λ t n. elim (d.untouched vars e t) [
          | inl same ↦ same ∙ c.others t n
          | inr m ↦
              let gone = (snapshot_all-none (dml_targets sql) e txn t n).1 m in
              none_still (contents (run_sql sql vars e).1 t) (d.kept vars e t) gone
              ∙ sym gone
              ∙ c.others t n
        ];
      }
    where
      later : (l : Dict Text (List R)) → Entries start e l → Entries start (run_sql sql vars e).1 l
      later [] i = tt
      later ((k, r) ∷ l) i = ((i.0.0, d.kept vars e k ∙ i.0.1), later l i.1)

      none_still :
          {t : Text} (o : Option (List R))
          → is_some o ≡ is_some (contents e t)
          → contents e t ≡ none
          → o ≡ none
      none_still o k g = ground arith

  -- A transaction is open, and its copies cover what has changed since `start`.
  pub record InTxn (start : E) (s : Script O R E) : Type 0 where
    pub txn : Dict Text (List R)
    pub is_open : s.active_txn ≡ some txn
    pub covers : Covers start s.store txn

  -- A rollback puts every table back to what it was at the start.
  pub restore_txn_snapshots-contents :
      (start : E) (s : Script O R E) (t : Text)
      → InTxn start s
      → contents (restore_txn_snapshots D s).store t ≡ contents start t
  unfolding restore_txn_snapshots
  restore_txn_snapshots-contents start s t h =
      rw h.is_open (
        write_all_back-contents start s.store h.txn t h.covers.entries
        ∙ start_or (get h.txn t) refl)
    where
      start_or :
          (o : Option (List R))
          → get h.txn t ≡ o
          → (if is_some o then contents start t else contents s.store t) ≡ contents start t
      start_or none q = h.covers.others t q
      start_or (some r) q = refl
