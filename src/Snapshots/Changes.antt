-- ===== src/Snapshots/Changes.antt =====
-- Histories of changes, and what their snapshots hold (versioning/snapshots.py).
use bqemulator.Prelude.{
  ℕ, ◌≡◌, ◌≢◌, ◌⊎◌, inl, inr, refl, sym, ap, ◌∙◌, false, Option, none, some, List, [], ◌∷◌, ◌++◌,
  if◌then◌else◌, Text, text_eq, triple_eq, ◌==◌, ==_refl, ne_of_different, different_of_ne,
  Bool-cases, Member, All, drop,
}
use mathlib.Core.Path.{subst}
use bqemulator.Dict.{Dict, get, has, put, values, has-cons}
use bqemulator.Identifiers.{quoted_table_ref}
use bqemulator.Snapshots.{
  TableKey, SnapshotMeta, SnapshotEngine, Versions, SnapshotError, ok, raised, auto, meta_of,
  snapshot_ref, snapshots_schema, capture, captured, captured_from, record_change, published_after,
}

-- A change of a table: when it was recorded, and the rows from then on.
pub record Change (R : Type 0) : Type 0 where
  pub source : TableKey
  pub time : ℕ
  pub rows_then : List R

raised-ne-ok : {A : Type 0} {e : SnapshotError} {a : A} → raised e ≢ ok a
raised-ne-ok h = cc

ok-injective : {A : Type 0} {a b : A} → ok a ≡ ok b → a ≡ b
ok-injective h = cc

none-ne-some : {A : Type 0} {a : A} → none ≢ some a
none-ne-some h = cc

append_cancel : (c : ℕ) (s t : Text) → s ++ c ∷ [] ≡ t ++ c ∷ [] → s ≡ t
append_cancel c [] [] h = refl
append_cancel c [] (d ∷ []) h = cc
append_cancel c [] (d ∷ e ∷ t) h = cc
append_cancel c (d ∷ []) [] h = cc
append_cancel c (d ∷ e ∷ s) [] h = cc
append_cancel c (d ∷ s) (e ∷ t) h =
    let tails : s ++ c ∷ [] ≡ t ++ c ∷ [] = cc in
    let heads : d ≡ e = cc in let rest : s ≡ t = append_cancel c s t tails in cc

pub snapshot_ref-injective :
    (i j : Text) → snapshot_ref snapshots_schema i ≡ snapshot_ref snapshots_schema j → i ≡ j
unfolding snapshot_ref
snapshot_ref-injective i j h = append_cancel b'"' i j (ap (λ t. drop 25 t) h)

module _ {R : Type 0} (D : SnapshotEngine R) where
  open D use {E, rows, create_table_as, rows-create_table_as}

  -- The rows of a table, by its quoted reference.
  abbrev pub rows_at : E → Option Text → List R
  rows_at e none = []
  rows_at e (some ref) = rows e ref

  abbrev pub table_rows : E → TableKey → List R
  table_rows e key = rows_at e (quoted_table_ref (key.0) (key.1) (key.2))

  abbrev pub snapshot_rows : E → SnapshotMeta → List R
  snapshot_rows e s = rows e (snapshot_ref s.duckdb_schema s.duckdb_table)

  -- The changes recorded so far, the last first. Between two of them the database may do anything but write to
  -- the tables of the snapshots.
  pub data History {T : Type 0} (retention : ℕ) : Versions T E → List (Change R) → Type 0 where
    start : (v : Versions T E) → v.snapshots ≡ [] → History retention v []
    change :
        (v : Versions T E) (w : Versions T E) (h : List (Change R)) (e : E) (id : Text)
        (key : TableKey) (now : ℕ) (s : SnapshotMeta)
        → History retention v h
        → ((i : Text)
            → rows e (snapshot_ref snapshots_schema i)
              ≡ rows v.engine (snapshot_ref snapshots_schema i))
        → record_change D retention id key now (record v { engine = e }) ≡ (w, ok (some s))
        → History retention w
            (record { source = key; time = now; rows_then = table_rows e key } ∷ h)

  abbrev pub change_of : E → SnapshotMeta → Change R
  change_of e s = record {
    source = s.source;
    time = s.snapshot_time;
    rows_then = snapshot_rows e s;
  }

  -- Each snapshot stands under its id, in the schema of the snapshots, and holds the rows of a change.
  unfoldable pub Held : List (Change R) → E → Dict Text SnapshotMeta → Type 0
  Held h e [] = Unit
  Held h e ((k, s) ∷ d) =
      ((k ≡ s.snapshot_id)
        × (s.duckdb_schema ≡ snapshots_schema)
        × (s.duckdb_table ≡ k)
        × Member (change_of e s) h)
      × Held h e d

  -- Each change is held by a snapshot.
  unfoldable pub Covered : List (Change R) → E → Dict Text SnapshotMeta → Type 0
  Covered h e d = All (λ c. (s : SnapshotMeta) × Member s (values d) × (c ≡ change_of e s)) h

module _ {T R : Type 0} (D : SnapshotEngine R) where
  open D use {E, rows, create_table_as, rows-create_table_as}

  -- What a recorded change has done.
  captured-some :
      (s t : SnapshotMeta) (key : TableKey) (o : Option E) (v w : Versions T E)
      → published_after D key (captured D s o v) ≡ (w, ok (some t))
      → (e : E) × (o ≡ some e)
        × (has v.snapshots s.snapshot_id ≡ false)
        × (w.engine ≡ e)
        × (w.snapshots ≡ put v.snapshots s.snapshot_id s)
  unfolding captured
  captured-some s t key none v w h = absurd (raised-ne-ok (ap (λ r. r.1) h))
  captured-some s t key (some e) v w h = elim (Bool-cases (has v.snapshots s.snapshot_id)) [
    | inl old ↦ absurd (raised-ne-ok (ap (λ r. r.1) (rw old at h)))
    | inr new ↦ (
      e,
      refl,
      new,
      sym (ap (λ r. r.0.engine) (rw new at h)),
      sym (ap (λ r. r.0.snapshots) (rw new at h)),
    )
  ]

  captured_from-some :
      (s t : SnapshotMeta) (key : TableKey) (ref : Option Text) (v w : Versions T E)
      → published_after D key (captured_from D s ref v) ≡ (w, ok (some t))
      → (r : Text) × (ref ≡ some r)
        × (create_table_as (snapshot_ref s.duckdb_schema s.duckdb_table) r v.engine ≡ some w.engine)
        × (has v.snapshots s.snapshot_id ≡ false)
        × (w.snapshots ≡ put v.snapshots s.snapshot_id s)
  unfolding captured_from
  captured_from-some s t key none v w h = absurd (raised-ne-ok (ap (λ r. r.1) h))
  captured_from-some s t key (some r) v w h =
      let (e, made, fresh, now_e, now_d) =
        captured-some s t key
          (create_table_as (snapshot_ref s.duckdb_schema s.duckdb_table) r v.engine) v w h in
      (r, refl, made ∙ ap some (sym now_e), fresh, now_d)

  record_change-some :
      (retention : ℕ) (id : Text) (key : TableKey) (now : ℕ) (t : SnapshotMeta) (v w : Versions T E)
      → record_change D retention id key now v ≡ (w, ok (some t))
      → ((j : Text)
          → rows w.engine j ≡ (
              if snapshot_ref snapshots_schema id == j
              then table_rows D v.engine key
              else rows v.engine j))
        × (has v.snapshots id ≡ false)
        × (w.snapshots ≡ put v.snapshots id (meta_of id key now auto retention))
  unfolding record_change capture
  record_change-some retention id key now t v w h = elim (Bool-cases (has v.tables key)) [
    | inl there ↦
        let (r, safe, made, fresh, now_d) =
          captured_from-some (meta_of id key now auto retention) t key
            (quoted_table_ref (key.0) (key.1) (key.2)) v w (rw there at h) in
        (
          λ j.
              rw safe (
                rows-create_table_as (snapshot_ref snapshots_schema id) r j v.engine w.engine made),
          fresh,
          now_d,
        )
    | inr gone ↦ absurd (none-ne-some (ok-injective (ap (λ r. r.1) (rw gone at h))))
  ]

Member-values-put :
    (a : SnapshotMeta) (d : Dict Text SnapshotMeta) (k : Text) (x : SnapshotMeta)
    → has d k ≡ false
    → (a ≡ x) ⊎ Member a (values d)
    → Member a (values (put d k x))
unfolding get values put
Member-values-put a [] k x fresh m = m
Member-values-put a ((j, y) ∷ d) k x fresh (inl p) =
    let (other, later) = has-cons j k y d fresh in
    rw other (inr (Member-values-put a d k x later (inl p)))
Member-values-put a ((j, y) ∷ d) k x fresh (inr (inl p)) =
    let (other, later) = has-cons j k y d fresh in rw other (inl p)
Member-values-put a ((j, y) ∷ d) k x fresh (inr (inr n)) =
    let (other, later) = has-cons j k y d fresh in
    rw other (inr (Member-values-put a d k x later (inr n)))

module _ {R : Type 0} (D : SnapshotEngine R) where
  open D use {E, rows}

  -- The rows of the snapshots under other ids than the new one are as they were.
  SameBut : Text → E → E → Type 0
  SameBut id e0 e =
      (k : Text)
      → k ≢ id
      → rows e (snapshot_ref snapshots_schema k) ≡ rows e0 (snapshot_ref snapshots_schema k)

  change_of-same :
      (id k : Text) (e0 e : E) (s : SnapshotMeta)
      → SameBut id e0 e
      → k ≢ id
      → s.duckdb_schema ≡ snapshots_schema
      → s.duckdb_table ≡ k
      → change_of D e s ≡ change_of D e0 s
  unfolding SameBut
  change_of-same id k e0 e s same other p q =
      ap (λ (r : List R). record { source = s.source; time = s.snapshot_time; rows_then = r })
        (rw (p, q) (same k other))

  Held-change :
      (c : Change R) (h : List (Change R)) (id : Text) (e0 e : E) (d : Dict Text SnapshotMeta)
      → SameBut id e0 e
      → has d id ≡ false
      → Held D h e0 d
      → Held D (c ∷ h) e d
  unfolding Held get
  Held-change c h id e0 e [] same fresh held = tt
  Held-change c h id e0 e ((k, s) ∷ d) same fresh ((p, q, r, m), held) =
      let (other, later) = has-cons k id s d fresh in
      (
        (
          p,
          q,
          r,
          inr (
              subst (λ b. Member b h)
                (sym (change_of-same id k e0 e s same (ne_of_different k id other) q r)) m),
        ),
        Held-change c h id e0 e d same later held,
      )

  Held-put :
      (h : List (Change R)) (e : E) (d : Dict Text SnapshotMeta) (x : SnapshotMeta)
      → has d x.snapshot_id ≡ false
      → x.duckdb_schema ≡ snapshots_schema
      → x.duckdb_table ≡ x.snapshot_id
      → Member (change_of D e x) h
      → Held D h e d
      → Held D h e (put d x.snapshot_id x)
  unfolding Held put get
  Held-put h e [] x fresh p q m held = ((refl, p, q, m), tt)
  Held-put h e ((k, s) ∷ d) x fresh p q m (entry, held) =
      let (other, later) = has-cons k x.snapshot_id s d fresh in
      rw other (entry, Held-put h e d x later p q m held)

  pub Held-Member :
      (h : List (Change R)) (e : E) (d : Dict Text SnapshotMeta) (s : SnapshotMeta)
      → Held D h e d
      → Member s (values d)
      → Member (change_of D e s) h
  unfolding Held values
  Held-Member h e [] s held m = elim m [ ]
  Held-Member h e ((k, t) ∷ d) s ((p, q, r, n), held) (inl same) = rw same n
  Held-Member h e ((k, t) ∷ d) s (entry, held) (inr m) = Held-Member h e d s held m

  change_of-Member :
      (h : List (Change R)) (id : Text) (e0 e : E) (d : Dict Text SnapshotMeta) (s : SnapshotMeta)
      → SameBut id e0 e
      → has d id ≡ false
      → Held D h e0 d
      → Member s (values d)
      → change_of D e s ≡ change_of D e0 s
  unfolding Held values get
  change_of-Member h id e0 e [] s same fresh held m = elim m [ ]
  change_of-Member h id e0 e ((k, t) ∷ d) s same fresh ((p, q, r, n), held) (inl here) =
      let (other, later) = has-cons k id t d fresh in
      rw here (change_of-same id k e0 e t same (ne_of_different k id other) q r)
  change_of-Member h id e0 e ((k, t) ∷ d) s same fresh (entry, held) (inr m) =
      let (other, later) = has-cons k id t d fresh in
      change_of-Member h id e0 e d s same later held m

  Covered-change :
      (c : Change R) (h : List (Change R)) (held_by : List (Change R)) (id : Text) (e0 e : E)
      (d : Dict Text SnapshotMeta) (x : SnapshotMeta)
      → SameBut id e0 e
      → has d id ≡ false
      → Held D held_by e0 d
      → Covered D h e0 d
      → Covered D h e (put d id x)
  unfolding Covered
  Covered-change c [] held_by id e0 e d x same fresh held covered = tt
  Covered-change c (b ∷ h) held_by id e0 e d x same fresh held ((s, m, p), covered) = (
    (
      s,
      Member-values-put s d id x fresh (inr m),
      p ∙ sym (change_of-Member held_by id e0 e d s same fresh held m),
    ),
    Covered-change c h held_by id e0 e d x same fresh held covered,
  )

module _ {T R : Type 0} (D : SnapshotEngine R) where
  open D use {E, rows}

  pub History-lem :
      (retention : ℕ) {v : Versions T E} {h : List (Change R)}
      → History D retention v h
      → Held D h v.engine v.snapshots × Covered D h v.engine v.snapshots
  unfolding Held Covered SameBut
  History-lem retention (start v none_yet) = rw none_yet (tt, tt)
  History-lem retention (change v w h e id key now s past kept recorded) =
      let (held, covered) = History-lem retention past in
      let (after, fresh, now_d) =
        record_change-some D retention id key now s (record v { engine = e }) w recorded in
      let same : SameBut D id v.engine w.engine = λ k other.
        after (snapshot_ref snapshots_schema k)
        ∙ rw
            (different_of_ne (snapshot_ref snapshots_schema id) (snapshot_ref snapshots_schema k)
              (λ p. other (sym (snapshot_ref-injective id k p))))
            (kept k) in
      let x : SnapshotMeta = meta_of id key now auto retention in
      let c : Change R = record { source = key; time = now; rows_then = table_rows D e key } in
      let new : change_of D w.engine x ≡ c =
        ap (λ (r : List R). record { source = key; time = now; rows_then = r })
          (after (snapshot_ref snapshots_schema id)
            ∙ rw (==_refl (snapshot_ref snapshots_schema id)) refl) in
      subst (λ d. Held D (c ∷ h) w.engine d × Covered D (c ∷ h) w.engine d) (sym now_d)
        (
          Held-put D (c ∷ h) w.engine v.snapshots x fresh refl refl (inl new)
              (Held-change D c h id v.engine w.engine v.snapshots same fresh held),
          (
            (x, Member-values-put x v.snapshots id x fresh (inl refl), sym new),
            Covered-change D c h h id v.engine w.engine v.snapshots x same fresh held covered,
          ),
        )
