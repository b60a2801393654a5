-- ===== src/Snapshots/Lookup.antt =====
-- Which snapshot resolve_time_travel of versioning/snapshots.py finds.
use bqemulator.Prelude.{
  ℕ, ◌+◌, ◌≤◌, ◌<◌, ◌≡◌, ◌⊎◌, ◌↔◌, inl, inr, refl, sym, ap, ◌∙◌, Option, none, some, List, [], ◌∷◌,
  arith, ltb, leb, Text, text_eq, triple_eq, ==_iff, Bool-cases, Member, select, Member-select,
  ltb→lt, leb→le, le→leb, ◌≢◌,
}
use mathlib.Core.Path.{subst}
use bqemulator.Dict.{Dict, values}
use bqemulator.Snapshots.{
  TableKey, SnapshotMeta, insert_by_time, sort_by_time, is_of, is_eligible,
  list_snapshots_for_table, later_of, latest_of, latest_or_raise, resolve_among,
  resolve_time_travel, Answer, ok, raised, in_the_future, before_retention, before_first_state,
}

-- Sorting keeps the elements.
Member-insert :
    (a s : SnapshotMeta) (ss : List SnapshotMeta)
    → Member a (insert_by_time s ss) ↔ Member a (s ∷ ss)
unfolding insert_by_time
Member-insert a s [] = ((λ m. m), (λ m. m))
Member-insert a s (t ∷ ts) = elim (Bool-cases (leb s.snapshot_time t.snapshot_time)) [
  | inl e ↦ rw e ((λ m. m), (λ m. m))
  | inr e ↦ rw e (to (Member-insert a s ts).0, from (Member-insert a s ts).1)
]
  where
    to :
        (Member a (insert_by_time s ts) → Member a (s ∷ ts))
        → Member a (t ∷ insert_by_time s ts)
        → Member a (s ∷ t ∷ ts)
    to f (inl p) = inr (inl p)
    to f (inr m) = elim (f m) [ inl p ↦ inl p | inr n ↦ inr (inr n) ]

    from :
        (Member a (s ∷ ts) → Member a (insert_by_time s ts))
        → Member a (s ∷ t ∷ ts)
        → Member a (t ∷ insert_by_time s ts)
    from f (inl p) = inr (f (inl p))
    from f (inr (inl p)) = inl p
    from f (inr (inr m)) = inr (f (inr m))

pub Member-sort :
    (a : SnapshotMeta) (ss : List SnapshotMeta) → Member a (sort_by_time ss) ↔ Member a ss
unfolding sort_by_time
Member-sort a [] = ((λ m. m), (λ m. m))
Member-sort a (s ∷ ss) =
    let (to, from) = Member-insert a s (sort_by_time ss) in
    (
      (λ m. elim (to m) [ inl p ↦ inl p | inr n ↦ inr ((Member-sort a ss).0 n) ]),
      (λ m. from (elim m as (λ _. Member a (s ∷ sort_by_time ss)) [
        | inl p ↦ inl p
        | inr n ↦ inr ((Member-sort a ss).1 n)
      ])),
    )

pub Member-list_snapshots_for_table :
    (a : SnapshotMeta) (key : TableKey) (d : Dict Text SnapshotMeta)
    → Member a (list_snapshots_for_table key d) ↔ (Member a (values d) × (a.source ≡ key))
unfolding list_snapshots_for_table
Member-list_snapshots_for_table a key d =
    let (unsort, sort) = Member-sort a (select (is_of key) (values d)) in
    let (there, back) = Member-select (is_of key) a (values d) in
    (
      (λ m. ((there (unsort m)).0, (==_iff a.source key).0 (there (unsort m)).1)),
      (λ m. sort (back (m.0, (==_iff a.source key).1 (m.1)))),
    )

later_of-cases : (s t : SnapshotMeta) → (later_of s t ≡ s) ⊎ (later_of s t ≡ t)
unfolding later_of
later_of-cases s t = elim (Bool-cases (ltb s.snapshot_time t.snapshot_time)) [
  | inl e ↦ inr (rw e refl)
  | inr e ↦ inl (rw e refl)
]

later_of-le :
    (s t : SnapshotMeta)
    → (s.snapshot_time ≤ (later_of s t).snapshot_time)
      × (t.snapshot_time ≤ (later_of s t).snapshot_time)
unfolding later_of
later_of-le s t = ground arith

-- The latest is one of them, and none is later.
latest_of_lem :
    (s : SnapshotMeta) (ss : List SnapshotMeta)
    → Member (latest_of s ss) (s ∷ ss)
      × ((t : SnapshotMeta) → Member t (s ∷ ss) → t.snapshot_time ≤ (latest_of s ss).snapshot_time)
unfolding latest_of
latest_of_lem s [] = (inl refl, λ t m. elim m [ inl p ↦ rw p (omega arith) | inr n ↦ elim n [ ] ])
latest_of_lem s (t ∷ ts) =
    let (one, most) = latest_of_lem (later_of s t) ts in
    let first : (later_of s t).snapshot_time ≤ (latest_of (later_of s t) ts).snapshot_time =
      most (later_of s t) (inl refl) in
    (
      elim one [ inl p ↦ among p (later_of-cases s t) | inr n ↦ inr (inr n) ],
      λ u m. elim m [
        | inl p ↦ rw p (omega (arith, first, later_of-le s t))
        | inr (inl p) ↦ rw p (omega (arith, first, later_of-le s t))
        | inr (inr n) ↦ most u (inr n)
      ],
    )
  where
    among :
        {a : SnapshotMeta}
        → a ≡ later_of s t
        → (later_of s t ≡ s) ⊎ (later_of s t ≡ t)
        → Member a (s ∷ t ∷ ts)
    among p (inl q) = inl (p ∙ q)
    among p (inr q) = inr (inl (p ∙ q))

-- The snapshot is the table's latest of those that are not after the target.
abbrev pub IsLatest : SnapshotMeta → TableKey → ℕ → Dict Text SnapshotMeta → Type 0
IsLatest s key target d =
    Member s (values d)
    × (s.source ≡ key)
    × (s.snapshot_time ≤ target)
    × ((t : SnapshotMeta)
        → Member t (values d)
        → t.source ≡ key
        → t.snapshot_time ≤ target
        → t.snapshot_time ≤ s.snapshot_time)

-- What the answer says of the snapshots and of the window.
abbrev pub Resolves :
    ℕ → ℕ → TableKey → ℕ → Dict Text SnapshotMeta → Answer (Option SnapshotMeta) → Type 0
Resolves retention now key target d (raised in_the_future) = now < target
Resolves retention now key target d (raised before_retention) = target + retention < now
Resolves retention now key target d (raised before_first_state) =
    ((s : SnapshotMeta) × Member s (values d) × (s.source ≡ key))
    × ((s : SnapshotMeta) → Member s (values d) → s.source ≡ key → target < s.snapshot_time)
Resolves retention now key target d (raised e) = ⊥
Resolves retention now key target d (ok none) =
    (s : SnapshotMeta) → Member s (values d) → s.source ≢ key
Resolves retention now key target d (ok (some s)) =
    (target ≤ now) × (now ≤ target + retention) × IsLatest s key target d

Member-candidates :
    (a : SnapshotMeta) (key : TableKey) (target : ℕ) (d : Dict Text SnapshotMeta)
    → Member a (select (is_eligible target) (list_snapshots_for_table key d))
      ↔ (Member a (values d) × (a.source ≡ key) × (a.snapshot_time ≤ target))
Member-candidates a key target d =
    let (there, back) = Member-select (is_eligible target) a (list_snapshots_for_table key d) in
    let (of_key, listed) = Member-list_snapshots_for_table a key d in
    (
      (λ m. (
        (of_key (there m).0).0,
        (of_key (there m).0).1,
        leb→le a.snapshot_time target (there m).1,
      )),
      (λ m. back (listed (m.0, m.1), le→leb a.snapshot_time target (m.2))),
    )

latest_or_raise-cases :
    (key : TableKey) (target : ℕ) (d : Dict Text SnapshotMeta) (xs : List SnapshotMeta)
    → select (is_eligible target) (list_snapshots_for_table key d) ≡ xs
    → ((s : SnapshotMeta) × Member s (values d) × (s.source ≡ key))
    → ((latest_or_raise xs ≡ raised before_first_state)
        × ((s : SnapshotMeta) → Member s (values d) → s.source ≡ key → target < s.snapshot_time))
      ⊎ ((s : SnapshotMeta) × (latest_or_raise xs ≡ ok (some s)) × IsLatest s key target d)
unfolding latest_or_raise
latest_or_raise-cases key target d [] e one = inl (
  refl,
  λ s m p. elim (Bool-cases (leb s.snapshot_time target)) [
    | inl early ↦ absurd (
        subst (Member s) e
          ((Member-candidates s key target d).1 (m, p, leb→le s.snapshot_time target early)))
    | inr late ↦ ground arith
  ],
)
latest_or_raise-cases key target d (x ∷ xs) e one =
    let (one_of, most) = latest_of_lem x xs in
    let (m, p, early) =
      (Member-candidates (latest_of x xs) key target d).0
        (subst (Member (latest_of x xs)) (sym e) one_of) in
    inr (
      latest_of x xs,
      refl,
      (
        m,
        p,
        early,
        λ t n q before.
            most t (subst (Member t) e ((Member-candidates t key target d).1 (n, q, before))),
      ),
    )

resolve_among-Resolves :
    (retention now : ℕ) (key : TableKey) (target : ℕ) (d : Dict Text SnapshotMeta)
    (xs : List SnapshotMeta)
    → list_snapshots_for_table key d ≡ xs
    → target ≤ now
    → now ≤ target + retention
    → Resolves retention now key target d (resolve_among target xs)
unfolding resolve_among
resolve_among-Resolves retention now key target d [] e t w =
    λ s m p. subst (Member s) e ((Member-list_snapshots_for_table s key d).1 (m, p))
resolve_among-Resolves retention now key target d (x ∷ xs) e t w =
    let (m, p) =
      (Member-list_snapshots_for_table x key d).0 (subst (Member x) (sym e) (inl refl)) in
    elim (latest_or_raise-cases key target d (select (is_eligible target) (x ∷ xs))
      (ap (select (is_eligible target)) e) (x, m, p)) [
        | inl (answer, late) ↦ rw answer ((x, m, p), late)
        | inr (s, answer, latest) ↦ rw answer (t, w, latest)
      ]

-- The answer is in_the_future or before_retention just where the target is outside of the window, `none` where
-- the table has no snapshot, before_first_state where all of its snapshots are later, and otherwise the latest
-- that is not later.
pub resolve_time_travel-Resolves :
    (retention now : ℕ) (key : TableKey) (target : ℕ) (d : Dict Text SnapshotMeta)
    → Resolves retention now key target d (resolve_time_travel retention now key target d)
unfolding resolve_time_travel
resolve_time_travel-Resolves retention now key target d = elim (Bool-cases (ltb now target)) [
  | inl future ↦ rw future (ltb→lt now target future)
  | inr past ↦ elim (Bool-cases (ltb (target + retention) now)) [
    | inl old ↦ rw (past, old) (ltb→lt (target + retention) now old)
    | inr recent ↦
        rw (past, recent)
          (resolve_among-Resolves retention now key target d (list_snapshots_for_table key d) refl
            (ground arith) (ground arith))
  ]
]
