-- ===== src/StaleViews/Marked.antt =====
-- versioning/materialized_views.py: which views a change of a table marks stale.
use bqemulator.Prelude.{
  ◌≡◌, refl, sym, ap, ◌∙◌, inl, inr, Bool, true, false, ◌&&◌, ◌||◌, Option, none, some, List, [],
  ◌∷◌, ◌++◌, text_eq, triple_eq, ◌==◌, ==_iff, ==_refl, Bool-cases,
}
use mathlib.Core.Path.{subst}
use bqemulator.Dict.{get, values, get-put, Unique}
use bqemulator.Snapshots.{TableKey}
use bqemulator.StaleViews.{
  table_data_changed, MaterializedView, StaleHandler, Views, Context, is_base, mark_fresh, handle,
  publish_event, subscribe_mv, subscribe_each, hydrate_subscriptions,
}

-- Each view stands under its own key.
abbrev pub Keyed : Views → Type 0
Keyed views = (k : TableKey) (v : MaterializedView) → get views k ≡ some v → v.key ≡ k

-- A view, made stale where the test says so.
unfoldable pub stale_if : Bool → Option MaterializedView → Option MaterializedView
stale_if b none = none
stale_if b (some v) = some (record v { is_stale = v.is_stale || b })

-- Some handler is for the view and for the table.
unfoldable pub marks : List StaleHandler → TableKey → TableKey → Bool
marks [] t k = false
marks (h ∷ handlers) t k = h.key == k && is_base t h.base_set || marks handlers t k

or_false : (b : Bool) → b || false ≡ b
or_false true = refl
or_false false = refl

or_assoc : (a b c : Bool) → (a || b) || c ≡ a || (b || c)
or_assoc true b c = refl
or_assoc false b c = refl

stale_if-false : (o : Option MaterializedView) → stale_if false o ≡ o
unfolding stale_if
stale_if-false none = refl
stale_if-false (some v) = ap (λ b. some (record v { is_stale = b })) (or_false v.is_stale)

stale_if-or :
    (a b : Bool) (o : Option MaterializedView) → stale_if b (stale_if a o) ≡ stale_if (a || b) o
unfolding stale_if
stale_if-or a b none = refl
stale_if-or a b (some v) = ap (λ c. some (record v { is_stale = c })) (or_assoc v.is_stale a b)

stale_if-stale : (v : MaterializedView) → v.is_stale ≡ true → some v ≡ stale_if true (some v)
unfolding stale_if
stale_if-stale v e = ap (λ b. some (record v { is_stale = b })) (e ∙ sym (or_true v.is_stale))
  where
    or_true : (b : Bool) → b || true ≡ true
    or_true true = refl
    or_true false = refl

get-mark_fresh_self :
    (views : Views) (key : TableKey) (o : Option MaterializedView)
    → get views key ≡ o
    → Keyed views
    → get (mark_fresh o views) key ≡ stale_if true (get views key)
unfolding mark_fresh stale_if
get-mark_fresh_self views key none there keyed = rw there refl
get-mark_fresh_self views key (some v) there keyed = elim (Bool-cases v.is_stale) [
  | inl e ↦ rw e (there ∙ stale_if-stale v e ∙ ap (stale_if true) (sym there))
  | inr e ↦ rw e (
      get-put views v.key key (record v { is_stale = true })
      ∙ rw ((==_iff v.key key).1 (keyed key v there), there, e) refl)
]

get-mark_fresh_other :
    (views : Views) (key k : TableKey) (o : Option MaterializedView)
    → get views key ≡ o
    → Keyed views
    → (key == k) ≡ false
    → get (mark_fresh o views) k ≡ get views k
unfolding mark_fresh
get-mark_fresh_other views key k none there keyed other = refl
get-mark_fresh_other views key k (some v) there keyed other = elim (Bool-cases v.is_stale) [
  | inl e ↦ rw e refl
  | inr e ↦ rw e (
      get-put views v.key k (record v { is_stale = true })
      ∙ rw (subst (λ j. (j == k) ≡ false) (sym (keyed key v there)) other) refl)
]

get-handle :
    (h : StaleHandler) (t k : TableKey) (views : Views)
    → Keyed views
    → get (handle h (table_data_changed t) views) k
      ≡ stale_if (h.key == k && is_base t h.base_set) (get views k)
unfolding handle
get-handle h t k views keyed = elim (Bool-cases (is_base t h.base_set)) [
  | inl e ↦ elim (Bool-cases (h.key == k)) [
    | inl same ↦
        rw (e, same)
          (subst (λ j. get (mark_fresh (get views h.key) views) j ≡ stale_if true (get views j))
            ((==_iff h.key k).0 same)
            (get-mark_fresh_self views h.key (get views h.key) refl keyed))
    | inr other ↦
        rw (e, other)
          (get-mark_fresh_other views h.key k (get views h.key) refl keyed other
            ∙ sym (stale_if-false (get views k)))
  ]
  | inr e ↦ rw e (elim (Bool-cases (h.key == k)) [
    | inl same ↦ rw same (sym (stale_if-false (get views k)))
    | inr other ↦ rw other (sym (stale_if-false (get views k)))
  ])
]

abbrev key_or : TableKey → Option MaterializedView → TableKey
key_or key none = key
key_or key (some v) = v.key

stale_if-key :
    (b : Bool) (o : Option MaterializedView) (v : MaterializedView)
    → stale_if b o ≡ some v
    → (w : MaterializedView) × (o ≡ some w) × (v.key ≡ w.key)
unfolding stale_if
stale_if-key b none v h = absurd (nothing h)
  where
    nothing : none ≡ some v → ⊥
    nothing e = cc
stale_if-key b (some w) v h = (w, refl, sym (ap (key_or w.key) h))

Keyed-stale_if :
    (views views' : Views) (f : TableKey → Bool)
    → ((k : TableKey) → get views' k ≡ stale_if (f k) (get views k))
    → Keyed views
    → Keyed views'
Keyed-stale_if views views' f same keyed k v there = go (get views k) refl (sym (same k) ∙ there)
  where
    go : (o : Option MaterializedView) → get views k ≡ o → stale_if (f k) o ≡ some v → v.key ≡ k
    go o e h =
        let (w, found, same_key) = stale_if-key (f k) o v h in same_key ∙ keyed k w (e ∙ found)

-- A change of a table makes exactly the views stale that a handler is for.
pub get-publish_event :
    (handlers : List StaleHandler) (t k : TableKey) (views : Views)
    → Keyed views
    → get (publish_event handlers (table_data_changed t) views) k
      ≡ stale_if (marks handlers t k) (get views k)
unfolding publish_event marks
get-publish_event [] t k views keyed = sym (stale_if-false (get views k))
get-publish_event (h ∷ handlers) t k views keyed =
    let views' = handle h (table_data_changed t) views in
    get-publish_event handlers t k views' (
      Keyed-stale_if views views' (λ j. h.key == j && is_base t h.base_set)
        (λ j. get-handle h t j views keyed) keyed)
    ∙ ap (stale_if (marks handlers t k)) (get-handle h t k views keyed)
    ∙ stale_if-or (h.key == k && is_base t h.base_set) (marks handlers t k) (get views k)

-- Some view of the list has the key and the table as a base.
unfoldable pub depends : List MaterializedView → TableKey → TableKey → Bool
depends [] t k = false
depends (v ∷ views) t k = v.key == k && is_base t v.base_tables || depends views t k

marks-append :
    (before : List StaleHandler) (h : StaleHandler) (t k : TableKey)
    → marks (before ++ h ∷ []) t k ≡ marks before t k || (h.key == k && is_base t h.base_set)
unfolding marks
marks-append [] h t k = or_false (h.key == k && is_base t h.base_set)
marks-append (g ∷ before) h t k =
    ap (λ b. g.key == k && is_base t g.base_set || b) (marks-append before h t k)
    ∙ sym (
        or_assoc (g.key == k && is_base t g.base_set) (marks before t k)
          (h.key == k && is_base t h.base_set))

marks-subscribe_each :
    (mvs : List MaterializedView) (t k : TableKey) (ctx : Context)
    → (marks (subscribe_each mvs ctx).handlers t k ≡ marks ctx.handlers t k || depends mvs t k)
      × ((subscribe_each mvs ctx).views ≡ ctx.views)
unfolding subscribe_each subscribe_mv depends
marks-subscribe_each [] t k ctx = (sym (or_false (marks ctx.handlers t k)), refl)
marks-subscribe_each (mv ∷ mvs) t k ctx =
    let (handlers, views) = marks-subscribe_each mvs t k (subscribe_mv mv ctx) in
    (
      handlers
          ∙ ap (λ b. b || depends mvs t k) (marks-append ctx.handlers _ t k)
          ∙ or_assoc (marks ctx.handlers t k) (mv.key == k && is_base t mv.base_tables)
              (depends mvs t k),
      views,
    )

abbrev pub has_base : TableKey → Option MaterializedView → Bool
has_base t none = false
has_base t (some v) = is_base t v.base_tables

Keyed-rest :
    (j : TableKey) (v : MaterializedView) (views : Views)
    → get views j ≡ none
    → Keyed ((j, v) ∷ views)
    → Keyed views
unfolding get
Keyed-rest j v views fresh keyed k w there = elim (Bool-cases (j == k)) [
  | inl same ↦ absurd (clash (sym fresh ∙ ap (get views) ((==_iff j k).0 same) ∙ there))
  | inr other ↦ keyed k w (rw other there)
]
  where
    clash : none ≡ some w → ⊥
    clash e = cc

depends-values :
    (views : Views) (t k : TableKey)
    → Unique views
    → Keyed views
    → depends (values views) t k ≡ has_base t (get views k)
unfolding depends values get
depends-values [] t k unique keyed = refl
depends-values ((j, v) ∷ views) t k (fresh, unique) keyed =
    let first : v.key ≡ j = keyed j v (rw (==_refl j) refl) in
    let ih = depends-values views t k unique (Keyed-rest j v views fresh keyed) in
    elim (Bool-cases (j == k)) [
      | inl same ↦
          let gone : get views k ≡ none = ap (get views) (sym ((==_iff j k).0 same)) ∙ fresh in
          let here : (v.key == k) ≡ true = (==_iff v.key k).1 (first ∙ (==_iff j k).0 same) in
          let none_behind : depends (values views) t k ≡ false = ih ∙ ap (has_base t) gone in
          rw (here, same, none_behind) (or_false (is_base t v.base_tables))
      | inr other ↦
          let apart : (v.key == k) ≡ false = subst (λ i. (i == k) ≡ false) (sym first) other in
          rw (apart, other) ih
    ]

-- Marking stale after a start: with the views of the catalog subscribed again, a change of a table
-- makes stale each view that has the table as a base, and changes nothing else.
pub hydrate_subscriptions-publish_event :
    (ctx : Context) (t k : TableKey)
    → ctx.handlers ≡ []
    → Unique ctx.views
    → Keyed ctx.views
    → get
        (publish_event
          (hydrate_subscriptions ctx).handlers
          (table_data_changed t)
          (hydrate_subscriptions ctx).views)
        k
      ≡ stale_if (has_base t (get ctx.views k)) (get ctx.views k)
unfolding hydrate_subscriptions marks
hydrate_subscriptions-publish_event ctx t k none_yet unique keyed =
    let (handlers, views) = marks-subscribe_each (values ctx.views) t k ctx in
    let after = subscribe_each (values ctx.views) ctx in
    let marked : marks after.handlers t k ≡ has_base t (get ctx.views k) =
      handlers
      ∙ ap (λ hs. marks hs t k || depends (values ctx.views) t k) none_yet
      ∙ depends-values ctx.views t k unique keyed in
    ap (λ vs. get (publish_event after.handlers (table_data_changed t) vs) k) views
    ∙ get-publish_event after.handlers t k ctx.views keyed
    ∙ ap (λ b. stale_if b (get ctx.views k)) marked
