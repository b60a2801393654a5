-- ===== src/Examples/Staleness.antt =====
-- A view over two tables and a change of one of them.
use bqemulator.Prelude.{
  ◌≡◌, refl, sym, ap, ◌∙◌, arith, Option, true, false, some, [], ◌∷◌, text, triple_beq, list_beq,
  none, ◌==◌, ==_iff, text_eq, triple_eq, inl, inr, Bool-cases,
}
use bqemulator.Dict.{get, put, values}
use bqemulator.Snapshots.{TableKey}
use bqemulator.StaleViews.{
  MaterializedView, Context, table_data_changed, publish_event, is_base, hydrate_subscriptions,
  subscribe_each, subscribe_mv, unsubscribe_mv, unsubscribe_popped, unsubscribe,
}
use bqemulator.StaleViews.Marked.{stale_if, Keyed, hydrate_subscriptions-publish_event}

abbrev orders : TableKey
orders = (text "p", text "d", text "orders")

abbrev users : TableKey
users = (text "p", text "d", text "users")

abbrev summary : TableKey
summary = (text "p", text "d", text "summary")

abbrev view : MaterializedView
view = record { key = summary; base_tables = orders ∷ users ∷ []; is_stale = false }

abbrev context : Context
context = record { handlers = []; registry = []; views = (summary, view) ∷ []; next_id = 0 }

one_view : Keyed ((summary, view) ∷ [])
unfolding get
one_view k v there = elim (Bool-cases (summary == k)) [
  | inl same ↦ ap key_of (sym (found same)) ∙ (==_iff summary k).0 same
  | inr other ↦ absurd (missing other)
]
  where
    key_of : Option MaterializedView → TableKey
    key_of none = summary
    key_of (some w) = w.key

    found : (summary == k) ≡ true → some view ≡ some v
    found same = ground arith

    missing : (summary == k) ≡ false → ⊥
    missing other = ground arith

hydrate_subscriptions-publish_event_example :
    get
      (publish_event
        (hydrate_subscriptions context).handlers
        (table_data_changed users)
        (hydrate_subscriptions context).views)
      summary
    ≡ some (record view { is_stale = true })
unfolding stale_if get triple_beq list_beq is_base
hydrate_subscriptions-publish_event_example =
    hydrate_subscriptions-publish_event context users summary refl (refl, tt) one_view

-- A view that is dropped leaves no handler behind.
dropped : (unsubscribe_mv summary (hydrate_subscriptions context)).handlers ≡ []
unfolding unsubscribe_mv unsubscribe_popped unsubscribe hydrate_subscriptions subscribe_each
    subscribe_mv get put triple_beq list_beq values
dropped = refl
