-- ===== src/StaleViews.antt =====
-- src/bqemulator/domain/events.py: the event bus, and its one subscriber, the handlers of
-- src/bqemulator/versioning/materialized_views.py that mark a view stale. No handler of the program
-- changes the subscriptions while an event is published, so a handler acts on the views only.
pub mod Marked
use bqemulator.Prelude.{
  ℕ, suc, ◌+◌, ◌≡◌, Bool, true, false, ◌&&◌, ◌||◌, not, Option, none, some, List, [], ◌∷◌, ◌++◌,
  nat_eq, if◌then◌else◌, Text, text_eq, triple_eq, ◌==◌,
}
use bqemulator.Dict.{Dict, get, put, remove, values}
use bqemulator.Snapshots.{TableKey}

-- DomainEvent and its subclasses, with what the handlers read of them.
pub data DomainEvent : Type 0 where
  dataset_created dataset_deleted : DomainEvent
  table_created table_schema_changed table_deleted : DomainEvent
  job_started job_completed : DomainEvent
  table_data_changed : TableKey → DomainEvent

-- MaterializedViewMeta: its ids as one key
pub record MaterializedView : Type 0 where
  pub key : TableKey
  pub base_tables : List TableKey
  pub is_stale : Bool

-- What _make_stale_handler returns: `id` is the identity of the function object.
pub record StaleHandler : Type 0 where
  pub id : ℕ
  pub key : TableKey
  pub base_set : List TableKey

abbrev pub Views : Type 0
Views = Dict TableKey MaterializedView

-- EventBus with the handlers of TableDataChanged, those of the context's registry by view, the views
-- of the catalog, and the identity of the next function object.
pub record Context : Type 0 where
  pub handlers : List StaleHandler
  pub registry : Dict TableKey StaleHandler
  pub views : Views
  pub next_id : ℕ

-- EventBus.subscribe
abbrev pub subscribe : StaleHandler → List StaleHandler → List StaleHandler
subscribe h handlers = handlers ++ h ∷ []

-- EventBus.unsubscribe: the first that is the handler goes, if there is one.
unfoldable pub unsubscribe : StaleHandler → List StaleHandler → List StaleHandler
unsubscribe h [] = []
unsubscribe h (g ∷ handlers) =
    let rest = unsubscribe h handlers in if nat_eq g.id h.id then handlers else g ∷ rest

unfoldable pub is_base : TableKey → List TableKey → Bool
is_base t [] = false
is_base t (k ∷ keys) = k == t || is_base t keys

-- The end of a handler, with the view that the catalog has.
unfoldable pub mark_fresh : Option MaterializedView → Views → Views
mark_fresh none views = views
mark_fresh (some fresh) views =
    if fresh.is_stale then views else put views fresh.key (record fresh { is_stale = true })

-- The handler of _make_stale_handler
unfoldable pub handle : StaleHandler → DomainEvent → Views → Views
unfolding is_base mark_fresh
handle h (table_data_changed t) views =
    if is_base t h.base_set then mark_fresh (get views h.key) views else views
handle h other views = views

-- EventBus.publish
unfoldable pub publish_event : List StaleHandler → DomainEvent → Views → Views
unfolding handle
publish_event [] event views = views
publish_event (h ∷ handlers) event views = publish_event handlers event (handle h event views)

-- _subscribe_mv
unfoldable pub subscribe_mv : MaterializedView → Context → Context
subscribe_mv mv ctx =
    let h : StaleHandler = record { id = ctx.next_id; key = mv.key; base_set = mv.base_tables } in
    record {
      handlers = subscribe h ctx.handlers;
      registry = put ctx.registry mv.key h;
      views = ctx.views;
      next_id = suc ctx.next_id;
    }

unfoldable pub unsubscribe_popped : Option StaleHandler → Context → Context
unfolding unsubscribe
unsubscribe_popped none ctx = ctx
unsubscribe_popped (some h) ctx = record ctx { handlers = unsubscribe h ctx.handlers }

-- _unsubscribe_mv
unfoldable pub unsubscribe_mv : TableKey → Context → Context
unfolding unsubscribe_popped
unsubscribe_mv key ctx =
    unsubscribe_popped (get ctx.registry key) (record ctx { registry = remove ctx.registry key })

unfoldable pub unsubscribe_all : List StaleHandler → List StaleHandler → List StaleHandler
unfolding unsubscribe
unsubscribe_all [] handlers = handlers
unsubscribe_all (h ∷ hs) handlers = unsubscribe_all hs (unsubscribe h handlers)

-- clear_subscriptions_for_context
unfoldable pub clear_subscriptions : Context → Context
unfolding unsubscribe_all
clear_subscriptions ctx = record ctx {
  handlers = unsubscribe_all (values ctx.registry) ctx.handlers;
  registry = [];
}

unfoldable pub subscribe_each : List MaterializedView → Context → Context
unfolding subscribe_mv
subscribe_each [] ctx = ctx
subscribe_each (mv ∷ mvs) ctx = subscribe_each mvs (subscribe_mv mv ctx)

-- hydrate_subscriptions
unfoldable pub hydrate_subscriptions : Context → Context
unfolding subscribe_each
hydrate_subscriptions ctx = subscribe_each (values ctx.views) ctx
