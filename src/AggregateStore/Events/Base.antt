-- ===== src/AggregateStore/Events/Base.antt =====
-- aggregatestore/events/aggregatebase.go: what a domain aggregate embeds.
use eventhorizon.Prelude.{
  ℕ, ◌+◌, String, ◌≡◌, refl, ap, ◌∙◌, Option, some, List, [], ◌∷◌, ◌++◌, length, arith,
}
use eventhorizon.Event.{Event, EventOption, new_event, new_event-append, for_aggregate}
use eventhorizon.EventStore.{IsBatch, IsBatch-snoc}

pub record AggregateBase (Any : Type 0) : Type 0 where
  pub id : ℕ
  pub t : String
  pub v : ℕ
  pub events : List (Event Any)

module _ {Any : Type 0} where
  unfoldable pub new_aggregate_base : String → ℕ → AggregateBase Any
  new_aggregate_base t id = record { id = id; t = t; v = 0; events = [] }

  unfoldable pub set_aggregate_version : ℕ → AggregateBase Any → AggregateBase Any
  set_aggregate_version v a = record a { v = v }

  abbrev pub uncommitted_events : AggregateBase Any → List (Event Any)
  uncommitted_events a = a.events

  unfoldable pub clear_uncommitted_events : AggregateBase Any → AggregateBase Any
  clear_uncommitted_events a = record a { events = [] }

  -- The event that AppendEvent makes: the caller's options, then the place in the stream.
  unfoldable pub next_event :
      String → Option Any → ℕ → List (Option (EventOption Any)) → AggregateBase Any → Event Any
  next_event event_type payload timestamp options a =
      new_event event_type payload timestamp
        (options ++ some (for_aggregate a.t a.id (a.v + length a.events + 1)) ∷ [])

  unfoldable pub append_event :
      String
      → Option Any
      → ℕ
      → List (Option (EventOption Any))
      → AggregateBase Any
      → Event Any × AggregateBase Any
  append_event event_type payload timestamp options a =
      let e = next_event event_type payload timestamp options a in
      (e, record a { events = a.events ++ e ∷ [] })

  -- The uncommitted events are the next batch of the aggregate's stream.
  abbrev pub IsConsistent : AggregateBase Any → Type 0
  IsConsistent a = IsBatch a.id a.t a.v a.events

  -- AppendEvent, whatever the options, puts the event that it returns behind the uncommitted ones,
  -- under the type and ID of the aggregate and at its next version, and the aggregate keeps its ID,
  -- type and version; if the uncommitted events were the batch that an event store accepts for that
  -- version, they still are.
  pub append_event-IsConsistent :
      (event_type : String) (payload : Option Any) (timestamp : ℕ)
      (options : List (Option (EventOption Any))) (a : AggregateBase Any)
      → IsConsistent a
      → let (e, b) = append_event event_type payload timestamp options a in
        IsConsistent b
        × (b.events ≡ a.events ++ e ∷ [])
        × (e.version ≡ a.v + length a.events + 1)
        × (e.aggregate_id ≡ a.id)
        × (e.aggregate_type ≡ a.t)
        × (b.id ≡ a.id)
        × (b.t ≡ a.t)
        × (b.v ≡ a.v)
  unfolding append_event next_event for_aggregate
  append_event-IsConsistent event_type payload timestamp options a f =
      let last =
        new_event-append event_type payload timestamp options
          (for_aggregate a.t a.id (a.v + length a.events + 1)) in
      (
        IsBatch-snoc a.id a.t a.v a.events _ f (ap (λ e. e.aggregate_id) last)
            (ap (λ e. e.aggregate_type) last) (ap (λ e. e.version) last ∙ omega arith),
        refl,
        ap (λ e. e.version) last,
        ap (λ e. e.aggregate_id) last,
        ap (λ e. e.aggregate_type) last,
        refl,
        refl,
        refl,
      )
