-- ===== src/Outbox.antt =====
-- outbox/memory/outbox.go: an outbox keeps events until all handlers that match them have handled
-- them. The map `db` and the channel `watchCh` hold pointers to the same documents, so the documents
-- stand apart, under their IDs. `W` is all that the handlers act on. The contexts are left out; a
-- time is a number, and the zero time is `none`. uuid.New and time.Now are arguments.
pub mod Adding
pub mod Processing
pub mod Effects
pub mod Delivery
pub mod Sweep
mod Tests
use eventhorizon.Prelude.{
  ℕ, ◌+◌, String, String-discrete, ℕ_discrete, Bool, true, false, not, ◌&&◌, ◌||◌, Option, none,
  some, List, [], ◌∷◌, ◌++◌, ltb, ◌==◌, if◌then◌else◌, ite, length, ◌≡◌,
}
use eventhorizon.Prelude.Maps
use eventhorizon.Prelude.Maps.{Map}
use eventhorizon.Errors.{
  Err, Result, ok, err, panic, Action, sentinel, wrap, errorf, wrap_err, outbox_error, ◌>>=◌,
  missing_matcher, missing_handler, handler_already_added,
}
use eventhorizon.Event.{Event, Codec, copy_event}
use eventhorizon.Matcher.{Matcher, matches}

-- PeriodicSweepAge and PeriodicCleanupAge, in seconds.
abbrev pub periodic_sweep_age : ℕ
periodic_sweep_age = 15

abbrev pub periodic_cleanup_age : ℕ
periodic_cleanup_age = 600

-- The capacity of the channels watchCh and errCh.
abbrev pub channel_size : ℕ
channel_size = 100

pub record Handler (Any W : Type 0) : Type 0 where
  pub handler_type : String
  pub handle : Event Any → Action W (Unit {0})

pub record MatcherHandler (Any W : Type 0) : Type 0 where
  pub matcher : Matcher Any
  pub handler : Handler Any W

pub record OutboxDoc (Any : Type 0) : Type 0 where
  pub doc_event : Event Any
  pub handlers : List String
  pub created_at : ℕ
  pub taken_at : Option ℕ

pub record Outbox (Any W : Type 0) : Type 0 where
  pub docs : Map ℕ (OutboxDoc Any)  -- what the pointers point to
  pub db : ℕ → Bool  -- the keys of `db`
  pub handlers : List (MatcherHandler Any W)
  pub handlers_by_type : Map String (MatcherHandler Any W)
  pub watch : List ℕ
  pub errors : List Err

-- `select { case c <- x: default: }`
send : {A : Type 0} → A → List A → List A
send x channel = if ltb (length channel) channel_size then channel ++ x ∷ [] else channel

-- `t.IsZero()`, and `t.Before(now.Add(-age))`, where the zero time is before every other.
is_zero : Option ℕ → Bool
is_zero none = true
is_zero (some t) = false

before : Option ℕ → ℕ → ℕ → Bool
before none age now = true
before (some t) age now = ltb (t + age) now

-- The inner loop that takes a handler out of the list.
pub without : String → List String → List String
without name [] = []
without name (h ∷ hs) = let rest = without name hs in ite (String-discrete h name) rest (h ∷ rest)

pub without_all : List String → List String → List String
without_all [] hs = hs
without_all (p ∷ processed) hs = without_all processed (without p hs)

module _ {Any W : Type 0} where
  unfoldable pub new_outbox : Outbox Any W
  new_outbox = record {
    docs = Maps.empty;
    db = λ id. false;
    handlers = [];
    handlers_by_type = Maps.empty;
    watch = [];
    errors = [];
  }

  add : Matcher Any → Handler Any W → Action (Outbox Any W) (Unit {0})
  add m h o = elim (o.handlers_by_type h.handler_type) [
    | some _ ↦ (err (sentinel handler_already_added), o)
    | none ↦ (
      ok tt,
      record o {
        handlers = o.handlers ++ record { matcher = m; handler = h } ∷ [];
        handlers_by_type =
            Maps.insert String-discrete h.handler_type (record { matcher = m; handler = h })
              o.handlers_by_type;
      },
    )
  ]

  unfoldable pub add_handler :
      Option (Matcher Any) → Option (Handler Any W) → Action (Outbox Any W) (Unit {0})
  unfolding add
  add_handler none h o = (err (sentinel missing_matcher), o)
  add_handler (some m) none o = (err (sentinel missing_handler), o)
  add_handler (some m) (some h) o = add m h o

  -- The loop of HandleEvent over the handlers.
  pub handler_names : List (MatcherHandler Any W) → Event Any → List String
  handler_names [] event = []
  handler_names (h ∷ hs) event =
      let rest = handler_names hs event in
      if matches h.matcher (some event) then h.handler.handler_type ∷ rest else rest

  record_event : ℕ → ℕ → List String → Result (Event Any) → Action (Outbox Any W) (Unit {0})
  unfolding send
  record_event id now names (ok event) o = (
    ok tt,
    record o {
      docs =
          Maps.insert ℕ_discrete id
            (record { doc_event = event; handlers = names; created_at = now; taken_at = none })
            o.docs;
      db = λ j. ite (ℕ_discrete id j) true (o.db j);
      watch = send id o.watch;
    },
  )
  record_event id now names (err x) o = (err (wrap (errorf "could not copy event") x), o)
  record_event id now names panic o = (panic, o)

  unfoldable pub handle_event : Codec Any → ℕ → ℕ → Event Any → Action (Outbox Any W) (Unit {0})
  unfolding handler_names record_event
  handle_event c id now event o =
      record_event id now (handler_names o.handlers event) (copy_event c event) o

-- The condition of processOutboxEvent.
pub is_due : {Any : Type 0} → ℕ → OutboxDoc Any → Bool
unfolding is_zero before
is_due now doc =
    (is_zero doc.taken_at || before doc.taken_at periodic_sweep_age now)
    || (is_zero doc.taken_at && before (some doc.created_at) periodic_cleanup_age now)

-- The condition of processFullOutbox, the other way round.
pub is_swept : {Any : Type 0} → ℕ → OutboxDoc Any → Bool
unfolding is_zero before
is_swept now doc = not (
    not (before doc.taken_at periodic_sweep_age now)
    && (not (is_zero doc.taken_at) || not (before (some doc.created_at) periodic_cleanup_age now)))

-- The next turn of a loop, if this one does not end it.
go_on : {S : Type 0} → Result (Unit {0}) × S → Action S (Unit {0}) → Result (Unit {0}) × S
go_on (ok _, s) next = next s
go_on (err x, s) next = (err x, s)
go_on (panic, s) next = (panic, s)

-- What follows the call of one handler: an error goes to the error channel, and the loop goes on.
after_call :
    {W : Type 0}
    → String
    → Result (Unit {0})
    → (List Err × W → Result (List String) × (List Err × W))
    → List Err × W
    → Result (List String) × (List Err × W)
unfolding send
after_call name (ok _) rest s =
    let (r, t) = rest s in (r >>= (λ processed. ok (name ∷ processed)), t)
after_call name (err x) rest (errors, w) =
    rest (send (wrap outbox_error (wrap (errorf "could not handle event") x)) errors, w)
after_call name panic rest s = (panic, s)

module _ {Any W : Type 0} where
  -- The loop over the handlers of a document, with the names of those that handled the event.
  pub run_handlers :
      Map String (MatcherHandler Any W)
      → Event Any
      → List String
      → Action (List Err × W) (List String)
  unfolding after_call
  run_handlers by_type event [] s = (ok [], s)
  run_handlers by_type event (name ∷ names) (errors, w) =
      let rest = run_handlers by_type event names in
      elim (by_type name) [
        | none ↦ rest (errors, w)
        | some h ↦
            if matches h.matcher (some event)
            then (let (r, w') = h.handler.handle event w in after_call name r rest (errors, w'))
            else rest (errors, w)
      ]

  -- The end of processOutboxEvent: the document is done, or goes on with the handlers that are left.
  settle : ℕ → OutboxDoc Any → Result (List String) → Action (Outbox Any W) (Unit {0})
  unfolding without_all
  settle id doc (ok processed) o =
      if length processed == length doc.handlers
      then (ok tt, record o { db = λ j. ite (ℕ_discrete id j) false (o.db j) })
      else if ltb 0 (length processed)
      then (
        ok tt,
        record o {
          docs =
              Maps.insert ℕ_discrete id
                (record doc { handlers = without_all processed doc.handlers }) o.docs;
        },
      )
      else (ok tt, o)
  settle id doc (err x) o = (err x, o)
  settle id doc panic o = (panic, o)

  pub process_doc : ℕ → ℕ → OutboxDoc Any → Action (Outbox Any W × W) (Unit {0})
  unfolding run_handlers settle is_due
  process_doc id now doc (o, w) =
      if is_due now doc
      then (let taken = record doc { taken_at = some now } in
          let (r, (errors, w')) =
            run_handlers o.handlers_by_type doc.doc_event doc.handlers (o.errors, w) in
          let (done, o') =
            settle id taken r
              (record o { docs = Maps.insert ℕ_discrete id taken o.docs; errors = errors }) in
          (done, (o', w')))
      else (ok tt, (o, w))

  -- processOutboxEvent, of the document with the ID.
  unfoldable pub process_outbox_event : ℕ → ℕ → Action (Outbox Any W × W) (Unit {0})
  unfolding process_doc
  process_outbox_event id now (o, w) = elim (o.docs id) [
    | none ↦ (panic, (o, w))
    | some doc ↦ process_doc id now doc (o, w)
  ]

  -- processFullOutbox over the keys of `db` in the order that the runtime picks. A key that is
  -- deleted before its turn is not visited.
  unfoldable pub process_full_outbox : List ℕ → ℕ → Action (Outbox Any W × W) (Unit {0})
  unfolding process_doc is_swept go_on
  process_full_outbox [] now s = (ok tt, s)
  process_full_outbox (id ∷ ids) now (o, w) =
      let next = process_full_outbox ids now in
      elim (o.docs id) [
        | none ↦ next (o, w)
        | some doc ↦
            if o.db id && is_swept now doc
            then go_on (process_doc id now doc (o, w)) next
            else next (o, w)
      ]

  -- One turn of processWithWatch.
  unfoldable pub process_watched : ℕ → Action (Outbox Any W × W) (Unit {0})
  unfolding process_outbox_event
  process_watched now (o, w) = elim o.watch [
    | [] ↦ (ok tt, (o, w))
    | id ∷ ids ↦ process_outbox_event id now (record o { watch = ids }, w)
  ]
