-- ===== src/EventStore/Mongo/Options.antt =====
-- eventstore/mongodb_v2: the options, with mongoutils/checks.go. `H` is the type of event handlers; a
-- collection is its name.
use mathlib.Core.Bool.{false≢true}
use text.Mathlib.Text.{find?}
use text.Mathlib.TextEquality.{eq_iff}
use eventhorizon.Prelude.{
  String, String-discrete, ◌≡◌, ◌≢◌, refl, Bool, true, false, Option, none, some, List, [], ◌∷◌,
  ite, arith, ◌⊎◌, inl, inr, subst, map,
}
use eventhorizon.Errors.{Result-cases, Result, ok, err, panic, message, errorf, wrap_err, ◌>>=◌}
use eventhorizon.EventStore.Mongo.Saving.{GlobalPositionStrategy, in_tx}

pub record Config (H : Type 0) : Type 0 where
  pub event_handler_after_save : Option H
  pub event_handler_in_tx : Option H
  pub events : String
  pub streams : String
  pub snapshots : String
  pub sort_events_on_db : Bool
  pub global_position_strategy : GlobalPositionStrategy

-- CheckCollectionName
unfoldable pub check_collection_name : String → Result (Unit {0})
check_collection_name name =
    ite (String-discrete name "") (err (message "missing collection name")) (elim (find? name " ") [
      | none ↦ ok tt
      | some i ↦ err (message "invalid char in collection name (space)")
    ])

abbrev pub StoreOption : Type 0 → Type 0
StoreOption H = Config H → Result (Config H)

module _ {H : Type 0} where
  -- The checks that both handler options begin with.
  without_handler : Config H → Result (Unit {0})
  without_handler c = elim c.event_handler_after_save [
    | some h ↦ err (message "another event handler is already set")
    | none ↦ elim c.event_handler_in_tx [
      | some h ↦ err (message "another TX event handler is already set")
      | none ↦ ok tt
    ]
  ]

  unfoldable pub with_event_handler : H → StoreOption H
  unfolding without_handler
  with_event_handler h c =
      without_handler c >>= λ _. ok (record c { event_handler_after_save = some h })

  unfoldable pub with_event_handler_in_tx : H → StoreOption H
  unfolding without_handler
  with_event_handler_in_tx h c =
      without_handler c >>= λ _. ok (record c { event_handler_in_tx = some h })

  unfoldable pub with_collection_names : String → String → StoreOption H
  unfolding check_collection_name
  with_collection_names events_coll streams_coll c =
      wrap_err (errorf "events collection") (check_collection_name events_coll) >>= λ _.
      (wrap_err (errorf "streams collection") (check_collection_name streams_coll) >>= λ _.
      ite (String-discrete events_coll streams_coll)
        (err (message "custom collection names are equal"))
        (ok (record c { events = events_coll; streams = streams_coll })))

  unfoldable pub with_snapshot_collection_name : String → StoreOption H
  unfolding check_collection_name
  with_snapshot_collection_name snapshot_coll c =
      wrap_err (errorf "snapshot collection") (check_collection_name snapshot_coll) >>= λ _.
      ok (record c { snapshots = snapshot_coll })

  unfoldable pub with_sort_events_on_db : StoreOption H
  with_sort_events_on_db c = ok (record c { sort_events_on_db = true })

  unfoldable pub with_global_position_strategy : GlobalPositionStrategy → StoreOption H
  with_global_position_strategy strategy c = ok (record c { global_position_strategy = strategy })

  unfoldable pub default_config : Config H
  default_config = record {
    event_handler_after_save = none;
    event_handler_in_tx = none;
    events = "events";
    streams = "streams";
    snapshots = "snapshots";
    sort_events_on_db = false;
    global_position_strategy = in_tx;
  }

  -- The loop over the options; a nil one panics.
  unfoldable pub apply_options : List (Option (StoreOption H)) → Config H → Result (Config H)
  apply_options [] c = ok c
  apply_options (none ∷ os) c = panic
  apply_options (some o ∷ os) c =
      wrap_err (errorf "error while applying option") (o c) >>= apply_options os

-- What the options of the package leave of a configuration: at most one of the handlers is set, and
-- the collections of events and streams differ.
pub record IsValid {H : Type 0} (c : Config H) : Type 0 where
  pub one_handler : (c.event_handler_in_tx ≡ none) ⊎ (c.event_handler_after_save ≡ none)
  pub apart : c.events ≢ c.streams

-- A call of one of the functions that make options.
pub data Call (H : Type 0) : Type 0 where
  event_handler event_handler_in_tx : H → Call H
  collection_names : String → String → Call H
  snapshot_collection_name : String → Call H
  sort_events_on_db : Call H
  global_position_strategy : GlobalPositionStrategy → Call H

module _ {H : Type 0} where
  unfoldable pub option_of : Call H → StoreOption H
  unfolding with_event_handler with_event_handler_in_tx with_collection_names
      with_snapshot_collection_name with_sort_events_on_db with_global_position_strategy
  option_of (Call.event_handler h) = with_event_handler h
  option_of (Call.event_handler_in_tx h) = with_event_handler_in_tx h
  option_of (Call.collection_names e s) = with_collection_names e s
  option_of (Call.snapshot_collection_name n) = with_snapshot_collection_name n
  option_of Call.sort_events_on_db = with_sort_events_on_db
  option_of (Call.global_position_strategy g) = with_global_position_strategy g

  handler-free :
      (c k : Config H) (r : Config H)
      → (without_handler c >>= λ _. ok r) ≡ ok k
      → (c.event_handler_after_save ≡ none) × (c.event_handler_in_tx ≡ none) × (r ≡ k)
  unfolding without_handler
  handler-free c k r h = ground arith

  names-differ :
      (es ss : String) (c k : Config H)
      → with_collection_names es ss c ≡ ok k
      → (es ≢ ss) × (record c { events = es; streams = ss } ≡ k)
  unfolding with_collection_names
  names-differ es ss c k h = (λ q. ground arith, ground arith)

  snapshot-named :
      (n : String) (c k : Config H)
      → with_snapshot_collection_name n c ≡ ok k
      → record c { snapshots = n } ≡ k
  unfolding with_snapshot_collection_name
  snapshot-named n c k h = ground arith

  option-IsValid : (o : Call H) (c k : Config H) → option_of o c ≡ ok k → IsValid c → IsValid k
  unfolding option_of
  option-IsValid (Call.event_handler h) c k e v =
      let (free, free_tx, whole) = handler-free c k _ e in
      subst IsValid whole (record { one_handler = inl free_tx; apart = v.apart })
  option-IsValid (Call.event_handler_in_tx h) c k e v =
      let (free, free_tx, whole) = handler-free c k _ e in
      subst IsValid whole (record { one_handler = inr free; apart = v.apart })
  option-IsValid (Call.collection_names es ss) c k e v =
      let (differ, whole) = names-differ es ss c k e in
      subst IsValid whole (record { one_handler = v.one_handler; apart = differ })
  option-IsValid (Call.snapshot_collection_name n) c k e v =
      subst IsValid (snapshot-named n c k e)
        (record { one_handler = v.one_handler; apart = v.apart })
  option-IsValid Call.sort_events_on_db c k e v =
      let whole : record c { sort_events_on_db = true } ≡ k = cc in
      subst IsValid whole (record { one_handler = v.one_handler; apart = v.apart })
  option-IsValid (Call.global_position_strategy g) c k e v =
      let whole : record c { global_position_strategy = g } ≡ k = cc in
      subst IsValid whole (record { one_handler = v.one_handler; apart = v.apart })

  default-IsValid : IsValid {H = H} default_config
  unfolding default_config
  default-IsValid = record {
    one_handler = inl refl;
    apart = λ e. false≢true ((eq_iff "events" "streams").1 e);
  }

  apply_options-IsValid :
      (calls : List (Call H)) (c k : Config H)
      → apply_options (map (λ o. some (option_of o)) calls) c ≡ ok k
      → IsValid c
      → IsValid k
  unfolding apply_options
  apply_options-IsValid [] c k h v = let whole : c ≡ k = cc in subst IsValid whole v
  apply_options-IsValid (o ∷ os) c k h v =
      let later = apply_options-IsValid os in
      elim (Result-cases (option_of o c)) [
        | inl (b, e) ↦ later b k (ground arith) (option-IsValid o c b e v)
        | inr (inl (x, e)) ↦ absurd (ground arith)
        | inr (inr e) ↦ absurd (ground arith)
      ]

  -- Whatever options are given, in any order and number: if all are accepted, the store has at most
  -- one of the two event handlers, and keeps events and streams in collections of different names.
  pub configured-IsValid :
      (calls : List (Call H)) (k : Config H)
      → apply_options (map (λ o. some (option_of o)) calls) default_config ≡ ok k
      → IsValid k
  configured-IsValid calls k h = apply_options-IsValid calls default_config k h default-IsValid
