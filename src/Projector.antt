-- ===== src/Projector.antt =====
-- eventhandler/projector/eventhandler.go: projects events onto entities that a repository keeps. A
-- projector is a parameter. `others` stands for what the rest of the program does to the repository
-- while the handler sleeps before its one retry.
pub mod Handling
pub mod Retrying
pub mod Streams
mod Tests
use eventhorizon.Prelude.{
  ℕ, suc, ◌-◌, String, Bool, true, false, not, ◌&&◌, Option, none, some, List, [], ◌∷◌, ltb, leb,
  ◌==◌, if◌then◌else◌,
}
use eventhorizon.Errors.{
  Sentinel, Err, Result, ok, err, panic, Action, sentinel, message, wrap, errorf, projector_error,
  errors_is, missing_event, entity_not_found, incorrect_entity_version, model_not_set,
  model_removed, incorrect_projected_entity_version,
}
use eventhorizon.Event.{Event, nil_uuid}
use eventhorizon.Repo.{Entity, FindContext, Repo, with_min_version, with_min_version_wait}

-- Project returns no entity for an entity that is to be removed.
pub record Projector (E Any : Type 0) : Type 0 where
  pub projector_type : String
  pub project : Event Any → E → Result (Option E)

pub record EventHandler (E S Any : Type 0) : Type 0 where
  pub projector : Projector E Any
  pub repo : Repo E S
  pub factory : Option E
  pub use_wait : Bool
  pub use_retry_once : Bool
  pub use_irregular_versioning : Bool
  pub entity_lookup : Event Any → ℕ

-- The type of option setters.
abbrev pub EventHandlerOption : Type 0 → Type 0 → Type 0 → Type 0
EventHandlerOption E S Any = EventHandler E S Any → EventHandler E S Any

default_entity_lookup : {Any : Type 0} → Event Any → ℕ
default_entity_lookup event = event.aggregate_id

module _ {E S Any : Type 0} where
  unfoldable pub with_wait : EventHandlerOption E S Any
  with_wait h = record h { use_wait = true }

  unfoldable pub with_retry_once : EventHandlerOption E S Any
  with_retry_once h = record h { use_retry_once = true }

  unfoldable pub with_irregular_versioning : EventHandlerOption E S Any
  with_irregular_versioning h = record h { use_irregular_versioning = true }

  unfoldable pub with_entity_lookup : (Event Any → ℕ) → EventHandlerOption E S Any
  with_entity_lookup f h = record h { entity_lookup = f }

  apply_options : EventHandler E S Any → List (EventHandlerOption E S Any) → EventHandler E S Any
  apply_options h [] = h
  apply_options h (option ∷ options) = apply_options (option h) options

  unfoldable pub new_event_handler :
      Projector E Any → Repo E S → List (EventHandlerOption E S Any) → EventHandler E S Any
  unfolding apply_options default_entity_lookup
  new_event_handler projector repo options =
      apply_options
        (record {
          projector = projector;
          repo = repo;
          factory = none;
          use_wait = false;
          use_retry_once = false;
          use_irregular_versioning = false;
          entity_lookup = default_entity_lookup;
        })
        options

  unfoldable pub set_entity_factory : E → EventHandler E S Any → EventHandler E S Any
  set_entity_factory entity h = record h { factory = some entity }

module _ {E S Any : Type 0} (ent : Entity E) (h : EventHandler E S Any) where
  fail : ℕ → ℕ → Err → Result (Unit {0})
  fail id entity_version x =
      err (wrap (projector_error h.projector.projector_type id entity_version) x)

  -- Update or remove the model, with the error that wraps what the repository reports.
  stored : String → ℕ → ℕ → Result (Unit {0}) × S → Result (Unit {0}) × S
  unfolding fail
  stored text id entity_version (err x, s) = (fail id entity_version (wrap (errorf text) x), s)
  stored text id entity_version (r, s) = (r, s)

  update : ℕ → ℕ → Option E → Action S (Unit {0})
  unfolding fail stored
  update id entity_version none s = stored "could not remove" id entity_version (h.repo.remove id s)
  update id entity_version (some entity) s =
      if ent.entity_id entity == id
      then stored "could not save" id entity_version (h.repo.save entity s)
      else (fail id entity_version (message "incorrect entity ID after projection"), s)

  version_of : Option E → Option ℕ
  version_of none = none
  version_of (some entity) = ent.aggregate_version entity

  -- What follows the projection: the model should now be at the version of the event.
  finish : Event Any → ℕ → ℕ → Result (Option E) → Action S (Unit {0})
  unfolding fail update version_of
  finish event id entity_version (err x) s =
      (fail id entity_version (wrap (errorf "could not project") x), s)
  finish event id entity_version panic s = (panic, s)
  finish event id entity_version (ok new_entity) s = elim (version_of new_entity) [
    | none ↦ update id entity_version new_entity s
    | some v ↦
        if v == event.version
        then update id v new_entity s
        else (fail id v (sentinel incorrect_projected_entity_version), s)
  ]

  -- Either the retry, if there is one left, or what it stands in for.
  or_retry : Option (Action S (Unit {0})) → S → Result (Unit {0}) → Result (Unit {0}) × S
  or_retry none s r = (r, s)
  or_retry (some retry) s r = retry s

  -- The entity should be one version behind the event; an entity that has no version is not checked.
  apply : Option (Action S (Unit {0})) → Event Any → ℕ → E → Action S (Unit {0})
  unfolding fail finish or_retry
  apply retry event id entity s = elim (ent.aggregate_version entity) [
    | none ↦ finish event id 0 (h.projector.project event entity) s
    | some v ↦
        if leb event.version v
        then (ok tt, s)
        else if not (event.version == suc v) && not h.use_irregular_versioning
        then or_retry retry s (
            if v == 0 && ltb 1 event.version
            then fail id v (sentinel model_removed)
            else fail id v (sentinel incorrect_entity_version))
        else finish event id v (h.projector.project event entity) s
  ]

  -- Get or create the model.
  get_or_create : Option (Action S (Unit {0})) → Event Any → ℕ → Result E → Action S (Unit {0})
  unfolding fail or_retry apply
  get_or_create retry event id (ok entity) s = apply retry event id entity s
  get_or_create retry event id panic s = (panic, s)
  get_or_create retry event id (err x) s =
      if errors_is x entity_not_found
      then elim h.factory [
        | none ↦ (fail id 0 (sentinel model_not_set), s)
        | some entity ↦ apply retry event id entity s
      ]
      else if errors_is x incorrect_entity_version
      then or_retry retry s
          (fail id 0 (wrap (errorf "could not load entity with correct version") x))
      else (fail id 0 (wrap (errorf "could not load entity") x), s)

  -- The context of the Find. The source subtracts 1 on integers; for version 0 its -1 and the 0 here
  -- both ask for no version.
  pub find_context : FindContext → Event Any → FindContext
  find_context ctx event =
      if h.use_irregular_versioning
      then ctx
      else if h.use_wait
      then with_min_version_wait (event.version - 1) ctx
      else with_min_version (event.version - 1) ctx

  -- One pass from the label retryOnce, with the retry that is left.
  pub attempt : FindContext → Option (Action S (Unit {0})) → Event Any → Action S (Unit {0})
  unfolding find_context get_or_create
  attempt ctx retry event s =
      let (found, s') = h.repo.find (find_context ctx event) (h.entity_lookup event) s in
      get_or_create retry event (h.entity_lookup event) found s'

  -- The retry that the first pass has.
  retry_once : FindContext → (S → S) → Event Any → Option (Action S (Unit {0}))
  unfolding attempt
  retry_once ctx others event =
      if h.use_retry_once then some (λ s. attempt ctx none event (others s)) else none

  unfoldable pub handle_event : FindContext → (S → S) → Option (Event Any) → Action S (Unit {0})
  unfolding fail attempt retry_once
  handle_event ctx others none s = (fail nil_uuid 0 (sentinel missing_event), s)
  handle_event ctx others (some event) s = attempt ctx (retry_once ctx others event) event s
