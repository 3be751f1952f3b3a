-- ===== src/Errors.antt =====
-- Errors as values. An error is one of the repository's sentinel values, a text made in place, an
-- error of code outside the repository, or one of these wrapped in an error struct (eventstore.go,
-- eventhandler.go, aggregate.go, repo.go, outbox.go, eventbus.go and the Error types of the
-- handlers) or by fmt.Errorf with %w. The Events, Event, Ctx and Command fields of the structs serve
-- printing alone and are left out. A call returns a value, an error, or panics.
pub mod Actions
pub mod Preserving
use eventhorizon.Prelude.{ℕ, String, ◌≡◌, refl, ◌⊎◌, inl, inr, Bool, true, false, arith, ite}

pub data Sentinel : Type 0 where
  missing_events mismatched_event_aggregate_ids mismatched_event_aggregate_types : Sentinel
  incorrect_event_version event_conflict_from_other_save event_not_found : Sentinel
  event_data_not_registered aggregate_not_found aggregate_not_registered : Sentinel
  entity_not_found entity_has_no_version incorrect_entity_version : Sentinel
  missing_event missing_matcher missing_handler handler_already_added : Sentinel
  missing_command missing_aggregate_id command_not_registered : Sentinel
  aggregate_not_versioned mismatched_event_type model_not_set model_removed : Sentinel
  incorrect_projected_entity_version nil_aggregate_store invalid_event_store : Sentinel
  handler_already_set handler_not_found lock_exists no_lock_exists : Sentinel
  context_canceled context_deadline_exceeded : Sentinel

unfoldable pub Sentinel-discrete : Discrete Sentinel
Sentinel-discrete = hlevel

-- The `Op` values of EventStoreError, AggregateStoreError and RepoError.
pub data Operation : Type 0 where
  load save replace rename clear load_snapshot save_snapshot : Operation
  find find_all find_query remove : Operation
  no_operation : Operation  -- the empty text

-- What an error is wrapped in, with the fields that later code can read.
pub data Wrapper : Type 0 where
  errorf : String → Wrapper
  event_store_error : Operation → String → ℕ → ℕ → Wrapper
  aggregate_store_error : Operation → String → ℕ → Wrapper
  repo_error : Operation → ℕ → Wrapper
  projector_error : String → ℕ → ℕ → Wrapper
  saga_error : String → Wrapper
  event_handler_error aggregate_error outbox_error event_bus_error validate_error : Wrapper

pub data Err : Type 0 where
  sentinel : Sentinel → Err
  message : String → Err
  missing_field : String → Err
  foreign : ℕ → Err
  wrap : Wrapper → Err → Err

-- errors.Is(err, target) for a sentinel target: the chain of Unwrap is followed to its end.
unfoldable pub errors_is : Err → Sentinel → Bool
unfolding Sentinel-discrete
errors_is (sentinel s) t = ite (Sentinel-discrete s t) true false
errors_is (wrap w e) t = errors_is e t
errors_is _ t = false

-- What a call that returns (A, error) does.
pub data Result {ℓ} (A : Type ℓ) : Type ℓ where
  ok : A → Result A
  err : Err → Result A
  panic : Result A

infixl 5 ◌>>=◌ ◌>>◌
abbrev pub ◌>>=◌ {ℓ κ} : {A : Type ℓ} {B : Type κ} → Result A → (A → Result B) → Result B
ok a >>= f = f a
err e >>= f = err e
panic >>= f = panic

abbrev pub ◌>>◌ {ℓ} : {B : Type ℓ} → Result (Unit {0}) → Result B → Result B
m >> k = m >>= λ _. k

-- What a call did, with the equation.
pub Result-cases {ℓ} :
    {A : Type ℓ} (r : Result A) → ((a : A) × (r ≡ ok a)) ⊎ (((e : Err) × (r ≡ err e)) ⊎ (r ≡ panic))
Result-cases (ok a) = inl (a, refl)
Result-cases (err e) = inr (inl (e, refl))
Result-cases panic = inr (inr refl)

-- `if err != nil { return wrapper }`
abbrev pub wrap_err {ℓ} : {A : Type ℓ} → Wrapper → Result A → Result A
wrap_err w (ok a) = ok a
wrap_err w (err e) = err (wrap w e)
wrap_err w panic = panic

-- A method that mutates an object and may fail: what was written stays written.
abbrev pub Action : Type 0 → Type 0 → Type 0
Action S A = S → Result A × S

-- An error is recognised through any number of wrappers.
pub errors_is-wrap : (w : Wrapper) (s : Sentinel) → errors_is (wrap w (sentinel s)) s ≡ true
unfolding errors_is
errors_is-wrap w s = ground arith

errors_is_test : errors_is (wrap aggregate_error (sentinel lock_exists)) no_lock_exists ≡ false
unfolding errors_is
errors_is_test = refl
