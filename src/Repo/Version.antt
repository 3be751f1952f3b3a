-- ===== src/Repo/Version.antt =====
-- repo/version/repo.go: a repository that waits for a version. What the loop of Find sees is a
-- schedule: after each try either the timer fires, when others have changed the state meanwhile, or
-- the context is done. The lengths of the waits, from github.com/jpillora/backoff, do not matter.
pub mod Tries
pub mod Waiting
mod Tests
use eventhorizon.Prelude.{
  ℕ, Bool, true, false, ◌||◌, ◌&&◌, Option, none, some, List, [], ◌∷◌, ltb, if◌then◌else◌,
}
use eventhorizon.Errors.{
  Operation, Wrapper, Err, Result, ok, err, panic, Action, sentinel, errors_is, wrap, repo_error,
  incorrect_entity_version, entity_has_no_version, entity_not_found,
}
use eventhorizon.Event.{nil_uuid}
use eventhorizon.Repo.{Entity, FindContext, Repo}

-- One wait of the loop: `retry` says what others do to the state before the timer fires.
pub data Wait (S : Type 0) : Type 0 where
  retry : (S → S) → Wait S
  context_done : Err → Wait S

abbrev no_id : Wrapper
no_id = repo_error Operation.no_operation nil_uuid

check_version : {E : Type 0} → ℕ → E → Option ℕ → Result E
check_version min_version entity none = err (wrap no_id (sentinel entity_has_no_version))
check_version min_version entity (some version) =
    if ltb version min_version
    then err (wrap no_id (sentinel incorrect_entity_version))
    else ok entity

-- The errors after which the loop tries again.
pub retries : Err → Bool
retries x = errors_is x incorrect_entity_version || errors_is x entity_not_found

-- What follows a try: the loop returns what it got, or waits.
after_try :
    {E S : Type 0}
    → FindContext
    → Result E × S
    → (S → Option (Result E × S))
    → Option (Result E × S)
unfolding retries
after_try ctx (ok entity, s) wait = some (ok entity, s)
after_try ctx (err x, s) wait = if retries x && ctx.has_deadline then wait s else some (err x, s)
after_try ctx (panic, s) wait = some (panic, s)

module _ {E S : Type 0} (ent : Entity E) (inner : Repo E S) where
  pub find_min_version : FindContext → ℕ → ℕ → Action S E
  unfolding check_version
  find_min_version ctx id min_version s =
      let (found, s') = inner.find ctx id s in
      elim found [
        | ok entity ↦ (check_version min_version entity (ent.aggregate_version entity), s')
        | err x ↦ (err x, s')
        | panic ↦ (panic, s')
      ]

  -- The loop of Find; `none` says that it still waits where the schedule ends.
  find_loop : FindContext → ℕ → ℕ → List (Wait S) → S → Option (Result E × S)
  unfolding find_min_version after_try
  find_loop ctx id min_version [] s =
      after_try ctx (find_min_version ctx id min_version s) λ _. none
  find_loop ctx id min_version (retry others ∷ waits) s =
      after_try ctx (find_min_version ctx id min_version s)
        λ s'. find_loop ctx id min_version waits (others s')
  find_loop ctx id min_version (context_done cause ∷ waits) s =
      after_try ctx (find_min_version ctx id min_version s) λ s'. some (err cause, s')

  -- Find, given what happens at each wait.
  unfoldable pub find : List (Wait S) → FindContext → ℕ → S → Option (Result E × S)
  unfolding find_loop
  find waits ctx id s = elim ctx.min_version [
    | none ↦ some (inner.find ctx id s)
    | some min_version ↦
        if ltb min_version 1
        then some (inner.find ctx id s)
        else find_loop ctx id min_version waits s
  ]
