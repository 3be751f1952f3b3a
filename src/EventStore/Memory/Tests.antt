-- ===== src/EventStore/Memory/Tests.antt =====
-- The memory store on a small history: an aggregate 7 with two events, and a third to come.
use mathlib.Core.List.{Memᴰ}
use mathlib.Core.Bool.{false≢true}
use text.Mathlib.TextEquality.{eq_iff}
use eventhorizon.Prelude.{
  ℕ, String-discrete, ℕ_discrete, ◌≡◌, refl, ◌≢◌, inr, none, some, [], ◌∷◌, arith,
}
use eventhorizon.Prelude.Maps
use eventhorizon.Errors.{Result, Action, ok, err, panic, message}
use eventhorizon.Event.{Event, copy_event}
use eventhorizon.EventStore.Memory.{AggregateRecord, Db, save_db, save, load, load_from}
use eventhorizon.EventStore.Memory.Streams.{Inv, save_db-Inv}
use eventhorizon.EventStore.Memory.Loading.{load_from_lem}
use eventhorizon.EventStore.Memory.Saving.{load-save_db}
use eventhorizon.EventStore.Memory.Conflicts.{second_writer_refused, creation_overwrites}
use eventhorizon.EventStore.Memory.Maintenance.{rename_event}
use eventhorizon.EventStore.Memory.Maintenance.Renaming.{rename_event_loses}
use eventhorizon.Samples.{codec, make, opened, paid, closed}
use eventhorizon.EventStore.Memory.Contract.{stored_appends, HoldsStream}

abbrev account : AggregateRecord ℕ
account = record { aggregate_id = 7; version = 2; events = some opened ∷ some paid ∷ [] }

abbrev one_account : Db ℕ
one_account = Maps.insert ℕ_discrete 7 account Maps.empty

one_account_built : (save_db codec (opened ∷ paid ∷ []) 0 Maps.empty).1 ≡ one_account
unfolding save_db copy_event ℕ_discrete String-discrete
one_account_built = refl

one_account_save : (save_db codec (closed ∷ []) 2 one_account).0 ≡ ok tt
unfolding save_db copy_event ℕ_discrete String-discrete
one_account_save = refl

found : one_account 7 ≡ some account
unfolding ℕ_discrete
found = refl

one_account-Inv : Inv one_account
one_account-Inv =
    rw (← one_account_built) (save_db-Inv codec (opened ∷ paid ∷ []) 0 Maps.empty empty-Inv)
  where
    empty-Inv : Inv {Any = ℕ} Maps.empty
    empty-Inv = record { at_id = λ id a h. absurd (cc) }

save_db-Inv_example : Inv (save_db codec (closed ∷ []) 2 one_account).1
save_db-Inv_example = save_db-Inv codec (closed ∷ []) 2 one_account one_account-Inv

-- A handler that takes no event.
abbrev failing : Event ℕ → Action (Db ℕ × Unit {0}) (Unit {0})
failing e s = (err (message "failed"), s)

abbrev saved : Result (Unit {0}) × (Db ℕ × Unit {0})
saved = save codec (some failing) (closed ∷ []) 2 (one_account, tt)

load-save_db_example :
    ((save_db codec (closed ∷ []) 2 one_account).0 ≡ ok tt)
    × ((load codec 7 (save_db codec (closed ∷ []) 2 one_account).1).0
        ≡ ok (some opened ∷ some paid ∷ some closed ∷ []))
unfolding ℕ_discrete
load-save_db_example =
    load-save_db codec closed [] 2 one_account (refl, refl, refl, tt) ((0, refl, refl), tt)
      one_account-Inv (omega arith, refl, ((0, refl, refl), ((0, refl, refl), tt)))

second_writer_refused_example :
    let db = (save_db codec (closed ∷ []) 2 one_account).1 in
    ((save_db codec (closed ∷ []) 2 db).0 ≢ ok tt) × ((save_db codec (closed ∷ []) 2 db).1 ≡ db)
second_writer_refused_example =
    second_writer_refused codec closed closed [] [] 2 one_account account (omega arith) found refl
      one_account_save

creation_overwrites_example :
    ((save_db codec (opened ∷ []) 0 one_account).0 ≡ ok tt)
    × ((load codec 7 (save_db codec (opened ∷ []) 0 one_account).1).0 ≡ ok (some opened ∷ []))
creation_overwrites_example =
    creation_overwrites codec opened [] 0 one_account (refl, refl, refl, tt) ((0, refl, refl), tt)
      account found refl

load_from_lem_example : load_from codec 7 2 one_account ≡ (ok (none ∷ some paid ∷ []), one_account)
load_from_lem_example =
    load_from_lem codec 7 2 one_account account found ((0, refl, refl), ((0, refl, refl), tt))

abbrev corrected : Event ℕ
corrected = make "refunded" 2

opened_not_paid : opened.event_type ≢ "paid"
opened_not_paid = λ h. false≢true ((eq_iff "opened" "paid").1 h)

rename_event_loses_example :
    ((rename_event (7 ∷ []) "paid" "settled" one_account).0 ≡ ok tt)
    × ((load codec 7 (rename_event (7 ∷ []) "paid" "settled" one_account).1).0 ≡ panic)
rename_event_loses_example =
    rename_event_loses codec "paid" "settled" (7 ∷ []) one_account 7 account opened one_account-Inv
      (Memᴰ.head refl) found (Memᴰ.head refl) opened_not_paid

stored_appends_example :
    HoldsStream codec (save_db codec (closed ∷ []) 2 one_account).1 7 (opened ∷ paid ∷ closed ∷ [])
stored_appends_example =
    stored_appends codec one_account 7 "account" (opened ∷ paid ∷ []) closed []
      (
        one_account-Inv,
        ((0, refl, refl), ((0, refl, refl), tt)),
        inr (account, found, refl, λ h. cc),
      )
      (refl, refl, refl, tt) ((0, refl, refl), tt)
