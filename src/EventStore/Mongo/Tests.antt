-- ===== src/EventStore/Mongo/Tests.antt =====
-- eventstore/mongodb_v2 on a server that never fails: the account 7, which is new, and two events.
use eventhorizon.Prelude.{
  ℕ, String-discrete, ℕ_discrete, ◌≡◌, refl, true, map, none, [], ◌∷◌, arith, All,
}
use eventhorizon.Prelude.Maps
use eventhorizon.Errors.{
  ok, err, sentinel, wrap, Operation, event_store_error, event_conflict_from_other_save,
}
use eventhorizon.Errors.Actions.{◌>>=◌, lift, wrapped}
use eventhorizon.EventStore.Mongo.Client.{Collections, Driver, select}
use eventhorizon.EventStore.Mongo.Saving.{in_tx, outside_tx, save}
use eventhorizon.EventStore.Mongo.Cursor.{load}
use eventhorizon.EventStore.Mongo.Atomic.{Settled, save-Settled}
use eventhorizon.EventStore.Mongo.Streams.{IsStored, whole_stream}
use eventhorizon.EventStore.Mongo.Invariant.{IsGapless, save-IsGapless}
use eventhorizon.EventStore.Mongo.Records.{Stores, recorded_after}
use eventhorizon.EventStore.Mongo.Loading.{load-save_recorded}
use eventhorizon.Samples.{opened, paid}
use eventhorizon.Samples.Mongo.{server, server_laws, bson}

abbrev fresh : Collections ℕ
fresh = record { position = 0; streams = Maps.empty; events = [] }

abbrev db : Driver ℕ (Collections ℕ)
db = server

-- The two events, the first with the position 1.
abbrev once : Collections ℕ
once = (save db none bson in_tx none (opened ∷ paid ∷ []) 0 fresh).1

once_saved : save db none bson in_tx none (opened ∷ paid ∷ []) 0 fresh ≡ (ok tt, once)
unfolding save server String-discrete ℕ_discrete ◌>>=◌ lift wrapped
once_saved = refl

-- The same events again are refused, and the second strategy has used their positions up.
again_refused : save db none bson outside_tx none (opened ∷ paid ∷ []) 0 once ≡ (
  err (
      wrap
        (event_store_error Operation.save "account" 7 0)
        (sentinel event_conflict_from_other_save)),
  record once { position = 4 },
)
unfolding save server String-discrete ℕ_discrete ◌>>=◌ lift wrapped
again_refused = refl

fresh-IsStored : IsStored fresh
unfolding select
fresh-IsStored = record {
  ascends = omega arith;
  numbered = λ id. tt;
  counted = λ id. refl;
  present = λ id strm there. absurd cc;
}

save-Settled_example :
    Settled
      (server_laws {Any = ℕ})
      bson
      outside_tx
      (opened ∷ paid ∷ [])
      0
      2
      once
      (save db none bson outside_tx none (opened ∷ paid ∷ []) 0 once)
unfolding server_laws server select
save-Settled_example =
    save-Settled db server_laws none tt bson outside_tx none tt (opened ∷ paid ∷ []) 0 once

save-IsGapless_example : IsGapless once
unfolding server_laws server select
save-IsGapless_example =
    save-IsGapless db server_laws none tt bson none tt (opened ∷ paid ∷ []) 0 fresh refl

both_stored : All (Stores bson) (opened ∷ paid ∷ [])
both_stored = (stores, (stores, tt))
  where
    stores : Stores bson opened
    stores = (5 ∷ [], 0, refl, λ e. cc, refl, refl)

load-save_recorded_example :
    load bson db true 7 once ≡ (ok (recorded_after bson 0 (opened ∷ paid ∷ [])), once)
unfolding server_laws server select
load-save_recorded_example =
    load-save_recorded bson db server_laws none tt none tt in_tx opened (paid ∷ []) 0 [] fresh once
      once (map ok (select (whole_stream 7) once.events)) (fresh-IsStored, tt) both_stored
      once_saved refl
