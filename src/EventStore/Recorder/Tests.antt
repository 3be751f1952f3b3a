-- ===== src/EventStore/Recorder/Tests.antt =====
-- A recorder around a store that counts its saves.
use eventhorizon.Prelude.{ℕ, suc, ◌≡◌, refl, true, List, [], ◌∷◌, ◌++◌, map}
use eventhorizon.Errors.{ok, Action}
use eventhorizon.Event.{Event}
use eventhorizon.Samples.{opened, paid}
use eventhorizon.EventStore.Recorder.{
  Recorder, EventRecord, pending_records, record_pending, save, start_recording, new_recorder,
  successful_events,
}
use eventhorizon.EventStore.Recorder.Marking.{record_as, save_recorded}

abbrev counting : List (Event ℕ) → ℕ → Action (Recorder ℕ ℕ) (Unit {0})
counting events version r = (ok tt, record r { inner = suc r.inner })

abbrev started : Recorder ℕ ℕ
started = record { recording = true; records = []; next_ticket = 0; inner = 0 }

started_made : start_recording (new_recorder 0) ≡ started
unfolding start_recording new_recorder
started_made = refl

two_recorded :
    successful_events (save counting (opened ∷ paid ∷ []) 0 started).1 ≡ opened ∷ paid ∷ []
unfolding save successful_events
two_recorded = refl

save_recorded_example : save counting (opened ∷ paid ∷ []) 0 started ≡ (
  ok tt,
  record (counting (opened ∷ paid ∷ []) 0 (record_pending (opened ∷ paid ∷ []) started)).1 {
    records = ([] ++ map (record_as (ok tt)) (pending_records 0 (opened ∷ paid ∷ []))) ++ [];
  },
)
unfolding eventhorizon.EventStore.Recorder.record_pending
save_recorded_example =
    save_recorded counting (opened ∷ paid ∷ []) 0 started
      (counting (opened ∷ paid ∷ []) 0 (record_pending (opened ∷ paid ∷ []) started)).1 (ok tt) []
      refl tt refl refl tt
