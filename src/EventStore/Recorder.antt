-- ===== src/EventStore/Recorder.antt =====
-- eventstore/recorder/eventstore.go: an event store around another one that records what it saves. A
-- save keeps pointers to its records and marks them when the inner save is over, when the log may have
-- grown or been reset; so each record has a ticket of its own. The inner save acts on the recorder,
-- too: the event handlers of the inner store may save through it.
pub mod Marking
mod Tests
use eventhorizon.Prelude.{
  ℕ, ◌+◌, Bool, true, false, ◌&&◌, Option, none, some, List, [], ◌∷◌, ◌++◌, leb, ltb, if◌then◌else◌,
  length,
}
use eventhorizon.Errors.{Err, Result, ok, err, panic, Action}
use eventhorizon.Event.{Event}

pub data Status : Type 0 where
  pending succeeded failed : Status

pub record EventRecord (Any : Type 0) : Type 0 where
  pub ticket : ℕ
  pub recorded : Event Any
  pub status : Status
  pub failure : Option Err

-- The recorder, beside the state of the inner store.
pub record Recorder (Any S : Type 0) : Type 0 where
  pub recording : Bool
  pub records : List (EventRecord Any)
  pub next_ticket : ℕ
  pub inner : S

same_status : Status → Status → Bool
same_status pending pending = true
same_status succeeded succeeded = true
same_status failed failed = true
same_status _ _ = false

module _ {Any : Type 0} where
  pub pending_records : ℕ → List (Event Any) → List (EventRecord Any)
  pending_records n [] = []
  pending_records n (e ∷ es) =
      record { ticket = n; recorded = e; status = pending; failure = none }
      ∷ pending_records (n + 1) es

  -- The loop that marks the records of one save: the tickets from `lo` on, up to `hi`.
  pub mark :
      ℕ → ℕ → (EventRecord Any → EventRecord Any) → List (EventRecord Any) → List (EventRecord Any)
  mark lo hi f [] = []
  mark lo hi f (x ∷ xs) = (if leb lo x.ticket && ltb x.ticket hi then f x else x) ∷ mark lo hi f xs

  pub mark_failed : Err → EventRecord Any → EventRecord Any
  mark_failed x r = record r { status = failed; failure = some x }

  pub mark_succeeded : EventRecord Any → EventRecord Any
  mark_succeeded r = record r { status = succeeded }

  pub by_status : Status → List (EventRecord Any) → List (Event Any)
  unfolding same_status
  by_status status [] = []
  by_status status (r ∷ rs) =
      let rest = by_status status rs in
      if same_status r.status status then r.recorded ∷ rest else rest

module _ {Any S : Type 0} where
  unfoldable pub new_recorder : S → Recorder Any S
  new_recorder s = record { recording = false; records = []; next_ticket = 0; inner = s }

  -- The end of Save, by what the inner save returned.
  pub marked : ℕ → ℕ → Result (Unit {0}) × Recorder Any S → Result (Unit {0}) × Recorder Any S
  unfolding mark mark_failed mark_succeeded
  marked lo hi (ok _, r) = (ok tt, record r { records = mark lo hi mark_succeeded r.records })
  marked lo hi (err x, r) = (err x, record r { records = mark lo hi (mark_failed x) r.records })
  marked lo hi (panic, r) = (panic, r)

  pub record_pending : List (Event Any) → Recorder Any S → Recorder Any S
  unfolding pending_records
  record_pending events r = record r {
    records = r.records ++ pending_records r.next_ticket events;
    next_ticket = r.next_ticket + length events;
  }

  unfoldable pub save :
      (List (Event Any) → ℕ → Action (Recorder Any S) (Unit {0}))
      → List (Event Any)
      → ℕ
      → Action (Recorder Any S) (Unit {0})
  unfolding marked record_pending
  save save_inner events version r =
      if r.recording
      then marked r.next_ticket (r.next_ticket + length events)
          (save_inner events version (record_pending events r))
      else save_inner events version r

  unfoldable pub start_recording : Recorder Any S → Recorder Any S
  start_recording r = record r { recording = true }

  unfoldable pub stop_recording : Recorder Any S → Recorder Any S
  stop_recording r = record r { recording = false }

  abbrev pub full_recording : Recorder Any S → List (EventRecord Any)
  full_recording r = r.records

  unfoldable pub pending_events : Recorder Any S → List (Event Any)
  unfolding by_status
  pending_events r = by_status pending r.records

  unfoldable pub successful_events : Recorder Any S → List (Event Any)
  unfolding by_status
  successful_events r = by_status succeeded r.records

  unfoldable pub failed_events : Recorder Any S → List (Event Any)
  unfolding by_status
  failed_events r = by_status failed r.records

  unfoldable pub reset_trace : Recorder Any S → Recorder Any S
  reset_trace r = record r { records = [] }
