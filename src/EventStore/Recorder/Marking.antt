-- ===== src/EventStore/Recorder/Marking.antt =====
-- What a save records.
use eventhorizon.Prelude.{
  ℕ, ◌+◌, ◌≤◌, ◌<◌, ◌≡◌, refl, sym, ap, ◌∙◌, true, some, List, [], ◌∷◌, ◌++◌, map, All, length,
  if◌then◌else◌, arith,
}
use eventhorizon.Errors.{Result, ok, err, panic, Action}
use eventhorizon.Event.{Event}
use eventhorizon.EventStore.Recorder.{
  EventRecord, Recorder, pending_records, mark, mark_failed, mark_succeeded, marked, record_pending,
  save, succeeded, failed,
}

module _ {Any : Type 0} where
  mark-append :
      (lo hi : ℕ) (f : EventRecord Any → EventRecord Any) (xs ys : List (EventRecord Any))
      → mark lo hi f (xs ++ ys) ≡ mark lo hi f xs ++ mark lo hi f ys
  unfolding mark
  mark-append lo hi f [] ys = refl
  mark-append lo hi f (x ∷ xs) ys = rw (mark-append lo hi f xs ys) refl

  -- Tickets below or above the range are not touched.
  mark_below :
      (lo hi : ℕ) (f : EventRecord Any → EventRecord Any) (xs : List (EventRecord Any))
      → All (λ x. x.ticket < lo) xs
      → mark lo hi f xs ≡ xs
  unfolding mark
  mark_below lo hi f [] h = refl
  mark_below lo hi f (x ∷ xs) (h, hs) = let rest = mark_below lo hi f xs hs in ground arith

  mark_above :
      (lo hi : ℕ) (f : EventRecord Any → EventRecord Any) (xs : List (EventRecord Any))
      → All (λ x. hi ≤ x.ticket) xs
      → mark lo hi f xs ≡ xs
  unfolding mark
  mark_above lo hi f [] h = refl
  mark_above lo hi f (x ∷ xs) (h, hs) = let rest = mark_above lo hi f xs hs in ground arith

  mark_range :
      (lo n hi : ℕ) (f : EventRecord Any → EventRecord Any) (es : List (Event Any))
      → lo ≤ n
      → n + length es ≤ hi
      → mark lo hi f (pending_records n es) ≡ map f (pending_records n es)
  unfolding mark pending_records
  mark_range lo n hi f [] l h = refl
  mark_range lo n hi f (e ∷ es) l h =
      let rest = mark_range lo (n + 1) hi f es (omega arith) (omega arith) in ground arith

  -- What is recorded for a save that returned this.
  abbrev pub record_as : Result (Unit {0}) → EventRecord Any → EventRecord Any
  record_as (ok _) r = record r { status = succeeded }
  record_as (err x) r = record r { status = failed; failure = some x }
  record_as panic r = r

  marked_list :
      (lo : ℕ) (f : EventRecord Any → EventRecord Any) (old more : List (EventRecord Any))
      (es : List (Event Any))
      → All (λ x. x.ticket < lo) old
      → All (λ x. lo + length es ≤ x.ticket) more
      → mark lo (lo + length es) f ((old ++ pending_records lo es) ++ more)
        ≡ (old ++ map f (pending_records lo es)) ++ more
  marked_list lo f old more es below above =
      rw
        (
          mark-append lo (lo + length es) f (old ++ pending_records lo es) more,
          mark-append lo (lo + length es) f old (pending_records lo es),
          mark_below lo (lo + length es) f old below,
          mark_range lo lo (lo + length es) f es (omega arith) (omega arith),
          mark_above lo (lo + length es) f more above,
        )
        refl

  map-same : (xs : List (EventRecord Any)) → map (record_as panic) xs ≡ xs
  map-same [] = refl
  map-same (x ∷ xs) = ap (λ ys. x ∷ ys) (map-same xs)

module _ {Any S : Type 0} where
  marked_lem :
      (events : List (Event Any)) (lo : ℕ) (done : Result (Unit {0})) (t : Recorder Any S)
      (old more : List (EventRecord Any))
      → All (λ x. x.ticket < lo) old
      → All (λ x. lo + length events ≤ x.ticket) more
      → t.records ≡ (old ++ pending_records lo events) ++ more
      → marked lo (lo + length events) (done, t) ≡ (
        done,
        record t { records = (old ++ map (record_as done) (pending_records lo events)) ++ more },
      )
  unfolding marked mark_succeeded mark_failed
  marked_lem events lo (ok u) t old more below above h =
      ap (λ x. (ok tt, record t { records = x }))
        (ap (mark lo (lo + length events) mark_succeeded) h
          ∙ marked_list lo mark_succeeded old more events below above)
  marked_lem events lo (err x) t old more below above h =
      ap (λ y. (err x, record t { records = y }))
        (ap (mark lo (lo + length events) (mark_failed x)) h
          ∙ marked_list lo (mark_failed x) old more events below above)
  marked_lem events lo panic t old more below above h =
      ap (λ y. (panic, record t { records = y }))
        (h ∙ ap (λ y. (old ++ y) ++ more) (sym (map-same (pending_records lo events))))

  -- While it records, Save returns what the inner save returns, and its log has, after what it had
  -- before, the events of this save in order, as succeeded or as failed with the error, as pending
  -- after a panic, and then whatever saves within the inner save have recorded.
  pub save_recorded :
      (save_inner : List (Event Any) → ℕ → Action (Recorder Any S) (Unit {0}))
      (events : List (Event Any)) (version : ℕ) (r t : Recorder Any S) (done : Result (Unit {0}))
      (more : List (EventRecord Any))
      → r.recording ≡ true
      → All (λ x. x.ticket < r.next_ticket) r.records
      → save_inner events version (record_pending events r) ≡ (done, t)
      → t.records ≡ (r.records ++ pending_records r.next_ticket events) ++ more
      → All (λ x. r.next_ticket + length events ≤ x.ticket) more
      → save save_inner events version r ≡ (
        done,
        record t {
          records =
              (r.records ++ map (record_as done) (pending_records r.next_ticket events)) ++ more;
        },
      )
  unfolding save
  save_recorded save_inner events version r t done more on below inner h above =
      ap
        (λ b.
          if b
          then marked r.next_ticket (r.next_ticket + length events)
              (save_inner events version (record_pending events r))
          else save_inner events version r)
        on
      ∙ ap (marked r.next_ticket (r.next_ticket + length events)) inner
      ∙ marked_lem events r.next_ticket done t r.records more below above h
