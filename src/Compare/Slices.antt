-- ===== src/Compare/Slices.antt =====
-- compare.go: two events compare as equal if they are equal in the fields that count.
use eventhorizon.Prelude.{
  ℕ_discrete, ◌≡◌, ◌≢◌, ◌⊎◌, inl, inr, sym, ◌∙◌, if_pos, length-map, refl, ap, true, false, Option,
  List, [], ◌∷◌, length, map, arith,
}
use eventhorizon.Errors.{Err, Result-cases, Result, ok, err, panic}
use eventhorizon.Event.{Event}
use eventhorizon.Compare.Same.{Ignoring, options, AllSame}
use eventhorizon.Compare.Counting.{counted, head_eq, tail_eq, map-counted_iff}
use eventhorizon.Compare.{
  CompareConfig, CompareOption, DeepEqual, DeepEqualLaws, configure, zero_config, compare_with,
  compare_events, compare_each, unless_error, compare_event_slices,
}

ok-ne-err : (x : Err) → ◌≢◌ {A = Result (Unit {0})} (ok tt) (err x)
ok-ne-err x h = cc

module _ {Any : Type 0} where
  module _ (r : DeepEqual Any) (l : DeepEqualLaws r) where
    compare_with-fields :
        (opts : CompareConfig) (e1 e2 : Event Any)
        → compare_with r opts e1 e2 ≡ ok tt
        → (e1.event_type ≡ e2.event_type)
          × (r.same_data e1.payload e2.payload ≡ true)
          × ((counted opts e1).timestamp ≡ (counted opts e2).timestamp)
          × (e1.aggregate_type ≡ e2.aggregate_type)
          × (e1.aggregate_id ≡ e2.aggregate_id)
          × ((counted opts e1).version ≡ (counted opts e2).version)
          × (r.same_metadata (counted opts e1).metadata (counted opts e2).metadata ≡ true)
    unfolding compare_with
    compare_with-fields opts e1 e2 h = ground arith

    compare_with-ne-panic :
        (opts : CompareConfig) (e1 e2 : Event Any) → compare_with r opts e1 e2 ≢ panic
    unfolding compare_with
    compare_with-ne-panic opts e1 e2 = λ h. ground arith

    compare_with-ok :
        (opts : CompareConfig) (e1 e2 : Event Any)
        → compare_with r opts e1 e2 ≡ ok tt
        → counted opts e1 ≡ counted opts e2
    compare_with-ok opts e1 e2 h =
        let (same_type, given, timestamp, kind, id, version, metadata) =
          compare_with-fields opts e1 e2 h in
        let payload = (l.data_iff e1.payload e2.payload).0 given in
        let noted = (l.metadata_iff _ _).0 metadata in cc

    compare_with-equal :
        (opts : CompareConfig) (e1 e2 : Event Any)
        → counted opts e1 ≡ counted opts e2
        → compare_with r opts e1 e2 ≡ ok tt
    unfolding compare_with
    compare_with-equal opts e1 e2 h =
        let payload = (l.data_iff e1.payload e2.payload).1 (ap (λ e. e.payload) h) in
        let noted =
          (l.metadata_iff (counted opts e1).metadata (counted opts e2).metadata).1
            (ap (λ e. e.metadata) h) in
        let version = ap (λ e. e.version) h in
        let timestamp = ap (λ e. e.timestamp) h in
        let id = ap (λ e. e.aggregate_id) h in
        let kind = ap (λ e. e.aggregate_type) h in
        let same_type = ap (λ e. e.event_type) h in ground arith

    -- CompareEvents returns no error exactly if the fields that count are equal; it never panics.
    pub compare_events_lem :
        (e1 e2 : Event Any) (options : List (Option CompareOption))
        → ((compare_events r e1 e2 options ≡ ok tt)
            × (counted (configure options zero_config) e1
                ≡ counted (configure options zero_config) e2))
          ⊎ ((x : Err) × (compare_events r e1 e2 options ≡ err x)
              × (counted (configure options zero_config) e1
                  ≢ counted (configure options zero_config) e2))
    unfolding compare_events
    compare_events_lem e1 e2 options =
        let opts = configure options zero_config in
        elim (Result-cases (compare_with r opts e1 e2)) [
          | inl (b, e) ↦ inl (e, compare_with-ok opts e1 e2 e)
          | inr (inl (x, e)) ↦
              inr (x, e, λ h. ok-ne-err x (sym (compare_with-equal opts e1 e2 h) ∙ e))
          | inr (inr e) ↦ absurd (compare_with-ne-panic opts e1 e2 e)
        ]

    compare_each_lem :
        (es1 es2 : List (Event Any)) (options : List (Option CompareOption))
        → length es1 ≡ length es2
        → ((compare_each r options es1 es2 ≡ ok true)
            × (map (counted (configure options zero_config)) es1
                ≡ map (counted (configure options zero_config)) es2))
          ⊎ ((compare_each r options es1 es2 ≡ ok false)
              × (map (counted (configure options zero_config)) es1
                  ≢ map (counted (configure options zero_config)) es2))
    unfolding compare_each unless_error
    compare_each_lem [] [] options n = inl (refl, refl)
    compare_each_lem [] (e2 ∷ es2) options n = absurd (omega (arith, n))
    compare_each_lem (e1 ∷ es1) [] options n = absurd (omega (arith, n))
    compare_each_lem (e1 ∷ es1) (e2 ∷ es2) options n =
        let later = compare_each_lem es1 es2 options (omega (arith, n)) in
        elim (compare_events_lem e1 e2 options) [
          | inl (h, same) ↦ elim later [
            | inl (g, all) ↦
                inl (ap (λ m. unless_error m (compare_each r options es1 es2)) h ∙ g, cc)
            | inr (g, differ) ↦ inr (
              ap (λ m. unless_error m (compare_each r options es1 es2)) h ∙ g,
              λ q. differ (tail_eq q),
            )
          ]
          | inr (x, h, differ) ↦
              inr (
                ap (λ m. unless_error m (compare_each r options es1 es2)) h,
                λ q. differ (head_eq q),
              )
        ]

    compared_slices :
        (es1 es2 : List (Event Any)) (options : List (Option CompareOption))
        → ((compare_event_slices r es1 es2 options ≡ ok true)
            × (map (counted (configure options zero_config)) es1
                ≡ map (counted (configure options zero_config)) es2))
          ⊎ ((compare_event_slices r es1 es2 options ≡ ok false)
              × (map (counted (configure options zero_config)) es1
                  ≢ map (counted (configure options zero_config)) es2))
    unfolding compare_event_slices
    compared_slices es1 es2 options = elim (ℕ_discrete (length es1) (length es2)) [
      | yes n ↦
          rw (if_pos (ℕ_discrete (length es1) (length es2)) n) (compare_each_lem es1 es2 options n)
      | no n ↦ inr (ground arith, λ q. n (sym (length-map _ es1) ∙ ap length q ∙ length-map _ es2))
    ]

    -- With the options of the package, any of them nil, CompareEventSlices returns whether the slices
    -- have the same length and are the same events, place by place, apart from a timestamp, a version
    -- or the position in the metadata that the options say to ignore; no index is out of range.
    pub compare_event_slices_lem :
        (es1 es2 : List (Event Any)) (is : List (Option Ignoring))
        → ((compare_event_slices r es1 es2 (options is) ≡ ok true) × AllSame is es1 es2)
          ⊎ ((compare_event_slices r es1 es2 (options is) ≡ ok false) × (¬ AllSame is es1 es2))
    compare_event_slices_lem es1 es2 is =
        let (same, sames) = map-counted_iff is es1 es2 in
        elim (compared_slices es1 es2 (options is)) [
          | inl (h, all) ↦ inl (h, same all)
          | inr (h, differ) ↦ inr (h, λ all. differ (sames all))
        ]
