-- ===== src/Compare/Tests.antt =====
-- compare.go on two events of an application that stores no data, so that metadata is nil or empty.
use eventhorizon.Prelude.{
  ℕ, String, String-discrete, ℕ_discrete, ◌≡◌, ◌⊎◌, refl, sym, ap, fun_ext, ◌∙◌, ◌↔◌, Bool, true,
  false, Option, none, some, [], ◌∷◌,
}
use eventhorizon.Prelude.Maps
use eventhorizon.Prelude.Maps.{Map}
use eventhorizon.Errors.{ok}
use eventhorizon.Event.{Event}
use eventhorizon.Compare.{DeepEqual, DeepEqualLaws, ignore_timestamp, compare_event_slices}
use eventhorizon.Compare.Same.{the_timestamp, options, AllSame}
use eventhorizon.Compare.Slices.{compare_event_slices_lem}

data NoData : Type 0 where

abbrev same_nil : {A : Type 0} → Option A → Option A → Bool
same_nil none none = true
same_nil none (some b) = false
same_nil (some a) none = false
same_nil (some a) (some b) = true

abbrev deep_equal : DeepEqual NoData
deep_equal = record { same_data = same_nil; same_metadata = same_nil }

-- Two values are equal if all of them are.
same_nil_iff :
    {A : Type 0} → ((a b : A) → a ≡ b) → (x y : Option A) → (same_nil x y ≡ true) ↔ (x ≡ y)
same_nil_iff one none none = (λ h. refl, λ h. refl)
same_nil_iff one none (some b) = (λ h. absurd cc, λ h. absurd cc)
same_nil_iff one (some a) none = (λ h. absurd cc, λ h. absurd cc)
same_nil_iff one (some a) (some b) = (λ h. ap some (one a b), λ h. refl)

no_data : (a b : NoData) → a ≡ b
no_data a b = elim a [ ]

no_entry : (o : Option NoData) → o ≡ none
no_entry none = refl
no_entry (some a) = elim a [ ]

no_metadata : (a b : Map String NoData) → a ≡ b
no_metadata a b = fun_ext λ k. no_entry (a k) ∙ sym (no_entry (b k))

deep_equal_laws : DeepEqualLaws deep_equal
deep_equal_laws = record {
  data_iff = same_nil_iff no_data;
  metadata_iff = same_nil_iff no_metadata;
}

abbrev event : ℕ → Option (Map String NoData) → Event NoData
event timestamp metadata = record {
  event_type = "opened";
  payload = none;
  timestamp = timestamp;
  aggregate_type = "account";
  aggregate_id = 7;
  version = 1;
  metadata = metadata;
}

-- The timestamps differ, and do not count.
equal_events :
    compare_event_slices deep_equal
      (event 1 none ∷ [])
      (event 2 none ∷ [])
      (some ignore_timestamp ∷ [])
    ≡ ok true
unfolding compare_event_slices ignore_timestamp String-discrete ℕ_discrete
equal_events = refl

-- A nil map is not an empty one.
different_metadata :
    compare_event_slices deep_equal (event 1 none ∷ []) (event 1 (some Maps.empty) ∷ []) []
    ≡ ok false
unfolding compare_event_slices String-discrete ℕ_discrete
different_metadata = refl

compare_event_slices_lem_example :
    ((compare_event_slices deep_equal
          (event 1 none ∷ [])
          (event 2 none ∷ [])
          (options (some the_timestamp ∷ []))
        ≡ ok true)
      × AllSame (some the_timestamp ∷ []) (event 1 none ∷ []) (event 2 none ∷ []))
    ⊎ ((compare_event_slices deep_equal
            (event 1 none ∷ [])
            (event 2 none ∷ [])
            (options (some the_timestamp ∷ []))
          ≡ ok false)
        × (¬ AllSame (some the_timestamp ∷ []) (event 1 none ∷ []) (event 2 none ∷ [])))
compare_event_slices_lem_example =
    compare_event_slices_lem deep_equal deep_equal_laws (event 1 none ∷ []) (event 2 none ∷ [])
      (some the_timestamp ∷ [])
