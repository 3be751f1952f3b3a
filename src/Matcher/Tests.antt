-- ===== src/Matcher/Tests.antt =====
-- A matcher of events of an aggregate type.
use eventhorizon.Prelude.{ℕ, ◌≡◌, ◌↔◌, true, some, [], ◌∷◌}
use eventhorizon.Matcher.{Matcher, matches, match_all, match_events, match_aggregates, nil, cons}
use eventhorizon.Matcher.Laws.{Accepts, matches_iff}
use eventhorizon.Samples.{paid}

abbrev both : Matcher ℕ
both =
    match_all
      (cons (match_events ("opened" ∷ "paid" ∷ [])) (cons (match_aggregates ("account" ∷ [])) nil))

matches_iff_example : (matches both (some paid) ≡ true) ↔ Accepts both (some paid)
matches_iff_example = matches_iff both (some paid)
