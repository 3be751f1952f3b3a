-- ===== src/Matcher.antt =====
-- matcher.go: the matchers, as one data type, since MatchAny and MatchAll hold matchers. An event
-- that is nil is `none`. A matcher of code outside the package is a function.
pub mod Laws
mod Tests
use eventhorizon.Prelude.{
  String, String-discrete, ◌≡◌, refl, ap, Bool, true, false, not, ◌&&◌, ◌||◌, Option, none, some,
  List, [], ◌∷◌, ◌++◌, map, arith, if◌then◌else◌, ite,
}
use eventhorizon.Event.{Event}

mutual
  pub data Matcher (Any : Type 0) : Type 0 where
    match_events : List String → Matcher Any
    match_aggregates : List String → Matcher Any
    match_any : Matchers Any → Matcher Any
    match_all : Matchers Any → Matcher Any
    match_func : (Option (Event Any) → Bool) → Matcher Any

  pub data Matchers (Any : Type 0) : Type 0 where
    nil : Matchers Any
    cons : Matcher Any → Matchers Any → Matchers Any

module _ {Any : Type 0} where
  -- The loop of MatchEvents.Match and of MatchAggregates.Match over the field that it compares.
  match_names : (Event Any → String) → List String → Option (Event Any) → Bool
  match_names field [] e = false
  match_names field (t ∷ ts) none = match_names field ts none
  match_names field (t ∷ ts) (some e) =
      let rest = match_names field ts (some e) in ite (String-discrete (field e) t) true rest

  unfoldable mutual
    unfolding match_names

    pub matches : Matcher Any → Option (Event Any) → Bool
    matches (match_events types) e = match_names (λ x. x.event_type) types e
    matches (match_aggregates types) e = match_names (λ x. x.aggregate_type) types e
    matches (match_any ms) e = matches_any ms e
    matches (match_all ms) e = matches_all ms e
    matches (match_func f) e = f e

    pub matches_any : Matchers Any → Option (Event Any) → Bool
    matches_any nil e = false
    matches_any (cons m ms) e = let rest = matches_any ms e in if matches m e then true else rest

    pub matches_all : Matchers Any → Option (Event Any) → Bool
    matches_all nil e = true
    matches_all (cons m ms) e = let rest = matches_all ms e in if matches m e then rest else false
