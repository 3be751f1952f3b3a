-- ===== src/Matcher/Laws.antt =====
-- Which events the matchers of matcher.go accept.
use mathlib.Core.List.{Memᴰ}
use eventhorizon.Prelude.{
  String, String-discrete, ◌≡◌, refl, ◌↔◌, ◌⊎◌, inl, inr, if_neg, true, false, Option, none, some,
  List, [], ◌∷◌, arith, Bool-cases,
}
use eventhorizon.Event.{Event}
use eventhorizon.Matcher.{
  Matcher, Matchers, nil, cons, match_events, match_aggregates, match_any, match_all, match_func,
  match_names, matches, matches_any, matches_all,
}

module _ {Any : Type 0} where
  -- What a matcher accepts, said without an order of evaluation.
  abbrev mutual
    pub Accepts : Matcher Any → Option (Event Any) → Type 0
    Accepts (match_events types) none = ⊥
    Accepts (match_events types) (some e) = Memᴰ e.event_type types
    Accepts (match_aggregates types) none = ⊥
    Accepts (match_aggregates types) (some e) = Memᴰ e.aggregate_type types
    Accepts (match_any ms) e = AcceptsAny ms e
    Accepts (match_all ms) e = AcceptsAll ms e
    Accepts (match_func f) e = f e ≡ true

    pub AcceptsAny : Matchers Any → Option (Event Any) → Type 0
    AcceptsAny nil e = ⊥
    AcceptsAny (cons m ms) e = Accepts m e ⊎ AcceptsAny ms e

    pub AcceptsAll : Matchers Any → Option (Event Any) → Type 0
    AcceptsAll nil e = Unit
    AcceptsAll (cons m ms) e = Accepts m e × AcceptsAll ms e

  match_names-sound :
      (field : Event Any → String) (types : List String) (e : Event Any)
      → match_names field types (some e) ≡ true
      → Memᴰ (field e) types
  unfolding match_names
  match_names-sound field [] e h = absurd (cc)
  match_names-sound field (t ∷ ts) e h = elim (String-discrete (field e) t) [
    | yes p ↦ Memᴰ.head p
    | no p ↦ Memᴰ.tail (match_names-sound field ts e (rw (if_neg _ p) at h))
  ]

  match_names_complete :
      (field : Event Any → String) (types : List String) (e : Event Any)
      → Memᴰ (field e) types
      → match_names field types (some e) ≡ true
  unfolding match_names
  match_names_complete field [] e m = elim m [ ]
  match_names_complete field (t ∷ ts) e (Memᴰ.head p) = ground arith
  match_names_complete field (t ∷ ts) e (Memᴰ.tail m) =
      ground (arith, match_names_complete field ts e m)

  match_names-none :
      (field : Event Any → String) (types : List String) → match_names field types none ≡ false
  unfolding match_names
  match_names-none field [] = refl
  match_names-none field (t ∷ ts) = match_names-none field ts

  mutual
    unfolding matches

    sound : (m : Matcher Any) (e : Option (Event Any)) → matches m e ≡ true → Accepts m e
    sound (match_events types) none h = ground (arith, match_names-none (λ x. x.event_type) types)
    sound (match_events types) (some e) h = match_names-sound (λ x. x.event_type) types e h
    sound (match_aggregates types) none h =
        ground (arith, match_names-none (λ x. x.aggregate_type) types)
    sound (match_aggregates types) (some e) h = match_names-sound (λ x. x.aggregate_type) types e h
    sound (match_any ms) e h = sound_any ms e h
    sound (match_all ms) e h = sound_all ms e h
    sound (match_func f) e h = h

    sound_any :
        (ms : Matchers Any) (e : Option (Event Any)) → matches_any ms e ≡ true → AcceptsAny ms e
    sound_any nil e h = absurd (cc)
    sound_any (cons m ms) e h = elim (Bool-cases (matches m e)) [
      | inl t ↦ inl (sound m e t)
      | inr f ↦ inr (sound_any ms e (ground arith))
    ]

    sound_all :
        (ms : Matchers Any) (e : Option (Event Any)) → matches_all ms e ≡ true → AcceptsAll ms e
    sound_all nil e h = tt
    sound_all (cons m ms) e h = (sound m e (ground arith), sound_all ms e (ground arith))

  mutual
    unfolding matches

    complete : (m : Matcher Any) (e : Option (Event Any)) → Accepts m e → matches m e ≡ true
    complete (match_events types) none h = absurd h
    complete (match_events types) (some e) h = match_names_complete (λ x. x.event_type) types e h
    complete (match_aggregates types) none h = absurd h
    complete (match_aggregates types) (some e) h =
        match_names_complete (λ x. x.aggregate_type) types e h
    complete (match_any ms) e h = complete_any ms e h
    complete (match_all ms) e h = complete_all ms e h
    complete (match_func f) e h = h

    complete_any :
        (ms : Matchers Any) (e : Option (Event Any)) → AcceptsAny ms e → matches_any ms e ≡ true
    complete_any nil e h = absurd h
    complete_any (cons m ms) e (inl a) = rw (complete m e a)
    complete_any (cons m ms) e (inr a) = ground (arith, complete_any ms e a)

    complete_all :
        (ms : Matchers Any) (e : Option (Event Any)) → AcceptsAll ms e → matches_all ms e ≡ true
    complete_all nil e h = refl
    complete_all (cons m ms) e h = rw (complete m e h.0) (complete_all ms e h.1)

  -- A matcher matches an event exactly if it accepts it: one of the named types is the event's, some
  -- matcher of MatchAny accepts it, or every matcher of MatchAll does. No type is that of a nil event.
  pub matches_iff : (m : Matcher Any) (e : Option (Event Any)) → (matches m e ≡ true) ↔ Accepts m e
  matches_iff m e = (sound m e, complete m e)
