-- ===== src/Outbox/Effects.antt =====
-- What is true of the world after the loop of processOutboxEvent, if some handlers make it true and
-- none makes it untrue.
use mathlib.Core.List.{Memᴰ}
use eventhorizon.Prelude.{
  String, ◌≡◌, refl, ap, ◌∙◌, inl, inr, some, Option-cases, Bool-cases, List, [], ◌∷◌, arith, subst,
}
use eventhorizon.Prelude.Maps.{Map}
use eventhorizon.Errors.{Err, Result, Result-cases, ok, err, panic}
use eventhorizon.Event.{Event}
use eventhorizon.Matcher.{matches}
use eventhorizon.Outbox.{MatcherHandler, after_call, run_handlers}

module _ {W : Type 0} (P : W → Type 0) where
  after_call-keeps :
      (n : String) (r : Result (Unit {0}))
      (rest : List Err × W → Result (List String) × (List Err × W)) (s : List Err × W)
      → ((t : List Err × W) → P t.1 → P (rest t).1.1)
      → P s.1
      → P (after_call n r rest s).1.1
  unfolding after_call
  after_call-keeps n (ok _) rest s f p = f s p
  after_call-keeps n (err x) rest (errors, w) f p = f _ p
  after_call-keeps n panic rest s f p = p

  after_call-done :
      (name n : String) (r : Result (Unit {0}))
      (rest : List Err × W → Result (List String) × (List Err × W)) (s : List Err × W)
      (ps : List String)
      → (after_call n r rest s).0 ≡ ok ps
      → Memᴰ name ps
      → (name ≡ n → r ≡ ok tt → P s.1)
      → ((t : List Err × W) → P t.1 → P (rest t).1.1)
      → ((t : List Err × W) (qs : List String) → (rest t).0 ≡ ok qs → Memᴰ name qs → P (rest t).1.1)
      → P (after_call n r rest s).1.1
  unfolding after_call
  after_call-done name n (ok _) rest s ps h m brought kept later = elim (Result-cases (rest s).0) [
    | inl (qs, p) ↦
        let split : ps ≡ n ∷ qs = ground arith in
        elim (subst (Memᴰ name) split m) [
          | Memᴰ.head q ↦ kept s (brought q refl)
          | Memᴰ.tail k ↦ later s qs p k
        ]
    | inr (inl (x, p)) ↦ absurd (ground arith)
    | inr (inr p) ↦ absurd (ground arith)
  ]
  after_call-done name n (err x) rest (errors, w) ps h m brought kept later = later _ ps h m
  after_call-done name n panic rest s ps h m brought kept later = absurd cc

module _ {Any W : Type 0} where
  -- What is true of the world stays true in every call of a handler, with any event.
  abbrev pub IsKept : Map String (MatcherHandler Any W) → (W → Type 0) → Type 0
  IsKept by_type P =
      (n : String) (h : MatcherHandler Any W)
      → by_type n ≡ some h
      → (e : Event Any) (w : W) → P w
      → P (h.handler.handle e w).1

  -- It is true after every call of the handler of that name with the event that returns no error.
  abbrev pub IsBrought :
      Map String (MatcherHandler Any W) → Event Any → String → (W → Type 0) → Type 0
  IsBrought by_type event name P =
      (h : MatcherHandler Any W)
      → by_type name ≡ some h
      → (w v : W) → h.handler.handle event w ≡ (ok tt, v)
      → P v

  module _ (P : W → Type 0) where
    pub run_handlers-keeps :
        (by_type : Map String (MatcherHandler Any W)) (event : Event Any) (names : List String)
        (s : List Err × W)
        → IsKept by_type P
        → P s.1
        → P (run_handlers by_type event names s).1.1
    unfolding run_handlers
    run_handlers-keeps by_type event [] s kept p = p
    run_handlers-keeps by_type event (n ∷ names) (errors, w) kept p =
        let later = λ (t : List Err × W). run_handlers-keeps by_type event names t kept in
        elim (Option-cases (by_type n)) [
          | inl gone ↦ rw (run_handlers, gone) (later (errors, w) p)
          | inr (h, known) ↦ elim (Bool-cases (matches h.matcher (some event))) [
            | inr other ↦ rw (run_handlers, known, other) (later (errors, w) p)
            | inl matching ↦
                rw (run_handlers, known, matching)
                  (after_call-keeps P n (h.handler.handle event w).0
                    (run_handlers by_type event names) (errors, (h.handler.handle event w).1) later
                    (kept n h known event w p))
          ]
        ]

    -- If the loop returns a name, what a call of its handler brings about is true at the end.
    pub ran-done :
        (by_type : Map String (MatcherHandler Any W)) (event : Event Any) (name : String)
        (names : List String) (s : List Err × W) (ps : List String)
        → IsKept by_type P
        → IsBrought by_type event name P
        → (run_handlers by_type event names s).0 ≡ ok ps
        → Memᴰ name ps
        → P (run_handlers by_type event names s).1.1
    unfolding run_handlers
    ran-done by_type event name [] s ps kept brought h m =
        let empty : ps ≡ [] = cc in elim (subst (Memᴰ name) empty m) [ ]
    ran-done by_type event name (n ∷ names) (errors, w) ps kept brought h m =
        let later = λ (t : List Err × W) (qs : List String).
          ran-done by_type event name names t qs kept brought in
        elim (Option-cases (by_type n)) [
          | inl gone ↦ rw (run_handlers, gone) (later (errors, w) ps (ground arith) m)
          | inr (g, known) ↦ elim (Bool-cases (matches g.matcher (some event))) [
            | inr other ↦ rw (run_handlers, known, other) (later (errors, w) ps (ground arith) m)
            | inl matching ↦
                rw (run_handlers, known, matching)
                  (after_call-done P name n (g.handler.handle event w).0
                    (run_handlers by_type event names) (errors, (g.handler.handle event w).1) ps
                    (ground arith) m
                    (λ same done.
                      brought g (ap by_type same ∙ known) w (g.handler.handle event w).1
                        (ap (λ x. (x, (g.handler.handle event w).1)) done))
                    (λ t. run_handlers-keeps by_type event names t kept) later)
          ]
        ]
