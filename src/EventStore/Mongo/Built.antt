-- ===== src/EventStore/Mongo/Built.antt =====
-- eventstore/mongodb_v2: the documents that Save makes of a batch, and the positions they get.
use eventhorizon.Prelude.{
  ℕ, ◌+◌, suc, String, ◌≡◌, ◌≤◌, ◌<◌, refl, List, [], ◌∷◌, ◌++◌, length, arith, subst, ◌∙◌,
}
use eventhorizon.Errors.{ok}
use eventhorizon.Event.{Event}
use eventhorizon.EventStore.Mongo.Client.{Evt}
use eventhorizon.EventStore.Mongo.Building.{BsonCodec, new_evt, build, at_position, at_positions}

module _ {Any : Type 0} where
  -- Documents of one aggregate, next in line after the version `v`.
  abbrev pub IsNumbered : ℕ → ℕ → List (Evt Any) → Type 0
  IsNumbered id v [] = Unit
  IsNumbered id v (e ∷ es) = (e.aggregate_id ≡ id) × (e.version ≡ suc v) × IsNumbered id (suc v) es

  -- Positions that rise strictly, from above `lo` up to `hi`.
  abbrev pub Ascends : ℕ → List (Evt Any) → ℕ → Type 0
  Ascends lo [] hi = lo ≤ hi
  Ascends lo (e ∷ es) hi = (lo < e.position) × Ascends e.position es hi

  pub Ascends-append :
      (a b k : ℕ) (es fs : List (Evt Any))
      → Ascends a es b
      → Ascends b fs k
      → Ascends a (es ++ fs) k
  Ascends-append a b k [] [] h g = omega arith
  Ascends-append a b k [] (f ∷ fs) h g = (omega (arith, g.0), g.1)
  Ascends-append a b k (e ∷ es) fs h g = (h.0, Ascends-append e.position b k es fs h.1 g)

  pub Ascends-weaken : (a b k : ℕ) (es : List (Evt Any)) → Ascends a es b → b ≤ k → Ascends a es k
  Ascends-weaken a b k [] h le = omega arith
  Ascends-weaken a b k (e ∷ es) h le = (h.0, Ascends-weaken e.position b k es h.1 le)

  module _ (c : BsonCodec Any) where
    new_evt_lem :
        (e : Event Any) (d : Evt Any)
        → new_evt c e ≡ ok d
        → (d.aggregate_id ≡ e.aggregate_id) × (d.version ≡ e.version)
    unfolding new_evt
    new_evt_lem e d h = ground arith

    pub build-nil :
        (id : ℕ) (at : String) (original i : ℕ) (dbs : List (Evt Any))
        → build c id at original i [] ≡ ok dbs
        → dbs ≡ []
    unfolding build
    build-nil id at original i dbs h = ground arith

    pub build-cons :
        (id : ℕ) (at : String) (original i : ℕ) (e : Event Any) (es : List (Event Any))
        (dbs : List (Evt Any))
        → build c id at original i (e ∷ es) ≡ ok dbs
        → (made : Evt Any) × (rest : List (Evt Any)) × (new_evt c e ≡ ok made)
          × (build c id at original (i + 1) es ≡ ok rest)
          × (e.aggregate_id ≡ id)
          × (e.aggregate_type ≡ at)
          × (e.version ≡ original + i + 1)
          × (dbs ≡ made ∷ rest)
    unfolding build
    build-cons id at original i e es dbs h = ground arith

    pub build-IsNumbered :
        (id : ℕ) (at : String) (original i : ℕ) (es : List (Event Any)) (dbs : List (Evt Any))
        → build c id at original i es ≡ ok dbs
        → IsNumbered id (original + i) dbs × (length dbs ≡ length es)
    build-IsNumbered id at original i [] dbs h =
        let none_made : dbs ≡ [] = build-nil id at original i dbs h in rw (none_made) (tt, refl)
    build-IsNumbered id at original i (e ∷ es) dbs h =
        let later = build-IsNumbered id at original (i + 1) es in
        let (made, rest, made_ok, rest_ok, own, kind, next, whole) =
          build-cons id at original i e es dbs h in
        let (same_id, same_version) = new_evt_lem e made made_ok in
        let (numbered, count) = later rest rest_ok in
        let shift : original + (i + 1) ≡ suc (original + i) = omega arith in
        rw (whole) (
          (
            same_id ∙ own,
            same_version ∙ next ∙ omega arith,
            subst (λ v. IsNumbered id v rest) shift numbered,
          ),
          omega (arith, count),
        )

    pub length-at_positions :
        (p : ℕ) (es : List (Evt Any)) → length (at_positions c p es) ≡ length es
    unfolding at_positions
    length-at_positions p [] = refl
    length-at_positions p (e ∷ es) = omega (arith, length-at_positions (suc p) es)

    pub at_positions-Ascends :
        (p : ℕ) (es : List (Evt Any)) → Ascends p (at_positions c p es) (p + length es)
    unfolding at_positions at_position
    at_positions-Ascends p [] = omega arith
    at_positions-Ascends p (e ∷ es) = (
      omega arith,
      Ascends-weaken (suc p) (suc p + length es) _ (at_positions c (suc p) es)
          (at_positions-Ascends (suc p) es) (omega arith),
    )

    pub at_positions-IsNumbered :
        (p id v : ℕ) (es : List (Evt Any))
        → IsNumbered id v es
        → IsNumbered id v (at_positions c p es)
    unfolding at_positions at_position
    at_positions-IsNumbered p id v [] h = tt
    at_positions-IsNumbered p id v (e ∷ es) h =
        (h.0, h.1, at_positions-IsNumbered (suc p) id (suc v) es h.2)
