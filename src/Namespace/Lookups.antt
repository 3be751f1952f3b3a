-- ===== src/Namespace/Lookups.antt =====
-- namespace: callers that look up namespaces at the same time, in any order of their steps.
use eventhorizon.Prelude.{
  ℕ, String, ℕ_discrete, ◌≡◌, ◌≢◌, refl, subst, Option, none, some, arith, ite,
}
use eventhorizon.Prelude.Maps
use eventhorizon.Prelude.Maps.{Map}
use eventhorizon.Errors.{Result, ok, Action}
use eventhorizon.Namespace.{Instances, event_store_locked, install}

-- Where a caller stands: it has not begun, it found nothing under the read lock, or it is done.
pub data Pc (H : Type 0) : Type 0 where
  idle : Pc H
  missed : String → Pc H
  got : String → Result (Option H) → Pc H

pub record Callers (H W : Type 0) : Type 0 where
  pub shared : Instances H × W
  pub pc : ℕ → Pc H

abbrev pub update : {A : Type 0} → (ℕ → A) → ℕ → A → ℕ → A
update f i a j = ite (ℕ_discrete i j) a (f j)

-- The look under the read lock.
unfoldable pub first_look : {H : Type 0} → String → Instances H → Pc H
first_look ns m = elim (m ns) [ some h ↦ got ns (ok (some h)) | none ↦ missed ns ]

got-got :
    {H : Type 0} (ns at : String) (p q : Result (Option H))
    → got ns p ≡ got at q
    → (ns ≡ at) × (p ≡ q)
got-got ns at p q h = (cc, cc)

first_look-got :
    {H : Type 0} (ns at : String) (m : Instances H) (r : Option H)
    → first_look ns m ≡ got at (ok r)
    → (r ≢ none) × (m at ≡ r)
unfolding first_look
first_look-got ns at m r h = (λ e. ground arith, ground arith)

module _ {H W : Type 0} where
  module _ (locked : String → Action (Instances H × W) (Option H)) where
    pub data Step (s : Callers H W) : Callers H W → Type 0 where
      look :
          (i : ℕ) (ns : String)
          → s.pc i ≡ idle
          → Step s (record s { pc = update s.pc i (first_look ns s.shared.0) })
      lock :
          (i : ℕ) (ns : String)
          → s.pc i ≡ missed ns
          → Step s (record {
            shared = (locked ns s.shared).1;
            pc = update s.pc i (got ns (locked ns s.shared).0);
          })

    pub data Reach (w : W) : Callers H W → Type 0 where
      start : Reach w (record { shared = (Maps.empty, w); pc = λ i. idle })
      next : {s t : Callers H W} → Reach w s → Step s t → Reach w t

  -- Every caller that is done without an error has the instance that is stored.
  abbrev Agreed : Callers H W → Type 0
  Agreed s =
      (i : ℕ) (ns : String) (r : Option H)
      → s.pc i ≡ got ns (ok r)
      → (r ≢ none) × (s.shared.0 ns ≡ r)

  module _ (factory : String → Action W H) where
    locked-keeps :
        (ns at : String) (s : Instances H × W) (h : H)
        → s.0 at ≡ some h
        → (event_store_locked factory ns s).1.0 at ≡ some h
    unfolding event_store_locked install
    locked-keeps ns at s h there = ground arith

    locked-got :
        (ns : String) (s : Instances H × W) (r : Option H)
        → (event_store_locked factory ns s).0 ≡ ok r
        → (r ≢ none) × ((event_store_locked factory ns s).1.0 ns ≡ r)
    unfolding event_store_locked install
    locked-got ns s r h = (λ e. ground arith, ground arith)

    locked-keeps_found :
        (ns at : String) (s : Instances H × W) (r : Option H)
        → r ≢ none
        → s.0 at ≡ r
        → (event_store_locked factory ns s).1.0 at ≡ r
    locked-keeps_found ns at s none some_r there = absurd (some_r refl)
    locked-keeps_found ns at s (some h) some_r there = locked-keeps ns at s h there

    Step-Agreed : (s t : Callers H W) → Agreed s → Step (event_store_locked factory) s t → Agreed t
    Step-Agreed s _ h (look i ns at_start) j at r e = elim (ℕ_discrete i j) [
      | yes same ↦ first_look-got ns at s.shared.0 r (ground arith)
      | no other ↦ h j at r (ground arith)
    ]
    Step-Agreed s _ h (lock i ns missed_it) j at r e = elim (ℕ_discrete i j) [
      | yes same ↦
          let (same_ns, result) = got-got ns at _ (ok r) (ground arith) in
          let (some_r, there) = locked-got ns s.shared r result in
          (some_r, subst (λ x. (event_store_locked factory ns s.shared).1.0 x ≡ r) same_ns there)
      | no other ↦
          let (some_r, there) = h j at r (ground arith) in
          (some_r, locked-keeps_found ns at s.shared r some_r there)
    ]

    -- However the callers of EventStore.eventStore interleave, all that get a store for a namespace
    -- get the one that is stored for it, which is never nil.
    pub Reach-Agreed :
        {w : W} {s : Callers H W}
        → Reach (event_store_locked factory) w s
        → (i : ℕ) (ns : String) (r : Option H) → s.pc i ≡ got ns (ok r)
        → (r ≢ none) × (s.shared.0 ns ≡ r)
    Reach-Agreed start i ns r e = absurd cc
    Reach-Agreed (next {s} {t} reach step) i ns r e =
        let before = Reach-Agreed reach in Step-Agreed s t before step i ns r e
