-- ===== src/Outbox/Processing.antt =====
-- The loop of processOutboxEvent over the handlers: which names it returns.
use mathlib.Core.List.{Memᴰ}
use eventhorizon.Prelude.{
  ◌≤◌, String, String-discrete, ◌≡◌, refl, ap, ◌∙◌, ◌≢◌, ◌⊎◌, inl, inr, some, Option-cases,
  Bool-cases, List, [], ◌∷◌, if_pos, if_neg, length, arith,
}
use eventhorizon.Prelude.Maps.{Map}
use eventhorizon.Errors.{Err, Result, Result-cases, ok, err, panic}
use eventhorizon.Event.{Event}
use eventhorizon.Matcher.{matches}
use eventhorizon.Outbox.{MatcherHandler, without, without_all, after_call, run_handlers}

pub mem_dec : (name : String) (hs : List String) → Dec (Memᴰ name hs)
mem_dec name [] = no (λ m. elim m [ ])
mem_dec name (h ∷ hs) =
    let rest = mem_dec name hs in
    elim (String-discrete name h) [
      | yes p ↦ yes (Memᴰ.head p)
      | no n ↦ elim rest [ yes m ↦ yes (Memᴰ.tail m) | no k ↦ no (not_cons n k) ]
    ]
  where
    not_cons : name ≢ h → ¬ Memᴰ name hs → Memᴰ name (h ∷ hs) → ⊥
    not_cons n k (Memᴰ.head p) = n p
    not_cons n k (Memᴰ.tail m) = k m

mem_tail : (name h : String) (hs : List String) → name ≢ h → Memᴰ name (h ∷ hs) → Memᴰ name hs
mem_tail name h hs n (Memᴰ.head p) = absurd (n p)
mem_tail name h hs n (Memᴰ.tail m) = m

mem_cons :
    (name h : String) (hs ks : List String)
    → (Memᴰ name hs → Memᴰ name ks)
    → Memᴰ name (h ∷ hs)
    → Memᴰ name (h ∷ ks)
mem_cons name h hs ks f (Memᴰ.head p) = Memᴰ.head p
mem_cons name h hs ks f (Memᴰ.tail m) = Memᴰ.tail (f m)

-- Taking out another name leaves a name in the list.
without-others :
    (p name : String) (hs : List String) → name ≢ p → Memᴰ name hs → Memᴰ name (without p hs)
unfolding without
without-others p name [] n m = elim m [ ]
without-others p name (h ∷ hs) n m =
    let rest = without-others p name hs n in
    elim (String-discrete h p) [
      | yes q ↦
          rw (if_pos (String-discrete h p) q (without p hs) (h ∷ without p hs))
            (rest (mem_tail name h hs (λ e. n (e ∙ q)) m))
      | no q ↦
          rw (if_neg (String-discrete h p) q (without p hs) (h ∷ without p hs))
            (mem_cons name h hs (without p hs) rest m)
    ]

pub without_all-others :
    (ps : List String) (name : String) (hs : List String)
    → ¬ Memᴰ name ps
    → Memᴰ name hs
    → Memᴰ name (without_all ps hs)
unfolding without_all
without_all-others [] name hs n m = m
without_all-others (p ∷ ps) name hs n m =
    without_all-others ps name (without p hs) (λ k. n (Memᴰ.tail k))
      (without-others p name hs (λ e. n (Memᴰ.head e)) m)

-- The names that were processed are the list with some left out.
pub data Sub : List String → List String → Type 0 where
  nothing : Sub [] []
  keep : (n : String) (ps ns : List String) → Sub ps ns → Sub (n ∷ ps) (n ∷ ns)
  skip : (n : String) (ps ns : List String) → Sub ps ns → Sub ps (n ∷ ns)

Sub-length : (ps ns : List String) → Sub ps ns → length ps ≤ length ns
Sub-length _ _ Sub.nothing = omega arith
Sub-length _ _ (Sub.keep n ps ns s) = omega (arith, Sub-length ps ns s)
Sub-length _ _ (Sub.skip n ps ns s) = omega (arith, Sub-length ps ns s)

-- As many names as there are in the list are all of them.
pub Sub-all : (ps ns : List String) → Sub ps ns → length ps ≡ length ns → ps ≡ ns
Sub-all _ _ Sub.nothing e = refl
Sub-all _ _ (Sub.keep n ps ns s) e = ap (λ x. n ∷ x) (Sub-all ps ns s (omega arith))
Sub-all _ _ (Sub.skip n ps ns s) e = absurd (omega (arith, Sub-length ps ns s))

after_call-ok :
    {W : Type 0} (name : String) (r : Result (Unit {0}))
    (rest : List Err × W → Result (List String) × (List Err × W)) (s : List Err × W)
    (ps : List String)
    → (after_call name r rest s).0 ≡ ok ps
    → ((r ≡ ok tt) × (qs : List String) × ((rest s).0 ≡ ok qs) × (ps ≡ name ∷ qs))
      ⊎ ((t : List Err × W) × ((rest t).0 ≡ ok ps))
unfolding after_call
after_call-ok name (ok _) rest s ps h = elim (Result-cases (rest s).0) [
  | inl (qs, p) ↦ inl (refl, qs, p, ground arith)
  | inr (inl (x, p)) ↦ absurd (ground arith)
  | inr (inr p) ↦ absurd (ground arith)
]
after_call-ok name (err x) rest (errors, w) ps h = inr (_, h)
after_call-ok name panic rest s ps h = absurd (cc)

module _ {Any W : Type 0} where
  -- The names that the loop returns are those in the list, some left out.
  pub ran :
      (by_type : Map String (MatcherHandler Any W)) (event : Event Any) (names : List String)
      (s : List Err × W) (ps : List String)
      → (run_handlers by_type event names s).0 ≡ ok ps
      → Sub ps names
  unfolding run_handlers
  ran by_type event [] s ps h = let empty : ps ≡ [] = cc in rw empty Sub.nothing
  ran by_type event (name ∷ names) (errors, w) ps h =
      let later = ran by_type event names in
      elim (Option-cases (by_type name)) [
        | inl gone ↦ Sub.skip name ps names (later (errors, w) ps (ground arith))
        | inr (handler, known) ↦ elim (Bool-cases (matches handler.matcher (some event))) [
          | inr other ↦ Sub.skip name ps names (later (errors, w) ps (ground arith))
          | inl matching ↦
              let (r, w') = handler.handler.handle event w in
              elim (after_call-ok name r (run_handlers by_type event names) (errors, w') ps
                (ground arith)) [
                  | inl (done, qs, p, split) ↦
                      rw split (Sub.keep name qs names (later (errors, w') qs p))
                  | inr (t, p) ↦ Sub.skip name ps names (later t ps p)
                ]
        ]
      ]
