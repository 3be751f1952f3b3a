-- ===== src/Errors/Preserving.antt =====
-- Calls that keep a property of the state, whether they succeed, fail or panic.
use eventhorizon.Prelude.{sym, subst, inl, inr, ite}
use eventhorizon.Errors.{Wrapper, Result, Action}
use eventhorizon.Errors.Actions.{◌>>=◌, lift, wrapped, bind-cases}

-- A call that keeps a property of the state, however it ends.
abbrev pub Preserves : {S A : Type 0} → (S → Type 0) → Action S A → Type 0
Preserves P m = (s : _) → P s → P (m s).1

module _ {S A : Type 0} (P : S → Type 0) where
  pub lift-Preserves : (r : Result A) → Preserves P (lift r)
  unfolding lift
  lift-Preserves r s h = h

  pub wrapped-Preserves : (w : Wrapper) (m : Action S A) → Preserves P m → Preserves P (wrapped w m)
  unfolding wrapped
  wrapped-Preserves w m k s h = k s h

  pub bind-Preserves :
      {B : Type 0} (m : Action S A) (f : A → Action S B)
      → Preserves P m
      → ((a : A) → Preserves P (f a))
      → Preserves P (m >>= f)
  bind-Preserves m f k l s h = elim (bind-cases m f s) [
    | inl (_, _, same) ↦ subst P (sym same) (k s h)
    | inr (a, u, ran, rest) ↦ subst (λ p. P p.1) (sym rest) (l a u (subst (λ p. P p.1) ran (k s h)))
  ]

  pub ite-Preserves :
      {Q : Type 0} (dec : Dec Q) (m n : Action S A)
      → (Q → Preserves P m)
      → Preserves P n
      → Preserves P (ite dec m n)
  ite-Preserves (yes q) m n k l = k q
  ite-Preserves (no q) m n k l = l
