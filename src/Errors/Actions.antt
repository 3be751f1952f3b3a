-- ===== src/Errors/Actions.antt =====
-- A method as a sequence of calls: an error or a panic of a call ends the method, and what was
-- written before it stays written.
use eventhorizon.Prelude.{◌≡◌, ◌≢◌, ◌⊎◌, refl, ap, inl, inr}
use eventhorizon.Errors.{Result, ok, err, panic, Action, Wrapper, wrap_err, Result-cases}

module _ {S A : Type 0} where
  after : {B : Type 0} → (A → Action S B) → Result A × S → Result B × S
  after f (ok a, s) = f a s
  after f (err x, s) = (err x, s)
  after f (panic, s) = (panic, s)

  infixl 5 ◌>>=◌
  unfoldable pub ◌>>=◌ : {B : Type 0} → Action S A → (A → Action S B) → Action S B
  unfolding after
  ◌>>=◌ m f = λ s. after f (m s)

  -- A value, an error or a panic that no state has a part in.
  unfoldable pub lift : Result A → Action S A
  lift r s = (r, s)

  -- `if err != nil { return wrapper }` after a call.
  unfoldable pub wrapped : Wrapper → Action S A → Action S A
  wrapped w m s = let (r, t) = m s in (wrap_err w r, t)

  after-ok :
      {B : Type 0} (f : A → Action S B) (p : Result A × S) (b : B) (t : S)
      → after f p ≡ (ok b, t)
      → (a : A) × (s : S) × (p ≡ (ok a, s)) × (f a s ≡ (ok b, t))
  unfolding after
  after-ok f (ok a, s) b t h = (a, s, refl, h)
  after-ok f (err x, s) b t h = absurd cc
  after-ok f (panic, s) b t h = absurd cc

  pub bind-ok :
      {B : Type 0} (m : Action S A) (f : A → Action S B) (s : S) (b : B) (t : S)
      → (m >>= f) s ≡ (ok b, t)
      → (a : A) × (u : S) × (m s ≡ (ok a, u)) × (f a u ≡ (ok b, t))
  unfolding ◌>>=◌
  bind-ok m f s b t h = after-ok f (m s) b t h

  pub wrapped-ok :
      (w : Wrapper) (m : Action S A) (s : S) (a : A) (t : S)
      → wrapped w m s ≡ (ok a, t)
      → m s ≡ (ok a, t)
  unfolding wrapped
  wrapped-ok w m s a t h = elim (Result-cases (m s).0) [
    | inl (b, e) ↦ cc
    | inr (inl (x, e)) ↦ absurd cc
    | inr (inr e) ↦ absurd cc
  ]

  pub lift-ok : (r : Result A) (s : S) (a : A) (t : S) → lift r s ≡ (ok a, t) → (r ≡ ok a) × (s ≡ t)
  unfolding lift
  lift-ok r s a t h = (ap (λ p. p.0) h, ap (λ p. p.1) h)

  after-cases :
      {B : Type 0} (f : A → Action S B) (p : Result A × S)
      → (((a : A) → p.0 ≢ ok a) × ((b : B) → (after f p).0 ≢ ok b) × ((after f p).1 ≡ p.1))
        ⊎ ((a : A) × (u : S) × (p ≡ (ok a, u)) × (after f p ≡ f a u))
  unfolding after
  after-cases f (ok a, u) = inr (a, u, refl, refl)
  after-cases f (err x, u) = inl (λ a e. cc, λ b e. cc, refl)
  after-cases f (panic, u) = inl (λ a e. cc, λ b e. cc, refl)

  -- Either the first call fails, and all it did stays, or the second runs.
  pub bind-cases :
      {B : Type 0} (m : Action S A) (f : A → Action S B) (s : S)
      → (((a : A) → (m s).0 ≢ ok a)
          × ((b : B) → ((m >>= f) s).0 ≢ ok b)
          × (((m >>= f) s).1 ≡ (m s).1))
        ⊎ ((a : A) × (u : S) × (m s ≡ (ok a, u)) × ((m >>= f) s ≡ f a u))
  unfolding ◌>>=◌
  bind-cases m f s = after-cases f (m s)

  pub wrapped-fails :
      (w : Wrapper) (m : Action S A) (s : S)
      → ((a : A) → (wrapped w m s).0 ≢ ok a)
      → (a : A) → (m s).0 ≢ ok a
  unfolding wrapped
  wrapped-fails w m s h a e = h a (ap (wrap_err w) e)
