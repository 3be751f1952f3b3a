-- ===== src/Registry.antt =====
-- registry.go: the registry of factories under a type name, which aggregate.go, command.go, event.go
-- and snapshot.go use. Its calls panic on wrong use, and a panic leaves the registry as it was.
mod Tests
use eventhorizon.Prelude.{
  ◌≡◌, refl, ◌≢◌, Option, none, some, arith, ite, ℕ, ◌+◌, String, String-discrete,
}
use eventhorizon.Prelude.Maps
use eventhorizon.Prelude.Maps.{Map}
use eventhorizon.Errors.{Result, ok, panic, Action}

pub record Registry (K F : Type 0) : Type 0 where
  pub items : Map K F
  pub name : String

-- newTypeRegistry
unfoldable pub new : {K F : Type 0} → String → Registry K F
new name = record { items = Maps.empty; name = name }

-- `f, ok := r.items[key]`
abbrev pub get : {K F : Type 0} → Registry K F → K → Option F
get r key = r.items key

module _ {K F : Type 0} (dec : Discrete K) (zero_value : K) where
  unfoldable pub register : K → F → Action (Registry K F) (Unit {0})
  register key factory r =
      ite (dec key zero_value) (panic, r)
        (elim (r.items key) [
          | some _ ↦ (panic, r)
          | none ↦ (ok tt, record r { items = Maps.insert dec key factory r.items })
        ])

  unfoldable pub unregister : K → Action (Registry K F) (Unit {0})
  unregister key r =
      ite (dec key zero_value) (panic, r)
        (elim (r.items key) [
          | none ↦ (panic, r)
          | some _ ↦ (ok tt, record r { items = Maps.delete dec key r.items })
        ])

  -- A call that does not panic registers its factory under its key and leaves the other keys.
  pub get-register :
      (key j : K) (factory : F) (r : Registry K F)
      → (register key factory r).0 ≡ ok tt
      → get (register key factory r).1 j ≡ ite (dec key j) (some factory) (get r j)
  unfolding register
  get-register key j factory r h = ground arith

  -- A key is registered at most once: the second call panics and changes nothing.
  pub register_twice :
      (key : K) (f g : F) (r : Registry K F)
      → (register key f r).0 ≡ ok tt
      → register key g (register key f r).1 ≡ (panic, (register key f r).1)
  unfolding register
  register_twice key f g r h = ground arith

  register-fresh :
      (key : K) (factory : F) (r : Registry K F)
      → (register key factory r).0 ≡ ok tt
      → (key ≢ zero_value) × (r.items key ≡ none)
  unfolding register
  register-fresh key factory r h = (ground arith, ground arith)

  -- Unregistering what was registered restores the registry.
  pub unregister-register :
      (key : K) (factory : F) (r : Registry K F)
      → (register key factory r).0 ≡ ok tt
      → unregister key (register key factory r).1 ≡ (ok tt, r)
  unfolding register unregister
  unregister-register key factory r h =
      let (named, fresh) = register-fresh key factory r h in
      ground (arith, Maps.delete-insert dec key factory r.items fresh)

unfoldable pub reset : {K F : Type 0} → Registry K F → Registry K F
reset r = record r { items = Maps.empty }

-- maps.Clone(r.items)
unfoldable pub all : {K F : Type 0} → Registry K F → Map K F
all r = r.items
