-- ===== src/Prelude/Maps.antt =====
-- Go's maps as association lists. Go iterates in an unspecified order; a model that walks a map
-- walks this list, and what is proved for every list covers every order.
use nexodus.Prelude.Tests.{Comparable, ◌==◌, if◌then◌else◌}
use mathlib.Core.Path.{◌≡◌, refl}
use mathlib.Core.Bool.{Bool, true, false}
use mathlib.Core.List.{List, [], ◌∷◌, ◌++◌}
use mathlib.Core.Option.{Option, none, some}
use native.Mathlib.Omega.{arith}

abbrev pub Map {ℓ κ} : Type ℓ → Type κ → Type (ℓ ⊔ κ)
Map K V = List (K × V)

abbrev pub is_some {ℓ} : {A : Type ℓ} → Option A → Bool
is_some none = false
is_some (some a) = true

module _ {ℓ κ} {K : Type ℓ} {V : Type κ} ⦃keys : Comparable K⦄ where
  -- delete(m, key)
  unfoldable pub delete : K → Map K V → Map K V
  delete key [] = []
  delete key ((k, old) ∷ more) =
      let kept = delete key more in if k == key then kept else (k, old) ∷ kept

  -- m[key] = new
  unfoldable pub insert : K → V → Map K V → Map K V
  insert key new [] = (key, new) ∷ []
  insert key new ((k, old) ∷ more) =
      let after = insert key new more in if k == key then (k, new) ∷ more else (k, old) ∷ after

  -- value, ok := m[key]
  unfoldable pub lookup : K → Map K V → Option V
  lookup key [] = none
  lookup key ((k, value) ∷ more) =
      let later = lookup key more in if k == key then some value else later

  pub lookup-cons :
      (key k : K) (value : V) (more : Map K V)
      → lookup key ((k, value) ∷ more) ≡ (if k == key then some value else lookup key more)
  unfolding lookup
  lookup-cons key k value more = refl

  pub lookup-delete :
      (gone key : K) (m : Map K V)
      → lookup key (delete gone m) ≡ (if gone == key then none else lookup key m)
  unfolding delete lookup
  lookup-delete gone key [] = ground arith
  lookup-delete gone key ((k, old) ∷ more) = ground (
    arith,
    lookup-delete gone key more,
    keys.same_iff k key,
    keys.same_iff k gone,
    keys.same_iff gone key,
  )

  pub lookup-insert :
      (put key : K) (new : V) (m : Map K V)
      → lookup key (insert put new m) ≡ (if put == key then some new else lookup key m)
  unfolding insert lookup
  lookup-insert put key new [] = refl
  lookup-insert put key new ((k, old) ∷ more) = ground (
    arith,
    lookup-insert put key new more,
    keys.same_iff k key,
    keys.same_iff k put,
    keys.same_iff put key,
  )

  -- A new key goes to the end of the list.
  pub insert-of_none :
      (key : K) (new : V) (m : Map K V)
      → lookup key m ≡ none
      → insert key new m ≡ m ++ (key, new) ∷ []
  unfolding insert lookup
  insert-of_none key new [] absent = refl
  insert-of_none key new ((k, old) ∷ more) absent = ground (arith, insert-of_none key new more)

pub eq_self {ℓ} : {K : Type ℓ} ⦃keys : Comparable K⦄ (k : K) → (k == k) ≡ true
eq_self ⦃keys⦄ k = (keys.same_iff k k).1 refl

pub ruleset map_laws = (lookup-insert, lookup-delete, eq_self)
