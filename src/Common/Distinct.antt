-- ===== src/Common/Distinct.antt =====
-- `retain` with `HashSet::insert` on a key, as the program removes duplicates.
use mathlib.Core.Path.{◌≡◌, refl}
use mathlib.Core.Logic.{inl, inr}
use mathlib.Core.Bool.{Bool, true, false, ◌||◌}
use mathlib.Core.List.{List, [], ◌∷◌, map}
use native.Mathlib.Omega.{arith}
use weather_app.Common.Tests.{Bool-cases}
use weather_app.Common.Lists.{all, contains, distinct}
use weather_app.Common.Keys.{Key, ==_iff}

-- The first of each key stays.
unfoldable pub first_of_each {ℓ κ} :
    {A : Type ℓ} {K : Type κ} ⦃e : Key K⦄ → (A → K) → List K → List A → List A
first_of_each key seen [] = []
first_of_each key seen (x ∷ xs) = elim (contains seen (key x)) [
  | true ↦ first_of_each key seen xs
  | false ↦ x ∷ first_of_each key (key x ∷ seen) xs
]

module _ {ℓ κ} {A : Type ℓ} {K : Type κ} ⦃e : Key K⦄ (key : A → K) where
  pub first_of_each-seen :
      (seen : List K) (x : A) (xs : List A)
      → contains seen (key x) ≡ true
      → first_of_each key seen (x ∷ xs) ≡ first_of_each key seen xs
  unfolding first_of_each
  first_of_each-seen seen x xs h = rw (h, first_of_each) refl

  pub first_of_each-new :
      (seen : List K) (x : A) (xs : List A)
      → contains seen (key x) ≡ false
      → first_of_each key seen (x ∷ xs) ≡ x ∷ first_of_each key (key x ∷ seen) xs
  unfolding first_of_each
  first_of_each-new seen x xs h = rw (h, first_of_each) refl

  -- A key that was seen is not met again.
  pub first_of_each-unseen :
      (seen : List K) (xs : List A) (k : K)
      → contains seen k ≡ true
      → contains (map key (first_of_each key seen xs)) k ≡ false
  unfolding first_of_each
  first_of_each-unseen seen [] k h = refl
  first_of_each-unseen seen (x ∷ xs) k h = elim (Bool-cases (contains seen (key x))) [
    | inl old ↦ rw (first_of_each-seen seen x xs old) (first_of_each-unseen seen xs k h)
    | inr new ↦
        rw (first_of_each-new seen x xs new)
          (ground (arith, first_of_each-unseen (key x ∷ seen) xs k, ==_iff (key x) k))
  ]

  pub first_of_each-distinct :
      (seen : List K) (xs : List A) → distinct (map key (first_of_each key seen xs)) ≡ true
  unfolding first_of_each
  first_of_each-distinct seen [] = refl
  first_of_each-distinct seen (x ∷ xs) = elim (Bool-cases (contains seen (key x))) [
    | inl old ↦ rw (first_of_each-seen seen x xs old) (first_of_each-distinct seen xs)
    | inr new ↦ rw (first_of_each-new seen x xs new) (
        ground (
          arith,
          first_of_each-unseen (key x ∷ seen) xs (key x),
          first_of_each-distinct (key x ∷ seen) xs,
          ==_iff (key x) (key x),
        ))
  ]

  pub first_of_each-all :
      (p : A → Bool) (seen : List K) (xs : List A)
      → all p xs ≡ true
      → all p (first_of_each key seen xs) ≡ true
  unfolding first_of_each
  first_of_each-all p seen [] h = refl
  first_of_each-all p seen (x ∷ xs) h = elim (Bool-cases (contains seen (key x))) [
    | inl old ↦ rw (first_of_each-seen seen x xs old) (ground (arith, first_of_each-all p seen xs))
    | inr new ↦
        rw (first_of_each-new seen x xs new) (ground (arith, first_of_each-all p (key x ∷ seen) xs))
  ]

  -- No key is lost.
  pub contains-first_of_each :
      (seen : List K) (xs : List A) (k : K)
      → (contains seen k || contains (map key (first_of_each key seen xs)) k)
        ≡ (contains seen k || contains (map key xs) k)
  unfolding first_of_each
  contains-first_of_each seen [] k = refl
  contains-first_of_each seen (x ∷ xs) k = elim (Bool-cases (contains seen (key x))) [
    | inl old ↦
        rw (first_of_each-seen seen x xs old)
          (ground (arith, contains-first_of_each seen xs k, ==_iff (key x) k))
    | inr new ↦
        rw (first_of_each-new seen x xs new)
          (ground (arith, contains-first_of_each (key x ∷ seen) xs k))
  ]
