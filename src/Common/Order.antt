-- ===== src/Common/Order.antt =====
-- `Ordering` and its chains, and the stable sort of a list.
pub use Prim.Native.Nat.{compare, Ordering, eq}
use Prim.Native.Nat.{ℕ, ◌≤◌}
use mathlib.Core.Path.{◌≡◌, refl}
use mathlib.Core.Logic.{inl, inr}
use mathlib.Core.Bool.{Bool, true, false, ◌&&◌, ◌||◌, not}
use mathlib.Core.List.{List, [], ◌∷◌, map}
use native.Mathlib.Omega.{arith}
use weather_app.Common.Tests.{if◌then◌else◌, Bool-cases, leb}
use weather_app.Common.Lists.{all, contains, distinct}
use weather_app.Common.Keys.{Key, ◌==◌, ==_iff}
use weather_app.Common.Filter.{all-imp}
use weather_app.Common.Text.{Text}
use weather_app.Common.Distinct.{
  first_of_each, first_of_each-seen, first_of_each-new, first_of_each-all,
}

abbrev pub then_with : Ordering → Ordering → Ordering
then_with Ordering.eq later = later
then_with Ordering.lt later = Ordering.lt
then_with Ordering.gt later = Ordering.gt

-- `str::cmp`: by bytes, which in UTF-8 is by code points.
unfoldable pub compare_text : Text → Text → Ordering
compare_text [] [] = Ordering.eq
compare_text [] (d ∷ t) = Ordering.lt
compare_text (c ∷ s) [] = Ordering.gt
compare_text (c ∷ s) (d ∷ t) = then_with (compare c d) (compare_text s t)

abbrev pub is_greater : Ordering → Bool
is_greater Ordering.gt = true
is_greater Ordering.eq = false
is_greater Ordering.lt = false

module _ {ℓ} {A : Type ℓ} (cmp : A → A → Ordering) where
  -- In front of the first element that it is not greater than.
  unfoldable pub insert_sorted : A → List A → List A
  insert_sorted x [] = x ∷ []
  insert_sorted x (y ∷ ys) =
      let rest = insert_sorted x ys in if is_greater (cmp x y) then y ∷ rest else x ∷ y ∷ ys

  -- `sort_by`, which is stable.
  unfoldable pub sort_by : List A → List A
  sort_by [] = []
  sort_by (x ∷ xs) = insert_sorted x (sort_by xs)

module _ {ℓ} {A : Type ℓ} (f : A → ℕ) where
  -- No element comes after one with a larger measure.
  abbrev pub ascending : List A → Bool
  ascending [] = true
  ascending (x ∷ xs) = all (λ y. leb (f x) (f y)) xs && ascending xs

  pub ascending-first_of_each {κ} :
      {K : Type κ} ⦃e : Key K⦄ (key : A → K) (seen : List K) (xs : List A)
      → ascending xs ≡ true
      → ascending (first_of_each key seen xs) ≡ true
  unfolding first_of_each
  ascending-first_of_each key seen [] h = refl
  ascending-first_of_each key seen (x ∷ xs) h = elim (Bool-cases (contains seen (key x))) [
    | inl old ↦
        rw (first_of_each-seen key seen x xs old)
          (ground (arith, ascending-first_of_each key seen xs))
    | inr new ↦ rw (first_of_each-new key seen x xs new) (
        ground (
          arith,
          first_of_each-all key (λ y. leb (f x) (f y)) (key x ∷ seen) xs,
          ascending-first_of_each key (key x ∷ seen) xs,
        ))
  ]

module _ {ℓ} {A : Type ℓ} (cmp : A → A → Ordering) where
  all-insert_sorted :
      (p : A → Bool) (x : A) (ys : List A) → all p (insert_sorted cmp x ys) ≡ (p x && all p ys)
  unfolding insert_sorted
  all-insert_sorted p x [] = refl
  all-insert_sorted p x (y ∷ ys) = ground (arith, all-insert_sorted p x ys)

  pub all-sort_by : (p : A → Bool) (xs : List A) → all p (sort_by cmp xs) ≡ all p xs
  unfolding sort_by
  all-sort_by p [] = refl
  all-sort_by p (x ∷ xs) = ground (arith, all-insert_sorted p x (sort_by cmp xs), all-sort_by p xs)

  module _ (f : A → ℕ) (above : (x y : A) → is_greater (cmp x y) ≡ true → f y ≤ f x)
      (below : (x y : A) → is_greater (cmp x y) ≡ false → f x ≤ f y) where
    ascending-insert_sorted :
        (x : A) (ys : List A) → ascending f ys ≡ true → ascending f (insert_sorted cmp x ys) ≡ true
    unfolding insert_sorted
    ascending-insert_sorted x [] h = refl
    ascending-insert_sorted x (y ∷ ys) h = elim (Bool-cases (is_greater (cmp x y))) [
      | inl greater ↦ rw greater (
          ground (
            arith,
            all-insert_sorted (λ z. leb (f y) (f z)) x ys,
            ascending-insert_sorted x ys,
            above x y greater,
            h,
          ))
      | inr at_most ↦ rw at_most (
          ground (
            arith,
            below x y at_most,
            all-imp (λ z. leb (f y) (f z)) (λ z. leb (f x) (f z)) ys
                (λ a k. ground (arith, below x y at_most, k)),
            h,
          ))
    ]

    -- A sort by a comparison that respects a measure leaves the list ascending in it.
    pub ascending-sort_by : (xs : List A) → ascending f (sort_by cmp xs) ≡ true
    unfolding sort_by
    ascending-sort_by [] = refl
    ascending-sort_by (x ∷ xs) = ascending-insert_sorted x (sort_by cmp xs) (ascending-sort_by xs)

  module _ {κ} {K : Type κ} ⦃e : Key K⦄ (key : A → K) where
    contains-insert_sorted :
        (x : A) (ys : List A) (k : K)
        → contains (map key (insert_sorted cmp x ys)) k ≡ (key x == k || contains (map key ys) k)
    unfolding insert_sorted
    contains-insert_sorted x [] k = refl
    contains-insert_sorted x (y ∷ ys) k = ground (arith, contains-insert_sorted x ys k)

    pub contains-sort_by :
        (xs : List A) (k : K) → contains (map key (sort_by cmp xs)) k ≡ contains (map key xs) k
    unfolding sort_by
    contains-sort_by [] k = refl
    contains-sort_by (x ∷ xs) k =
        ground (arith, contains-insert_sorted x (sort_by cmp xs) k, contains-sort_by xs k)

    distinct-insert_sorted :
        (x : A) (ys : List A)
        → distinct (map key (insert_sorted cmp x ys))
          ≡ (not (contains (map key ys) (key x)) && distinct (map key ys))
    unfolding insert_sorted
    distinct-insert_sorted x [] = refl
    distinct-insert_sorted x (y ∷ ys) = ground (
      arith,
      contains-insert_sorted x ys (key y),
      distinct-insert_sorted x ys,
      ==_iff (key x) (key y),
      ==_iff (key y) (key x),
    )

    pub distinct-sort_by :
        (xs : List A) → distinct (map key (sort_by cmp xs)) ≡ distinct (map key xs)
    unfolding sort_by
    distinct-sort_by [] = refl
    distinct-sort_by (x ∷ xs) = ground (
      arith,
      distinct-insert_sorted x (sort_by cmp xs),
      contains-sort_by xs (key x),
      distinct-sort_by xs,
    )

module _ {ℓ κ} {A : Type ℓ} {K : Type κ} (key : A → K) (p : K → Bool) where
  pub all-map : (xs : List A) → all p (map key xs) ≡ all (λ x. p (key x)) xs
  all-map [] = refl
  all-map (x ∷ xs) = ground (arith, all-map xs)
