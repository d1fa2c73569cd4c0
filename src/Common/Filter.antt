-- ===== src/Common/Filter.antt =====
-- What holds of the elements of a list under `retain`, `take`, appending and mapping.
use Prim.Native.Nat.{ℕ, zero, suc}
use mathlib.Core.Path.{◌≡◌, refl}
use mathlib.Core.Bool.{Bool, true}
use mathlib.Core.List.{List, [], ◌∷◌, ◌++◌, map}
use native.Mathlib.Omega.{arith}
use weather_app.Common.Lists.{take, retain, all, contains, distinct}
use weather_app.Common.Keys.{Key}

module _ {ℓ} {A : Type ℓ} where
  pub all-append :
      (p : A → Bool) (xs ys : List A) → all p xs ≡ true → all p ys ≡ true → all p (xs ++ ys) ≡ true
  all-append p [] ys h k = k
  all-append p (x ∷ xs) ys h k = ground (arith, all-append p xs ys)

  pub all-retain : (p : A → Bool) (xs : List A) → all p (retain p xs) ≡ true
  all-retain p [] = refl
  all-retain p (x ∷ xs) = ground (arith, all-retain p xs)

  -- A test that holds of all elements holds of those that another test keeps.
  pub all-retain_keeps :
      (p q : A → Bool) (xs : List A) → all p xs ≡ true → all p (retain q xs) ≡ true
  all-retain_keeps p q [] h = refl
  all-retain_keeps p q (x ∷ xs) h = ground (arith, all-retain_keeps p q xs)

  pub all-take : (p : A → Bool) (n : ℕ) (xs : List A) → all p xs ≡ true → all p (take n xs) ≡ true
  all-take p zero xs h = refl
  all-take p (suc n) [] h = refl
  all-take p (suc n) (x ∷ xs) h = ground (arith, all-take p n xs)

  pub all-imp :
      (p q : A → Bool) (xs : List A)
      → ((a : A) → p a ≡ true → q a ≡ true)
      → all p xs ≡ true
      → all q xs ≡ true
  all-imp p q [] f h = refl
  all-imp p q (x ∷ xs) f h = ground (arith, f x, all-imp p q xs f)

module _ {ℓ κ} {A : Type ℓ} {K : Type κ} ⦃e : Key K⦄ (key : A → K) where
  -- What `take` leaves of the keys was there before.
  pub contains-map-take :
      (n : ℕ) (xs : List A) (k : K)
      → contains (map key (take n xs)) k ≡ true
      → contains (map key xs) k ≡ true
  contains-map-take zero xs k h = cc
  contains-map-take (suc n) [] k h = h
  contains-map-take (suc n) (x ∷ xs) k h = ground (arith, contains-map-take n xs k)

  pub distinct-map-take :
      (n : ℕ) (xs : List A) → distinct (map key xs) ≡ true → distinct (map key (take n xs)) ≡ true
  distinct-map-take zero xs h = refl
  distinct-map-take (suc n) [] h = refl
  distinct-map-take (suc n) (x ∷ xs) h =
      ground (arith, contains-map-take n xs (key x), distinct-map-take n xs)
