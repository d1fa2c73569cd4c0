-- ===== src/Common/Lists.antt =====
-- Lists measured and cut by native numbers, under the library's names.
use Prim.Native.Nat.{ℕ, zero, suc, ◌+◌, ◌-◌, ◌≤◌, ◌<◌, min}
use mathlib.Core.Path.{◌≡◌, refl, subst}
use mathlib.Core.Logic.{inl, inr}
use mathlib.Core.Bool.{Bool, true, false, not, ◌&&◌, ◌||◌, false≢true}
use mathlib.Core.List.{List, [], ◌∷◌, ◌++◌}
use mathlib.Core.Option.{Option, none, some}
use native.Mathlib.Omega.{arith}
use weather_app.Common.Tests.{if◌then◌else◌, Bool-cases}
use weather_app.Common.Keys.{Key, ◌==◌, nat_eq}

module _ {ℓ} {A : Type ℓ} where
  abbrev pub length : List A → ℕ
  length [] = 0
  length (x ∷ xs) = suc (length xs)

  abbrev pub take : ℕ → List A → List A
  take zero xs = []
  take (suc n) [] = []
  take (suc n) (x ∷ xs) = x ∷ take n xs

  abbrev pub drop : ℕ → List A → List A
  drop zero xs = xs
  drop (suc n) [] = []
  drop (suc n) (x ∷ xs) = drop n xs

  abbrev pub get_elem? : List A → ℕ → Option A
  get_elem? [] i = none
  get_elem? (x ∷ xs) zero = some x
  get_elem? (x ∷ xs) (suc i) = get_elem? xs i

  -- `retain` and `filter` with a Boolean test.
  abbrev pub retain : (A → Bool) → List A → List A
  retain p [] = []
  retain p (x ∷ xs) = if p x then x ∷ retain p xs else retain p xs

  abbrev pub any : (A → Bool) → List A → Bool
  any p [] = false
  any p (x ∷ xs) = p x || any p xs

  abbrev pub all : (A → Bool) → List A → Bool
  all p [] = true
  all p (x ∷ xs) = p x && all p xs

  -- A predicate of every element.
  abbrev pub All {κ} : (A → Type κ) → List A → Type κ
  All P [] = Unit
  All P (x ∷ xs) = P x × All P xs

  pub length-append : (xs ys : List A) → length (xs ++ ys) ≡ length xs + length ys
  length-append [] ys = omega arith
  length-append (x ∷ xs) ys = omega (arith, length-append xs ys)

  pub length-take : (n : ℕ) (xs : List A) → length (take n xs) ≡ min n (length xs)
  length-take zero xs = omega arith
  length-take (suc n) [] = omega arith
  length-take (suc n) (x ∷ xs) = omega (arith, length-take n xs)

  pub length-drop : (n : ℕ) (xs : List A) → length (drop n xs) ≡ length xs - n
  length-drop zero xs = omega arith
  length-drop (suc n) [] = omega arith
  length-drop (suc n) (x ∷ xs) = omega (arith, length-drop n xs)

  pub length-retain-le : (p : A → Bool) (xs : List A) → length (retain p xs) ≤ length xs
  length-retain-le p [] = omega arith
  length-retain-le p (x ∷ xs) = ground (arith, length-retain-le p xs)

module _ {ℓ κ μ} {A : Type ℓ} {P : A → Type κ} {Q : A → Type μ} where
  pub All-map : (l : List A) → ((a : A) → P a → Q a) → All P l → All Q l
  All-map [] f h = tt
  All-map (x ∷ l) f h = (f x h.0, All-map l f h.1)

module _ {ℓ κ μ} {A : Type ℓ} {P : A → Type κ} {Q : A → Type μ} where
  -- What holds of the elements that are kept, from what holds of all.
  pub All-retain :
      (p : A → Bool) (l : List A)
      → ((a : A) → p a ≡ true → P a → Q a)
      → All P l
      → All Q (retain p l)
  All-retain p [] f h = tt
  All-retain p (x ∷ l) f h = elim (Bool-cases (p x)) [
    | inl kept ↦ rw kept (f x kept h.0, All-retain p l f h.1)
    | inr gone ↦ rw gone (All-retain p l f h.1)
  ]

module _ {ℓ} {A : Type ℓ} ⦃e : Key A⦄ where
  abbrev pub contains : List A → A → Bool
  contains [] a = false
  contains (x ∷ xs) a = x == a || contains xs a

  -- No element stands twice.
  abbrev pub distinct : List A → Bool
  distinct [] = true
  distinct (x ∷ xs) = not (contains xs x) && distinct xs

  pub contains-append :
      (xs ys : List A) (a : A) → contains (xs ++ ys) a ≡ (contains xs a || contains ys a)
  contains-append [] ys a = refl
  contains-append (x ∷ xs) ys a = ground (arith, contains-append xs ys a)

  pub distinct-append_one :
      (xs : List A) (a : A)
      → distinct xs ≡ true
      → contains xs a ≡ false
      → distinct (xs ++ a ∷ []) ≡ true
  distinct-append_one [] a h c = refl
  distinct-append_one (x ∷ xs) a h c = ground (
    arith,
    contains-append xs (a ∷ []) x,
    distinct-append_one xs a,
    e.same_iff a x,
    e.same_iff x a,
  )

  -- The index of the first occurrence.
  abbrev pub position : List A → A → ℕ
  position [] a = 0
  position (x ∷ xs) a = if x == a then 0 else suc (position xs a)

module _ {ℓ κ} {A : Type ℓ} ⦃e : Key A⦄ (P : A → Type κ) where
  pub All-contains : (l : List A) (a : A) → All P l → contains l a ≡ true → P a
  All-contains [] a h c = absurd (false≢true c)
  All-contains (x ∷ l) a h c = elim (Bool-cases (x == a)) [
    | inl hit ↦ subst P ((e.same_iff x a).0 hit) h.0
    | inr miss ↦ All-contains l a h.1 (ground arith)
  ]

-- A number that was not given out yet is in no list of those that were.
pub All-lt-suc : (k : ℕ) (l : List ℕ) → All (λ j. j < k) l → All (λ j. j < suc k) (l ++ k ∷ [])
All-lt-suc k [] h = omega arith
All-lt-suc k (x ∷ l) h = (omega arith, All-lt-suc k l h.1)

pub contains-fresh : (k : ℕ) (l : List ℕ) → All (λ j. j < k) l → contains l k ≡ false
contains-fresh k [] h = refl
contains-fresh k (x ∷ l) h = ground (arith, contains-fresh k l)
