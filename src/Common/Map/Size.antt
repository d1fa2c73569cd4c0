-- ===== src/Common/Map/Size.antt =====
-- The number of entries of a map, and keys that stand once.
use mathlib.Core.Path.{◌≡◌, refl}
use mathlib.Core.Bool.{true, false, ◌||◌}
use mathlib.Core.List.{[], ◌∷◌}
use mathlib.Core.Option.{Option, none, some}
use Prim.Native.Nat.{ℕ, suc, ◌+◌, ◌≤◌}
use native.Mathlib.Omega.{arith}
use weather_app.Common.Tests.{if◌then◌else◌}
use weather_app.Common.Keys.{Key, ◌==◌}
use weather_app.Common.Lists.{length, contains, distinct}
use weather_app.Common.Map.{Map, keys, get, insert, remove, contains_key, remove_absent}

abbrev pub size_of {ℓ} : {V : Type ℓ} → (V → ℕ) → Option V → ℕ
size_of size none = 0
size_of size (some v) = size v

module _ {ℓ κ} {K : Type ℓ} {V : Type κ} ⦃e : Key K⦄ where
  keys-remove-sub :
      (k j : K) (m : Map K V) → contains (keys m) j ≡ false → contains (keys (remove k m)) j ≡ false
  unfolding remove
  keys-remove-sub k j [] h = refl
  keys-remove-sub k j ((i, v) ∷ m) h = ground (arith, keys-remove-sub k j m)

  pub distinct-keys-remove :
      (k : K) (m : Map K V) → distinct (keys m) ≡ true → distinct (keys (remove k m)) ≡ true
  unfolding remove
  distinct-keys-remove k [] h = refl
  distinct-keys-remove k ((i, v) ∷ m) h =
      ground (arith, distinct-keys-remove k m, keys-remove-sub k i m)

  keys-insert-sub :
      (k j : K) (v : V) (m : Map K V)
      → contains (keys (insert k v m)) j ≡ (contains (keys m) j || k == j)
  unfolding insert
  keys-insert-sub k j v [] = ground arith
  keys-insert-sub k j v ((i, w) ∷ m) =
      ground (arith, keys-insert-sub k j v m, e.same_iff i k, e.same_iff i j, e.same_iff k j)

  pub distinct-keys-insert :
      (k : K) (v : V) (m : Map K V)
      → distinct (keys m) ≡ true
      → distinct (keys (insert k v m)) ≡ true
  unfolding insert
  distinct-keys-insert k v [] h = refl
  distinct-keys-insert k v ((i, w) ∷ m) h =
      ground
        (arith, distinct-keys-insert k v m, keys-insert-sub k i v m, e.same_iff k i, e.same_iff i k)

  -- A present key keeps the size, and a new one adds one.
  pub length-insert :
      (k : K) (v : V) (m : Map K V)
      → length (insert k v m) ≡ (if contains_key k m then length m else suc (length m))
  unfolding insert get
  length-insert k v [] = refl
  length-insert k v ((i, w) ∷ m) = ground (arith, length-insert k v m)

  pub length-remove :
      (k : K) (m : Map K V)
      → distinct (keys m) ≡ true
      → contains_key k m ≡ true
      → suc (length (remove k m)) ≡ length m
  unfolding remove get
  length-remove k [] d h = cc
  length-remove k ((i, w) ∷ m) d h =
      ground (arith, e.same_iff i k, length-remove k m, remove_absent k m)

  pub length-remove-le : (k : K) (m : Map K V) → length (remove k m) ≤ length m
  unfolding remove
  length-remove-le k [] = omega arith
  length-remove-le k ((i, w) ∷ m) = ground (arith, length-remove-le k m)

  -- What the values of a map amount to.
  unfoldable pub total : (V → ℕ) → Map K V → ℕ
  total size [] = 0
  total size ((k, v) ∷ m) = size v + total size m

  pub total-remove :
      (size : V → ℕ) (k : K) (m : Map K V)
      → distinct (keys m) ≡ true
      → total size m ≡ total size (remove k m) + size_of size (get k m)
  unfolding total remove get
  total-remove size k [] d = omega arith
  total-remove size k ((i, v) ∷ m) d =
      ground (arith, e.same_iff i k, total-remove size k m, remove_absent k m)

  pub total-insert :
      (size : V → ℕ) (k : K) (v : V) (m : Map K V)
      → distinct (keys m) ≡ true
      → total size (insert k v m) + size_of size (get k m) ≡ total size m + size v
  unfolding total insert get
  total-insert size k v [] d = omega arith
  total-insert size k v ((i, w) ∷ m) d = ground (arith, total-insert size k v m)
