-- ===== src/Common/Map.antt =====
-- `HashMap` as an association list in some iteration order, with its laws.
pub mod Size
use mathlib.Core.Path.{◌≡◌, refl}
use mathlib.Core.Bool.{Bool, true, false, not, ◌&&◌, ◌||◌}
use mathlib.Core.List.{List, [], ◌∷◌, ◌++◌}
use mathlib.Core.Option.{Option, none, some}
use Prim.Native.Nat.{ℕ, zero, suc, ◌+◌, ◌≤◌, ◌<◌}
use native.Mathlib.Omega.{arith}
use weather_app.Common.Tests.{if◌then◌else◌, is_some}
use weather_app.Common.Keys.{Key, ◌==◌, ==_iff, ==_refl}
use weather_app.Common.Lists.{contains, distinct, retain}

abbrev pub Map {ℓ κ} : Type ℓ → Type κ → Type (ℓ ⊔ κ)
Map K V = List (K × V)

module _ {ℓ κ} {K : Type ℓ} {V : Type κ} where
  abbrev pub keys : Map K V → List K
  keys [] = []
  keys ((k, v) ∷ m) = k ∷ keys m

  abbrev pub values : Map K V → List V
  values [] = []
  values ((k, v) ∷ m) = v ∷ values m

module _ {ℓ κ} {K : Type ℓ} {V : Type κ} ⦃e : Key K⦄ where
  unfoldable pub get : K → Map K V → Option V
  get k [] = none
  get k ((j, v) ∷ m) = if j == k then some v else get k m

  unfoldable pub insert : K → V → Map K V → Map K V
  insert k v [] = (k, v) ∷ []
  insert k v ((j, w) ∷ m) = if j == k then (j, v) ∷ m else (j, w) ∷ insert k v m

  unfoldable pub remove : K → Map K V → Map K V
  remove k [] = []
  remove k ((j, v) ∷ m) = if j == k then remove k m else (j, v) ∷ remove k m

  -- `HashMap::retain` by the key.
  unfoldable pub retain_keys : (K → Bool) → Map K V → Map K V
  retain_keys p [] = []
  retain_keys p ((j, v) ∷ m) = if p j then (j, v) ∷ retain_keys p m else retain_keys p m

  -- A write through `get_mut`: nothing changes where the key is missing.
  unfoldable pub modify : K → (V → V) → Map K V → Map K V
  modify k f [] = []
  modify k f ((j, v) ∷ m) = if j == k then (j, f v) ∷ m else (j, v) ∷ modify k f m

  abbrev pub contains_key : K → Map K V → Bool
  contains_key k m = is_some (get k m)

  pub get-insert :
      (j k : K) (v : V) (m : Map K V) → get j (insert k v m) ≡ (if k == j then some v else get j m)
  unfolding get insert
  get-insert j k v [] = refl
  get-insert j k v ((i, w) ∷ m) =
      ground (arith, e.same_iff k j, e.same_iff i k, e.same_iff i j, get-insert j k v m)

  pub get-remove : (j k : K) (m : Map K V) → get j (remove k m) ≡ (if k == j then none else get j m)
  unfolding get remove
  get-remove j k [] = ground arith
  get-remove j k ((i, w) ∷ m) =
      ground (arith, e.same_iff k j, e.same_iff i k, e.same_iff i j, get-remove j k m)

  pub get-modify :
      (j k : K) (f : V → V) (m : Map K V)
      → get j (modify k f m)
        ≡ (if k == j then elim (get j m) [ none ↦ none | some v ↦ some (f v) ] else get j m)
  unfolding get modify
  get-modify j k f [] = ground arith
  get-modify j k f ((i, w) ∷ m) =
      ground (arith, e.same_iff k j, e.same_iff i k, e.same_iff i j, get-modify j k f m)

  pub get-retain_keys :
      (j : K) (p : K → Bool) (m : Map K V)
      → get j (retain_keys p m) ≡ (if p j then get j m else none)
  unfolding get retain_keys
  get-retain_keys j p [] = ground arith
  get-retain_keys j p ((i, w) ∷ m) = ground (arith, e.same_iff i j, get-retain_keys j p m, ap_test)
    where
      ap_test : i ≡ j → p i ≡ p j
      ap_test h = cc

  pub contains-keys : (j : K) (m : Map K V) → contains (keys m) j ≡ contains_key j m
  unfolding get
  contains-keys j [] = refl
  contains-keys j ((i, w) ∷ m) = ground (arith, contains-keys j m)

  pub keys-insert_fresh :
      (k : K) (v : V) (m : Map K V)
      → contains (keys m) k ≡ false
      → keys (insert k v m) ≡ keys m ++ k ∷ []
  unfolding insert
  keys-insert_fresh k v [] h = refl
  keys-insert_fresh k v ((j, w) ∷ m) h = ground (arith, keys-insert_fresh k v m)

  pub values-insert_fresh :
      (k : K) (v : V) (m : Map K V)
      → contains (keys m) k ≡ false
      → values (insert k v m) ≡ values m ++ v ∷ []
  unfolding insert
  values-insert_fresh k v [] h = refl
  values-insert_fresh k v ((j, w) ∷ m) h = ground (arith, values-insert_fresh k v m)

  pub keys-remove : (k : K) (m : Map K V) → keys (remove k m) ≡ retain (λ j. not (j == k)) (keys m)
  unfolding remove
  keys-remove k [] = refl
  keys-remove k ((j, w) ∷ m) = ground (arith, keys-remove k m)

  pub remove_absent : (k : K) (m : Map K V) → contains (keys m) k ≡ false → remove k m ≡ m
  unfolding remove
  remove_absent k [] h = refl
  remove_absent k ((j, w) ∷ m) h = ground (arith, remove_absent k m)

module _ {ℓ κ} {K : Type ℓ} {V : Type κ} ⦃e : Key K⦄ ⦃d : Key V⦄ where
  -- Removing a key takes only its own value.
  pub contains-values-remove :
      (k : K) (m : Map K V) (w n : V)
      → distinct (keys m) ≡ true
      → get k m ≡ some w
      → (w == n) ≡ false
      → contains (values m) n ≡ true
      → contains (values (remove k m)) n ≡ true
  unfolding get remove
  contains-values-remove k [] w n u g ne c = cc
  contains-values-remove k ((j, x) ∷ m) w n u g ne c =
      ground (arith, e.same_iff j k, remove_absent k m, contains-values-remove k m w n)

module _ {ℓ κ} {K : Type ℓ} {V : Type κ} ⦃e : Key K⦄ ⦃d : Key V⦄ where
  pub contains-values_of_get :
      (k : K) (m : Map K V) (w : V) → get k m ≡ some w → contains (values m) w ≡ true
  unfolding get
  contains-values_of_get k [] w g = cc
  contains-values_of_get k ((j, x) ∷ m) w g =
      ground (arith, d.same_iff x w, contains-values_of_get k m w)

  pub values-remove-sub :
      (k : K) (m : Map K V) (w : V)
      → contains (values m) w ≡ false
      → contains (values (remove k m)) w ≡ false
  unfolding remove
  values-remove-sub k [] w h = refl
  values-remove-sub k ((j, x) ∷ m) w h = ground (arith, values-remove-sub k m w)

  pub distinct-values-remove :
      (k : K) (m : Map K V) → distinct (values m) ≡ true → distinct (values (remove k m)) ≡ true
  unfolding remove
  distinct-values-remove k [] h = refl
  distinct-values-remove k ((j, x) ∷ m) h =
      ground (arith, distinct-values-remove k m, values-remove-sub k m x)

  -- With distinct values, removing a key removes its value.
  pub values-remove_own :
      (k : K) (m : Map K V) (w : V)
      → distinct (values m) ≡ true
      → get k m ≡ some w
      → contains (values (remove k m)) w ≡ false
  unfolding get remove
  values-remove_own k [] w h g = cc
  values-remove_own k ((j, x) ∷ m) w h g = ground (
    arith,
    d.same_iff x w,
    contains-values_of_get k m w,
    values-remove_own k m w,
    values-remove-sub k m w,
  )

  -- With distinct values two keys of one value are one key.
  pub key_unique :
      (i j : K) (m : Map K V) (w : V)
      → distinct (values m) ≡ true
      → get i m ≡ some w
      → get j m ≡ some w
      → (i == j) ≡ true
  key_unique i j m w h g g' = ground (
    arith,
    values-remove_own i m w h g,
    get-remove j i m,
    contains-values_of_get j (remove i m) w,
  )
