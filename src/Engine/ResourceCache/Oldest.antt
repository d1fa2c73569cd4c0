-- ===== src/Engine/ResourceCache/Oldest.antt =====
-- weather-core/engine/src/resource_cache.rs: what `min_by_key` over a HashMap finds.
use weather_app.Common.{
  true, [], ◌∷◌, none, some, ℕ, ◌≤◌, ◌≡◌, refl, inl, inr, arith, distinct, list_eq, nat_eq,
  list_beq_iff, Option-cases,
}
use weather_app.Common.Map.{Map, get, keys, contains-keys}
use weather_app.Common.Text.{Text}
use weather_app.Engine.ResourceCache.{min_by_key}

module _ {ℓ} {V : Type ℓ} (key : V → ℕ) where
  pub min_by_key-none : (m : Map Text V) → min_by_key key m ≡ none → m ≡ []
  unfolding min_by_key
  min_by_key-none [] e = refl
  min_by_key-none ((i, u) ∷ m) e = elim (Option-cases (min_by_key key m)) [
    | inl none_later ↦ ground arith
    | inr ((j, w), later) ↦ ground arith
  ]

  -- `min_by_key` finds an entry of the map, and no other has a smaller key.
  pub min_by_key-get :
      (m : Map Text V) (k : Text) (v : V)
      → distinct (keys m) ≡ true
      → min_by_key key m ≡ some (k, v)
      → get k m ≡ some v
  unfolding min_by_key get
  min_by_key-get [] k v d e = cc
  min_by_key-get ((i, u) ∷ m) k v d e = elim (Option-cases (min_by_key key m)) [
    | inl none_later ↦ ground (arith, list_beq_iff i k)
    | inr ((j, w), later) ↦ ground (
      arith,
      list_beq_iff i k,
      list_beq_iff i j,
      contains-keys j m,
      contains-keys i m,
      min_by_key-get m j w (ground arith) later,
    )
  ]

  pub min_by_key-least :
      (m : Map Text V) (k j : Text) (v w : V)
      → min_by_key key m ≡ some (k, v)
      → get j m ≡ some w
      → key v ≤ key w
  unfolding min_by_key get
  min_by_key-least [] k j v w e g = cc
  min_by_key-least ((i, u) ∷ m) k j v w e g = elim (Option-cases (min_by_key key m)) [
    | inl none_later ↦ ground (arith, min_by_key-none m none_later, nothing)
    | inr ((j', w'), later) ↦ ground (arith, min_by_key-least m j' j w' w later)
  ]
    where
      nothing : get {V = V} j [] ≡ none
      nothing = refl
