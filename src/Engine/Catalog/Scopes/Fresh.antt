-- ===== src/Engine/Catalog/Scopes/Fresh.antt =====
-- weather-core/engine/src/handlers/catalog.rs: which scopes are taken from the stored ones, and which are
-- loaded.
use weather_app.Common.{
  true, false, not, false≢true, ◌&&◌, List, [], ◌∷◌, ◌++◌, Option, none, some, ℕ, ◌≡◌, inl, inr,
  refl, sym, ap, ◌∙◌, arith, contains, distinct, retain, is_some, or_else, if◌then◌else◌, ◌==◌,
  ==_iff, ==_refl, list_eq, nat_eq, Bool-cases,
}
use mathlib.Core.List.{append-nil, append_assoc}
use weather_app.Common.Map.{Map, get, remove, contains_key, get-insert, get-remove}
use weather_app.Common.Text.{Text}
use weather_app.Db.Catalog.{ProviderCity}
use weather_app.Engine.Catalog.Scopes.{
  ProviderCityScopeCache, fresh_items, Split, put_scope, split_scopes, extend_scopes,
}

-- An element of a list is not one that is not in it.
pub other-contains :
    (codes : List Text) (code c : Text)
    → contains codes code ≡ false
    → contains codes c ≡ true
    → (code == c) ≡ false
other-contains codes code c h k = elim (Bool-cases (code == c)) [
  | inl same ↦ absurd (ground (arith, h, k, ap (contains codes) ((==_iff code c).0 same)))
  | inr other ↦ other
]

pub get-extend_scopes :
    (c : Text) (city_scopes loaded : Map Text (List ProviderCity))
    → get c (extend_scopes city_scopes loaded) ≡ or_else (get c loaded) (get c city_scopes)
unfolding extend_scopes get
get-extend_scopes c city_scopes [] = refl
get-extend_scopes c city_scopes ((code, items) ∷ loaded) = ground (
  arith,
  get-insert c code items (extend_scopes city_scopes loaded),
  get-extend_scopes c city_scopes loaded,
)

-- Stored cities, or else those loaded.
abbrev pub fresh_or_loaded :
    Option (List ProviderCity) → Option (List ProviderCity) → List ProviderCity
fresh_or_loaded (some items) loaded = items
fresh_or_loaded none (some items) = items
fresh_or_loaded none none = []

or_else-none : (o : Option (List ProviderCity)) → or_else o none ≡ o
or_else-none none = refl
or_else-none (some items) = refl

fresh_or_loaded_lem :
    (fresh loaded : Option (List ProviderCity))
    → is_some loaded ≡ not (is_some fresh)
    → or_else loaded fresh ≡ some (fresh_or_loaded fresh loaded)
fresh_or_loaded_lem (some items) none h = refl
fresh_or_loaded_lem (some items) (some more) h = absurd (false≢true (sym h))
fresh_or_loaded_lem none (some items) h = refl
fresh_or_loaded_lem none none h = absurd (false≢true h)

module _ (now ttl_seconds : ℕ) (stored : Map Text ProviderCityScopeCache) where
  abbrev pub fresh_scope : Text → Option (List ProviderCity)
  fresh_scope code = fresh_items now ttl_seconds (get code stored)

  abbrev pub stale_codes : List Text → List Text
  stale_codes codes = retain (λ code. not (is_some (fresh_scope code))) codes

  pub record Splits (codes : List Text) (split out : Split) : Type 0 where
    pub pending : out.1 ≡ split.1 ++ stale_codes codes
    pub scopes :
        (c : Text)
        → get c out.0
          ≡ (if contains codes c then or_else (fresh_scope c) (get c split.0) else get c split.0)

  put_same :
      (code : Text) (split : Split) (o : Option (List ProviderCity)) (c : Text)
      → get c (put_scope code o split).0
        ≡ (if code == c then or_else o (get c split.0) else get c split.0)
  put_same code split (some items) c = get-insert c code items split.0
  put_same code split none c = ground arith

  put_scope-get :
      (code : Text) (codes : List Text) (split out : Split) (o : Option (List ProviderCity))
      → fresh_scope code ≡ o
      → contains codes code ≡ false
      → Splits codes (put_scope code o split) out
      → (c : Text)
      → get c out.0 ≡ (
          if contains (code ∷ codes) c
          then or_else (fresh_scope c) (get c split.0)
          else get c split.0)
  put_scope-get code codes split out o e h s c = elim (Bool-cases (code == c)) [
    | inl same ↦
        let p = (==_iff code c).0 same in
        ground (
          arith,
          h,
          e,
          s.scopes c,
          ap (contains codes) p,
          ap fresh_scope p,
          put_same code split o c,
        )
    | inr other ↦ ground (arith, other, s.scopes c, put_same code split o c)
  ]

  put_scope-Splits :
      (code : Text) (codes : List Text) (split out : Split) (o : Option (List ProviderCity))
      → fresh_scope code ≡ o
      → contains codes code ≡ false
      → Splits codes (put_scope code o split) out
      → Splits (code ∷ codes) split out
  put_scope-Splits code codes split out (some items) e h s = record {
    pending = rw e s.pending;
    scopes = λ c. put_scope-get code codes split out (some items) e h s c;
  }
  put_scope-Splits code codes split out none e h s = record {
    pending = rw e (s.pending ∙ append_assoc split.1 (code ∷ []) (stale_codes codes));
    scopes = λ c. put_scope-get code codes split out none e h s c;
  }

  pub split_scopes-Splits :
      (cached : Map Text ProviderCityScopeCache) (codes : List Text) (split : Split)
      → distinct codes ≡ true
      → ((c : Text) → contains codes c ≡ true → get c cached ≡ get c stored)
      → Splits codes split (split_scopes now ttl_seconds cached codes split)
  unfolding split_scopes
  split_scopes-Splits cached [] split h same = record {
    pending = sym (append-nil split.1);
    scopes = λ c. refl;
  }
  split_scopes-Splits cached (code ∷ codes) split h same =
      let fresh = fresh_items now ttl_seconds (get code cached) in
      put_scope-Splits code codes split _ fresh
        (ap (fresh_items now ttl_seconds) (sym (same code (ground (arith, ==_refl code)))))
        (ground (arith, h))
        (split_scopes-Splits (remove code cached) codes (put_scope code fresh split)
          (ground (arith, h))
          (λ c k. ground (
            arith,
            get-remove c code cached,
            other-contains codes code c (ground (arith, h)) k,
            same c,
          )))

  pub contains-stale_codes :
      (codes : List Text) (c : Text)
      → contains (stale_codes codes) c ≡ (contains codes c && not (is_some (fresh_scope c)))
  contains-stale_codes [] c = refl
  contains-stale_codes (code ∷ codes) c = elim (Bool-cases (code == c)) [
    | inl same ↦
        ground (arith, same, ap fresh_scope ((==_iff code c).0 same), contains-stale_codes codes c)
    | inr other ↦ ground (arith, other, contains-stale_codes codes c)
  ]

  -- The stored cities of a province if they are fresh, and the loaded ones if not.
  abbrev pub cities_of : Map Text (List ProviderCity) → Text → List ProviderCity
  cities_of loaded code = fresh_or_loaded (fresh_scope code) (get code loaded)

  pub taken_lem :
      (codes : List Text) (out : Split) (loaded : Map Text (List ProviderCity))
      → Splits codes ([], []) out
      → ((c : Text) → contains_key c loaded ≡ contains (stale_codes codes) c)
      → (c : Text) → contains codes c ≡ true
      → get c (extend_scopes out.0 loaded) ≡ some (cities_of loaded c)
  unfolding get
  taken_lem codes out loaded splits complete c k =
      get-extend_scopes c out.0 loaded
      ∙ ap (or_else (get c loaded)) (
          splits.scopes c
          ∙ ap (λ b. if b then or_else (fresh_scope c) none else none) k
          ∙ or_else-none (fresh_scope c))
      ∙ fresh_or_loaded_lem (fresh_scope c) (get c loaded)
          (ground (arith, complete c, contains-stale_codes codes c, k))
