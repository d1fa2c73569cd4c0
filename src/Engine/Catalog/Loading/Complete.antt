-- ===== src/Engine/Catalog/Loading/Complete.antt =====
-- weather-core/engine/src/handlers/catalog.rs: `load_provider_city_scopes` loads all scopes, or fails.
use weather_app.Common.{
  true, List, [], ◌∷◌, none, some, ◌≤◌, ◌≡◌, inl, inr, refl, ap, arith, length, contains, is_some,
  if◌then◌else◌, list_eq, nat_eq, Result, ok, err, ok-injective, subst,
}
use weather_app.Common.Map.{Map, contains_key}
use weather_app.Common.Text.{Text, is_empty}
use weather_app.Db.Catalog.{ProviderCity}
use weather_app.Engine.Task.{AnyError}
use weather_app.Engine.Catalog.{max_concurrent_catalog_fetches}
use weather_app.Engine.Catalog.Loading.{
  Loading, TaskWake, join_from, loaded_answer, start_loading, load_provider_city_scopes,
}
use weather_app.Engine.Catalog.Loading.Invariant.{
  Inv, left, OnOk, Kept, start_loading-Inv, join_from-Kept,
}

length-is_empty : (tasks : List Text) → length tasks ≡ 0 → is_empty tasks ≡ true
length-is_empty [] h = refl
length-is_empty (code ∷ tasks) h = absurd (omega (arith, h))

idle-answer :
    {A : Type 0} (tasks : List Text) (a b : A)
    → (if is_empty tasks then some a else none) ≡ some b
    → (tasks ≡ []) × (a ≡ b)
idle-answer [] a b h = (refl, cc)
idle-answer (code ∷ tasks) a b h = cc

answered-is_some :
    {A : Type 0} (tasks : List Text) (a : A)
    → is_empty tasks ≡ true
    → is_some (if is_empty tasks then some a else none) ≡ true
answered-is_some tasks a h = rw h

idle-pending : (codes : List Text) (s : Loading) → Inv codes 0 s → s.tasks ≡ [] → s.pending ≡ []
idle-pending codes s inv h = elim inv.busy [
  | inl p ↦ p
  | inr e ↦ absurd (omega (arith, e, ap length h))
]

loaded_answer-ends :
    (codes : List Text) (wakes : List TaskWake) (r : Result Loading AnyError) (s : Loading)
    → left s ≡ length codes
    → length codes ≤ length wakes
    → OnOk (Kept codes wakes s) r
    → is_some (loaded_answer r) ≡ true
loaded_answer-ends codes wakes (err e) s h enough k = refl
loaded_answer-ends codes wakes (ok s') s h enough k = answered-is_some s'.tasks (ok s'.loaded) (
    length-is_empty s'.tasks
      (elim k.1 [ inl e ↦ ap length e | inr e ↦ omega (arith, e, h, enough) ]))

loaded_answer_complete :
    (codes : List Text) (wakes : List TaskWake) (r : Result Loading AnyError) (s : Loading)
    (loaded : Map Text (List ProviderCity))
    → OnOk (Kept codes wakes s) r
    → loaded_answer r ≡ some (ok loaded)
    → (c : Text) → contains_key c loaded ≡ contains codes c
loaded_answer_complete codes wakes (err e) s loaded k h c = cc
loaded_answer_complete codes wakes (ok s') s loaded k h c =
    let (idle, same) = idle-answer s'.tasks (ok s'.loaded) (ok loaded) h in
    ground (
      arith,
      k.0.there c,
      ap (λ t. contains t c) idle,
      ap (λ t. contains t c) (idle-pending codes s' k.0 idle),
      ap (contains_key c) (ok-injective same),
    )

ok-bounded :
    (codes : List Text) (wakes : List TaskWake) (s s' : Loading) {r : Result Loading AnyError}
    → OnOk (Kept codes wakes s) r
    → r ≡ ok s'
    → length s'.tasks ≤ max_concurrent_catalog_fetches
ok-bounded codes wakes s s' kept h =
    omega (arith, (subst (OnOk (Kept codes wakes s)) h kept).0.bounded)

-- What is promised of the loop.
pub record Loads (codes : List Text) (wakes : List TaskWake) : Type 0 where
  bounded :
      (s : Loading)
      → join_from wakes (start_loading codes).tasks (start_loading codes) ≡ ok s
      → length s.tasks ≤ max_concurrent_catalog_fetches
  ends : length codes ≤ length wakes → is_some (load_provider_city_scopes codes wakes) ≡ true
  pub complete :
      (loaded : Map Text (List ProviderCity))
      → load_provider_city_scopes codes wakes ≡ some (ok loaded)
      → (c : Text) → contains_key c loaded ≡ contains codes c

-- In whatever order the tasks end and however each ends, never more than eight run; once each code had
-- its task end, or one failed, there is an answer; and an answer that is no error has a scope for each
-- code asked for and for no other.
pub load_provider_city_scopes-Loads :
    (codes : List Text) (wakes : List TaskWake) → Loads codes wakes
unfolding load_provider_city_scopes
load_provider_city_scopes-Loads codes wakes =
    let s = start_loading codes in
    let (inv, all) = start_loading-Inv codes in
    let kept = join_from-Kept codes wakes s.tasks s refl inv in
    record {
      bounded = λ s' h. ok-bounded codes wakes s s' kept h;
      ends = λ enough. loaded_answer-ends codes wakes (join_from wakes s.tasks s) s all enough kept;
      complete = λ loaded h.
          loaded_answer_complete codes wakes (join_from wakes s.tasks s) s loaded kept h;
    }
