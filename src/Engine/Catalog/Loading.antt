-- ===== src/Engine/Catalog/Loading.antt =====
-- weather-core/engine/src/handlers/catalog.rs: `load_provider_city_scopes`, whose tasks end in any order.
-- The place of the task that ends next, and its end, are given for each wait.
pub mod Invariant
pub mod Complete
use weather_app.Common.{
  Bool, true, false, List, [], ◌∷◌, ◌++◌, Option, none, some, ℕ, zero, suc, ◌-◌, length,
  if◌then◌else◌, ltb, list_eq, nat_eq, Result, ok, err,
}
use weather_app.Common.Map.{Map, insert}
use weather_app.Common.Text.{Text, text, is_empty}
use weather_app.Db.Catalog.{ProviderCity}
use weather_app.Engine.Task.{AnyError}
use weather_app.Engine.Catalog.{max_concurrent_catalog_fetches, sort_provider_cities, quoted}

-- How a task ends: with the answer for its code, or by a panic.
pub data TaskEnd : Type 0 where
  answered : Result (List ProviderCity) AnyError → TaskEnd
  panicked : Text → TaskEnd

pub record Loading : Type 0 where
  pub pending : List Text
  pub tasks : List Text
  pub loaded : Map Text (List ProviderCity)

abbrev pub spawn_next : Loading → Loading
spawn_next s = elim s.pending [
  | [] ↦ s
  | code ∷ pending ↦ record s { pending = pending; tasks = s.tasks ++ code ∷ [] }
]

-- Tasks for the first codes; the fuel is the number of free places.
unfoldable pub spawn_first : ℕ → Loading → Loading
spawn_first zero s = s
spawn_first (suc free) s = spawn_first free (spawn_next s)

-- The task at a place, and the others.
unfoldable pub take_task : ℕ → Text → List Text → Text × List Text
take_task place first [] = (first, [])
take_task zero first (code ∷ others) = (first, code ∷ others)
take_task (suc place) first (code ∷ others) =
    let (chosen, rest) = take_task place code others in (chosen, first ∷ rest)

abbrev pub join_scope : Loading → Text × List Text → TaskEnd → Result Loading AnyError
join_scope s (code, others) (answered (ok cities)) = ok (
    spawn_next
      (record s { tasks = others; loaded = insert code (sort_provider_cities cities) s.loaded }))
join_scope s (code, others) (answered (err e)) =
    err ((text "failed to populate provider city scope " ++ quoted code) ∷ e)
join_scope s (code, others) (panicked message) =
    err ((text "provider city population task failed: " ++ message) ∷ [])

abbrev pub TaskWake : Type 0
TaskWake = ℕ × TaskEnd

abbrev pub after_join :
    Result Loading AnyError → (Loading → Result Loading AnyError) → Result Loading AnyError
after_join (ok s) go = go s
after_join (err e) go = err e

-- The loop, as far as the wakes go.
unfoldable pub join_from : List TaskWake → List Text → Loading → Result Loading AnyError
join_from wakes [] s = ok s
join_from [] (code ∷ others) s = ok s
join_from ((place, end) ∷ wakes) (code ∷ others) s =
    after_join (join_scope s (take_task place code others) end) (λ s'. join_from wakes s'.tasks s')

-- `none` where it still waits.
abbrev pub loaded_answer :
    Result Loading AnyError → Option (Result (Map Text (List ProviderCity)) AnyError)
loaded_answer (err e) = some (err e)
loaded_answer (ok s) = if is_empty s.tasks then some (ok s.loaded) else none

abbrev pub start_loading : List Text → Loading
start_loading codes =
    spawn_first max_concurrent_catalog_fetches (record { pending = codes; tasks = []; loaded = [] })

unfoldable pub load_provider_city_scopes :
    List Text → List TaskWake → Option (Result (Map Text (List ProviderCity)) AnyError)
load_provider_city_scopes codes wakes =
    let s = start_loading codes in loaded_answer (join_from wakes s.tasks s)
