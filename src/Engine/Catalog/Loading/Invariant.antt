-- ===== src/Engine/Catalog/Loading/Invariant.antt =====
-- weather-core/engine/src/handlers/catalog.rs: what the loop of `load_provider_city_scopes` keeps.
use weather_app.Common.{
  Bool, false, ◌||◌, List, [], ◌∷◌, ℕ, zero, suc, ◌+◌, ◌≤◌, ◌≡◌, ◌⊎◌, inl, inr, refl, sym, ap, ◌∙◌,
  arith, length, length-append, contains, contains-append, ◌==◌, list_eq, nat_eq, Result, ok, err,
}
use weather_app.Common.Map.{Map, get, insert, get-insert, contains_key}
use weather_app.Common.Text.{Text}
use weather_app.Db.Catalog.{ProviderCity}
use weather_app.Engine.Task.{AnyError}
use weather_app.Engine.Catalog.{max_concurrent_catalog_fetches, sort_provider_cities}
use weather_app.Engine.Catalog.Loading.{
  TaskEnd, answered, panicked, Loading, spawn_next, spawn_first, take_task, join_scope, TaskWake,
  after_join, join_from, start_loading,
}

-- The codes wait, run or are loaded, and `free` places may be taken: no more run than may, and a code
-- waits only if all the others are.
pub record Inv (codes : List Text) (free : ℕ) (s : Loading) : Type 0 where
  pub bounded : length s.tasks + free ≤ max_concurrent_catalog_fetches
  pub busy : (s.pending ≡ []) ⊎ (length s.tasks + free ≡ max_concurrent_catalog_fetches)
  pub there :
      (c : Text)
      → (contains s.pending c || (contains s.tasks c || contains_key c s.loaded)) ≡ contains codes c

abbrev pub left : Loading → ℕ
left s = length s.pending + length s.tasks

spawn_next-Inv :
    (codes : List Text) (free : ℕ) (pending tasks : List Text)
    (loaded : Map Text (List ProviderCity))
    → let s : Loading = record { pending = pending; tasks = tasks; loaded = loaded } in
      Inv codes (suc free) s → Inv codes free (spawn_next s) × (left (spawn_next s) ≡ left s)
spawn_next-Inv codes free [] tasks loaded inv =
    (record { bounded = omega (arith, inv.bounded); busy = inl refl; there = inv.there }, refl)
spawn_next-Inv codes free (code ∷ pending) tasks loaded inv =
    let longer = length-append tasks (code ∷ []) in
    (
      record {
        bounded = omega (arith, longer, inv.bounded);
        busy = ground (arith, longer, inv.busy);
        there = λ c. ground (arith, contains-append tasks (code ∷ []) c, inv.there c);
      },
      omega (arith, longer),
    )

spawn_first-Inv :
    (codes : List Text) (free : ℕ) (s : Loading)
    → Inv codes free s
    → Inv codes 0 (spawn_first free s) × (left (spawn_first free s) ≡ left s)
unfolding spawn_first
spawn_first-Inv codes zero s inv = (inv, refl)
spawn_first-Inv codes (suc free) s inv =
    let (next, same) = spawn_next-Inv codes free s.pending s.tasks s.loaded inv in
    let (last, same') = spawn_first-Inv codes free (spawn_next s) next in (last, same' ∙ same)

or_false : (b : Bool) → (b || false) ≡ b
or_false b = ground arith

pub start_loading-Inv :
    (codes : List Text)
    → Inv codes 0 (start_loading codes) × (left (start_loading codes) ≡ length codes)
unfolding get
start_loading-Inv codes =
    let s : Loading = record { pending = codes; tasks = []; loaded = [] } in
    let (inv, same) = spawn_first-Inv codes max_concurrent_catalog_fetches s (record {
      bounded = omega arith;
      busy = inr refl;
      there = λ c. or_false (contains codes c);
    }) in
    (inv, omega (arith, same))

or_swap : (a b c : Bool) → ((a || b) || c) ≡ (c || (a || b))
or_swap a b c = ground arith

-- Taking a task out leaves the others.
take_task_lem :
    (place : ℕ) (first : Text) (others : List Text)
    → let (chosen, rest) = take_task place first others in
      (length rest ≡ length others)
      × ((c : Text) → (contains rest c || (chosen == c)) ≡ contains (first ∷ others) c)
unfolding take_task
take_task_lem place first [] = (refl, λ c. ground arith)
take_task_lem zero first (code ∷ others) =
    (refl, λ c. or_swap (code == c) (contains others c) (first == c))
take_task_lem (suc place) first (code ∷ others) =
    let kept = take_task_lem place code others in
    (omega (arith, kept.0), λ c. ground (arith, kept.1 c))

abbrev pub OnOk : (Loading → Type 0) → Result Loading AnyError → Type 0
OnOk P (ok s) = P s
OnOk P (err e) = Unit

after_join-OnOk :
    {P : Loading → Type 0} (Q : Loading → Type 0) (r : Result Loading AnyError)
    (go : Loading → Result Loading AnyError)
    → OnOk P r
    → ((s : Loading) → P s → OnOk Q (go s))
    → OnOk Q (after_join r go)
after_join-OnOk Q (ok s) go p q = q s p
after_join-OnOk Q (err e) go p q = tt

OnOk-map :
    (P Q : Loading → Type 0) (r : Result Loading AnyError)
    → ((s : Loading) → P s → Q s)
    → OnOk P r
    → OnOk Q r
OnOk-map P Q (ok s) f p = f s p
OnOk-map P Q (err e) f p = tt

join_scope-Inv :
    (codes : List Text) (s : Loading) (chosen : Text) (rest : List Text) (end : TaskEnd)
    → Inv codes 0 s
    → suc (length rest) ≡ length s.tasks
    → ((c : Text) → (contains rest c || (chosen == c)) ≡ contains s.tasks c)
    → OnOk (λ s'. Inv codes 0 s' × (suc (left s') ≡ left s)) (join_scope s (chosen, rest) end)
join_scope-Inv codes s chosen rest (answered (ok cities)) inv fewer kept =
    let sorted = sort_provider_cities cities in
    let (next, same) =
      spawn_next-Inv codes 0 s.pending rest (insert chosen sorted s.loaded) (record {
        bounded = omega (arith, fewer, inv.bounded);
        busy = ground (arith, fewer, inv.busy);
        there = λ c. ground (arith, get-insert c chosen sorted s.loaded, kept c, inv.there c);
      }) in
    (next, omega (arith, same, fewer))
join_scope-Inv codes s chosen rest (answered (err e)) inv fewer kept = tt
join_scope-Inv codes s chosen rest (panicked message) inv fewer kept = tt

-- After the wakes none runs, or each of them ended a task.
abbrev pub Kept : List Text → List TaskWake → Loading → Loading → Type 0
Kept codes wakes s s' = Inv codes 0 s' × ((s'.tasks ≡ []) ⊎ (left s' + length wakes ≡ left s))

pub join_from-Kept :
    (codes : List Text) (wakes : List TaskWake) (tasks : List Text) (s : Loading)
    → s.tasks ≡ tasks
    → Inv codes 0 s
    → OnOk (Kept codes wakes s) (join_from wakes tasks s)
unfolding join_from
join_from-Kept codes wakes [] s h inv = (inv, inl h)
join_from-Kept codes [] (code ∷ others) s h inv = (inv, inr (omega arith))
join_from-Kept codes ((place, end) ∷ wakes) (code ∷ others) s h inv =
    let (chosen, rest) = take_task place code others in
    let (fewer, kept) = take_task_lem place code others in
    after_join-OnOk (Kept codes ((place, end) ∷ wakes) s)
      (join_scope s (take_task place code others) end) (λ s'. join_from wakes s'.tasks s')
      (join_scope-Inv codes s chosen rest end inv (ap suc fewer ∙ sym (ap length h))
        (λ c. kept c ∙ sym (ap (λ t. contains t c) h)))
      (λ s' p.
        OnOk-map (Kept codes wakes s') (Kept codes ((place, end) ∷ wakes) s)
          (join_from wakes s'.tasks s') (λ t k. (k.0, ground (arith, k.1, p.1)))
          (join_from-Kept codes wakes s'.tasks s' refl p.0))
