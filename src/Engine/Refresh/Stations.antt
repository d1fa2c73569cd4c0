-- ===== src/Engine/Refresh/Stations.antt =====
-- weather-core/engine/src/refresh.rs: the stations that the scheduler refreshes.
use weather_app.Config.{AppConfig, StationConfig}
use weather_app.Common.{
  Bool, true, false, ◌&&◌, ◌||◌, List, [], ◌∷◌, Option, none, some, ◌≡◌, refl, inl, inr, arith,
  contains, contains-append, distinct, distinct-append_one, ◌==◌, list_eq, nat_eq, list_beq_iff,
  Bool-cases,
}
use weather_app.Common.Text.{Text}
use weather_app.Schema.Station.{parent_station_name}
use weather_app.Engine.Refresh.{
  Collected, collect, collect_parent, collect_stations, enabled_stations,
}

-- The set and the vector agree, and the vector has no station twice.
record InStep (c : Collected) : Type 0 where
  same : (n : Text) → contains c.seen n ≡ contains c.stations n
  once : distinct c.stations ≡ true

collect-InStep : (name : Text) (c : Collected) → InStep c → InStep (collect name c)
unfolding collect
collect-InStep name c v = elim (Bool-cases (contains c.seen name)) [
  | inl old ↦ rw old v
  | inr new ↦ rw new (record {
    same = λ n. ground (arith, v.same n, contains-append c.stations (name ∷ []) n);
    once = distinct-append_one c.stations name v.once (ground (arith, v.same name));
  })
]

contains-collect :
    (n name : Text) (c : Collected)
    → InStep c
    → contains (collect name c).stations n ≡ (contains c.stations n || name == n)
unfolding collect
contains-collect n name c v = elim (Bool-cases (contains c.seen name)) [
  | inl old ↦ rw old (ground (arith, v.same name, list_beq_iff name n))
  | inr new ↦ rw new (ground (arith, contains-append c.stations (name ∷ []) n))
]

abbrev is_parent : Text → Option Text → Bool
is_parent n none = false
is_parent n (some parent) = parent == n

collect_parent-InStep :
    (parent : Option Text) (c : Collected) → InStep c → InStep (collect_parent parent c)
unfolding collect_parent
collect_parent-InStep none c v = v
collect_parent-InStep (some parent) c v = collect-InStep parent c v

contains-collect_parent :
    (n : Text) (parent : Option Text) (c : Collected)
    → InStep c
    → contains (collect_parent parent c).stations n ≡ (contains c.stations n || is_parent n parent)
unfolding collect_parent
contains-collect_parent n none c v = ground arith
contains-collect_parent n (some parent) c v = contains-collect n parent c v

-- `n` is the name of an enabled station of the configuration, or the parent of one.
abbrev pub is_tracked : Text → List StationConfig → Bool
is_tracked n [] = false
is_tracked n (s ∷ rest) =
    (s.enabled && (is_parent n (parent_station_name s.name) || s.name == n)) || is_tracked n rest

collect_stations-tracked :
    (n : Text) (l : List StationConfig) (c : Collected)
    → InStep c
    → (distinct (collect_stations l c).stations ≡ true)
      × (contains (collect_stations l c).stations n ≡ (contains c.stations n || is_tracked n l))
unfolding collect_stations
collect_stations-tracked n [] c v = (v.once, ground arith)
collect_stations-tracked n (s ∷ rest) c v = elim (Bool-cases s.enabled) [
  | inl on ↦
      let v' = collect_parent-InStep (parent_station_name s.name) c v in
      let (once, names) = collect_stations-tracked n rest _ (collect-InStep s.name _ v') in
      rw on (
        once,
        ground (
          arith,
          names,
          contains-collect n s.name (collect_parent (parent_station_name s.name) c) v',
          contains-collect_parent n (parent_station_name s.name) c v,
        ),
      )
  | inr off ↦ rw off (collect_stations-tracked n rest c v)
]

-- The scheduler's list names exactly the enabled stations and the parents of those that have one,
-- each once.
pub enabled_stations_lem :
    (config : AppConfig) (n : Text)
    → (distinct (enabled_stations config) ≡ true)
      × (contains (enabled_stations config) n ≡ is_tracked n config.stations)
unfolding enabled_stations
enabled_stations_lem config n =
    collect_stations-tracked n config.stations (record { seen = []; stations = [] })
      (record { same = λ _. refl; once = refl })
