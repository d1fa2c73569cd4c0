-- ===== src/Engine/Singleflight.antt =====
-- weather-core/engine/src/singleflight.rs: concurrent calls with one key share a flight. A flight,
-- which the source compares by `Arc::ptr_eq`, is the number of its `OnceCell`; `K` is the key.
pub mod Joining
pub mod Leases
pub mod Results
use weather_app.Common.{
  Bool, true, false, not, ◌&&◌, List, [], ◌∷◌, Option, none, some, ℕ, zero, suc, ◌+◌, ◌-◌,
  if◌then◌else◌, eqb, ◌==◌, Key, pair_eq, nat_eq, contains, Result, ok, err,
}
use weather_app.Common.Map.{Map, get, insert, remove}
use weather_app.Common.Text.{Text}

pub record FlightEntry : Type 0 where
  pub flight : ℕ
  pub participants : ℕ

-- `SharedResult`.
abbrev pub SharedResult : Type 0 → Type 0
SharedResult V = Result V Text

-- The map of the mutex, and the cells of all flights made so far.
pub record State (K V : Type 0) : Type 0 where
  pub flights : Map K FlightEntry
  pub cells : Map ℕ (Option (SharedResult V))
  pub next_flight : ℕ

module _ {K V : Type 0} ⦃e : Key K⦄ where
  abbrev pub new_state : State K V
  new_state = record { flights = []; cells = []; next_flight = 0 }

  -- A `FlightLease`: its key and its flight.
  unfoldable pub join : K → State K V → State K V × (K × ℕ)
  join key s = elim (get key s.flights) [
    | some entry ↦ (
      record s {
        flights = insert key (record entry { participants = entry.participants + 1 }) s.flights;
      },
      (key, entry.flight),
    )
    | none ↦ (
      record s {
        flights = insert key (record { flight = s.next_flight; participants = 1 }) s.flights;
        cells = insert s.next_flight none s.cells;
        next_flight = suc s.next_flight;
      },
      (key, s.next_flight),
    )
  ]

  -- One participant less, and no entry for none.
  unfoldable pub leave : K → FlightEntry → State K V → State K V
  leave key entry s =
      let participants = entry.participants - 1 in
      record s {
        flights =
            if eqb participants 0
            then remove key s.flights
            else insert key (record entry { participants = participants }) s.flights;
      }

  -- `FlightLease::drop`.
  unfoldable pub drop_lease : K × ℕ → State K V → State K V
  drop_lease (key, flight) s = elim (get key s.flights) [
    | none ↦ s
    | some entry ↦ if eqb entry.flight flight then leave key entry s else s
  ]

  -- `OnceCell::get_or_init`, when an initializer has run to its end: the first result stays.
  unfoldable pub initialise : ℕ → SharedResult V → State K V → State K V
  initialise flight result s = elim (get flight s.cells) [
    | some none ↦ record s { cells = insert flight (some result) s.cells }
    | some (some earlier) ↦ s
    | none ↦ s
  ]

  -- What the holder of a lease reads.
  unfoldable pub shared_result : K × ℕ → State K V → Option (SharedResult V)
  shared_result (key, flight) s = elim (get flight s.cells) [ some cell ↦ cell | none ↦ none ]

-- The steps of calls of `run`: each joins, may run the work of its flight to its end, and leaves,
-- with the result or when it is cancelled.
pub data Step (K V : Type 0) : Type 0 where
  joins : K → Step K V
  works : K × ℕ → SharedResult V → Step K V
  leaves : K × ℕ → Step K V

pub record World (K V : Type 0) : Type 0 where
  pub state : State K V
  pub leases : List (K × ℕ)

module _ {K : Type 0} ⦃e : Key K⦄ where
  -- The list without one occurrence of a lease.
  abbrev pub without : K × ℕ → List (K × ℕ) → List (K × ℕ)
  without lease [] = []
  without lease (l ∷ leases) = if l == lease then leases else l ∷ without lease leases

module _ {K V : Type 0} ⦃e : Key K⦄ where
  unfoldable pub step : Step K V → World K V → World K V
  step (joins key) w =
      let (state, lease) = join key w.state in record { state = state; leases = lease ∷ w.leases }
  step (works lease result) w =
      if contains w.leases lease then record w { state = initialise lease.1 result w.state } else w
  step (leaves lease) w =
      if contains w.leases lease
      then record { state = drop_lease lease w.state; leases = without lease w.leases }
      else w

  unfoldable pub steps : List (Step K V) → World K V → World K V
  steps [] w = w
  steps (s ∷ rest) w = steps rest (step s w)
