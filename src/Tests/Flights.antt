-- ===== src/Tests/Flights.antt =====
-- weather-core/engine/src/singleflight.rs at concrete inputs.
use weather_app.Common.{true, List, [], ◌∷◌, none, ℕ, ◌≡◌, ok, contains, list_eq, nat_eq, pair_eq}
use weather_app.Common.Text.{Text, text}
use weather_app.Engine.Singleflight.{Step, joins, works, leaves, steps, step, join, shared_result}
use weather_app.Engine.Singleflight.Joining.{Inv, held}
use weather_app.Engine.Singleflight.Leases.{new_world, steps-Inv}
use weather_app.Engine.Singleflight.Results.{join-overlap}

abbrev wuhan : Text
wuhan = text "wuhan"

-- Two calls overlap; the first runs its work.
abbrev overlap : List (Step Text ℕ)
overlap = joins wuhan ∷ joins wuhan ∷ works (wuhan, 0) (ok 7) ∷ []

-- The other tries its own work, both leave, and a later call starts anew.
abbrev later : List (Step Text ℕ)
later =
    works (wuhan, 0) (ok 8)
    ∷ leaves (wuhan, 0)
    ∷ leaves (wuhan, 0)
    ∷ joins wuhan
    ∷ works (wuhan, 1) (ok 9)
    ∷ []

steps-Inv_example : Inv (steps later (steps overlap new_world))
unfolding steps step
steps-Inv_example = steps-Inv (joins wuhan ∷ joins wuhan ∷ works (wuhan, 0) (ok 7) ∷ later)

join-overlap_example :
    let w = steps overlap new_world in
    let (s, lease) = join wuhan w.state in
    ((g : ℕ) → contains w.leases (wuhan, g) ≡ true → lease ≡ (wuhan, g))
    × (held wuhan w.leases ≡ 0 → shared_result lease s ≡ none)
join-overlap_example = join-overlap overlap wuhan
