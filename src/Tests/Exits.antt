-- ===== src/Tests/Exits.antt =====
-- weather-core/engine/src/lifecycle.rs at concrete inputs.
use weather_app.Common.{List, [], ◌∷◌, ◌≡◌}
use weather_app.Engine.Lifecycle.{EngineExit, restart, shutdown, new_control, wait_for_exit}
use weather_app.Engine.Lifecycle.Exit.{wait_for_exit-first_request}

abbrev turns : List (List EngineExit)
turns = [] ∷ (restart ∷ shutdown ∷ []) ∷ (shutdown ∷ []) ∷ []

wait_for_exit-first_request_example : wait_for_exit turns new_control ≡ restart
wait_for_exit-first_request_example = wait_for_exit-first_request turns
