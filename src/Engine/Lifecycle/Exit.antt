-- ===== src/Engine/Lifecycle/Exit.antt =====
-- weather-core/engine/src/lifecycle.rs: the first request to exit is the one that is followed.
use weather_app.Common.{List, [], ◌∷◌, ◌++◌, some, ◌≡◌, refl}
use weather_app.Engine.Lifecycle.{
  EngineExit, shutdown, new_control, request_exit, request_exits, wait_for_exit,
}

-- The first of some requests; without any, the engine shuts down.
abbrev pub first_request : List EngineExit → EngineExit
first_request [] = shutdown
first_request (exit ∷ exits) = exit

abbrev pub in_order : List (List EngineExit) → List EngineExit
in_order [] = []
in_order (exits ∷ later) = exits ++ in_order later

request_exits-some :
    (exits : List EngineExit) (exit : EngineExit)
    → request_exits exits (record { requested = some exit }) ≡ record { requested = some exit }
unfolding request_exits request_exit
request_exits-some [] exit = refl
request_exits-some (e ∷ exits) exit = request_exits-some exits exit

wait_for_exit-some :
    (later : List (List EngineExit)) (exit : EngineExit)
    → wait_for_exit later (record { requested = some exit }) ≡ exit
unfolding wait_for_exit
wait_for_exit-some [] exit = refl
wait_for_exit-some (exits ∷ later) exit = refl

-- However the requests to exit are spread over the reads of the task that waits, it exits the way the
-- first of all the requests asks for, and it shuts down if the senders go without a request.
pub wait_for_exit-first_request :
    (turns : List (List EngineExit))
    → wait_for_exit turns new_control ≡ first_request (in_order turns)
unfolding wait_for_exit request_exits request_exit
wait_for_exit-first_request [] = refl
wait_for_exit-first_request ([] ∷ later) = wait_for_exit-first_request later
wait_for_exit-first_request ((exit ∷ exits) ∷ later) =
    rw (request_exits-some exits exit) (wait_for_exit-some later exit)
