-- ===== src/Tests/Sessions.antt =====
-- weather-renderer/common/src/client/session.rs at concrete inputs.
use weather_app.Common.{true, List, [], ◌∷◌, some, ℕ, ◌≡◌, refl, err, All, is_some}
use weather_app.Common.Text.{Text, text}
use weather_app.Client.Pending.{registers, register, receive, terminal_error}
use weather_app.Client.Session.{
  ClientFailure, closed, rpc_receive, Session, Step, uses, closes, sees_shutdown, joins_task,
  drains_task, finishes, returned, receive_task, new_session, steps, step, join_task, stop,
  drain_task, finish, complete_session,
}
use weather_app.Client.Session.Ending.{done_session, close-done, drains}

-- A request waits when the receiving task loses its connection.
abbrev lost : List (Step ℕ)
lost =
    uses (registers (text "first"))
    ∷ joins_task (returned receive_task (err (rpc_receive (text "lost"))))
    ∷ drains_task
    ∷ drains_task
    ∷ finishes
    ∷ []

abbrev after : Session ℕ
after = steps lost new_session

done_session_example :
    (f : ClientFailure) × ((later : List (Step ℕ))
      → (steps later after).pending.registry.terminal ≡ some f)
    × All
        (λ lease. is_some (receive closed lease after.pending.registry) ≡ true)
        after.pending.leases
    × ((id : Text) → (register id after.pending.registry).1 ≡ err (terminal_error f))
unfolding steps step join_task stop drain_task finish complete_session
done_session_example = done_session lost closed refl

close-done_example : (steps {R = ℕ} (closes ∷ sees_shutdown ∷ drains 3) new_session).done ≡ true
unfolding steps
close-done_example = close-done []
