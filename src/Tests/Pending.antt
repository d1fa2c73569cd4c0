-- ===== src/Tests/Pending.antt =====
-- weather-renderer/common/src/client/pending.rs at concrete inputs.
use weather_app.Common.{
  true, false, List, [], ◌∷◌, none, some, ℕ, ◌≡◌, refl, All, list_eq, nat_eq, pair_eq, ok, eqb,
}
use weather_app.Common.Map.{get, insert, remove, modify}
use weather_app.Common.Text.{Text, text}
use weather_app.Client.Pending.{
  Action, registers, completes, drops, acts, act, grant, register, enter, complete, receive, Lease,
  drop_lease, remove_if_matches,
}
use weather_app.Client.Pending.Waiters.{Attended, new_world, acts-Attended, complete-receive}

abbrev first : Text
first = text "first"

-- Two requests, the first answered; its id is used again before its lease is dropped.
abbrev reuse : List (Action ℕ ℕ)
reuse =
    registers first
    ∷ registers (text "second")
    ∷ completes first 7
    ∷ registers first
    ∷ drops (first, 0)
    ∷ []

acts-Attended_example :
    All (Attended 9 (acts reuse new_world).registry) (acts reuse new_world).leases
acts-Attended_example = acts-Attended 9 reuse

complete-receive_example :
    let r = (acts reuse new_world).registry in
    let (r', taken) = complete first 8 r in
    (taken ≡ true)
    × (receive 9 (first, 2) r' ≡ some (ok 8))
    × (get first r'.entries ≡ none)
    × ((l : Lease) → eqb 2 l.1 ≡ false → receive 9 l r' ≡ receive 9 l r)
unfolding acts act grant register enter complete drop_lease remove_if_matches get insert remove
    modify
complete-receive_example = complete-receive 9 reuse first 2 8 refl refl
