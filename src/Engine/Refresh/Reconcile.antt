-- ===== src/Engine/Refresh/Reconcile.antt =====
-- weather-core/engine/src/refresh.rs: what a change of configuration and a change of the local
-- date do to the schedules, and how long the scheduler may sleep.
use native.Mathlib.Nat.{add-zero, add-suc, suc-add, zero-add}
use weather_app.Common.{
  List, [], ◌∷◌, Option, none, some, ℕ, suc, ◌+◌, ◌≡◌, refl, inl, inr, arith, contains, position,
  if◌then◌else◌, ◌==◌, list_eq, nat_eq, list_beq_iff, Bool-cases, ◌∙◌,
}
use weather_app.Common.Map.{get, get-insert, get-retain_keys}
use weather_app.Common.Text.{Text}
use weather_app.Engine.Refresh.{
  StationSchedule, Schedules, rescheduled, new_schedule, reconciled, reconcile_one, reconcile_from,
  reconcile_schedules,
}

-- A schedule that a second visit of `reconcile_schedules` would leave alone.
reconciled_again :
    (now ttl i j : ℕ) (o : Option StationSchedule)
    → reconciled now ttl j (some (reconciled now ttl i o)) ≡ reconciled now ttl i o
unfolding reconciled rescheduled new_schedule
reconciled_again now ttl i j none = refl
reconciled_again now ttl i j (some s) = ground arith

module _ (now ttl : ℕ) (n : Text) where
  get-reconcile_one :
      (i : ℕ) (name : Text) (schedules : Schedules)
      → get n (reconcile_one now ttl i name schedules)
        ≡ (if name == n then some (reconciled now ttl i (get n schedules)) else get n schedules)
  unfolding reconcile_one
  get-reconcile_one i name schedules = rw get-insert (elim (Bool-cases (name == n)) [
    | inl hit ↦ rw hit (rw ((list_beq_iff name n).0 hit))
    | inr miss ↦ rw miss
  ])

  reconcile_from-visited :
      (i j : ℕ) (order : List Text) (schedules : Schedules) (o : Option StationSchedule)
      → get n schedules ≡ some (reconciled now ttl j o)
      → get n (reconcile_from now ttl i order schedules) ≡ some (reconciled now ttl j o)
  unfolding reconcile_from
  reconcile_from-visited i j [] schedules o g = g
  reconcile_from-visited i j (name ∷ rest) schedules o g =
      reconcile_from-visited (suc i) j rest _ o
        (ground (arith, get-reconcile_one i name schedules, reconciled_again now ttl j i o))

  get-reconcile_from :
      (i : ℕ) (order : List Text) (schedules : Schedules)
      → get n (reconcile_from now ttl i order schedules) ≡ (
          if contains order n
          then some (reconciled now ttl (i + position order n) (get n schedules))
          else get n schedules)
  unfolding reconcile_from
  get-reconcile_from i [] schedules = refl
  get-reconcile_from i (name ∷ rest) schedules = elim (Bool-cases (name == n)) [
    | inl hit ↦ rw hit (
        reconcile_from-visited (suc i) (i + 0) rest _ (get n schedules)
          (get-reconcile_one i name schedules ∙ rw hit (rw add-zero)))
    | inr miss ↦
        rw miss (
          get-reconcile_from (suc i) rest _
          ∙ rw get-reconcile_one (rw miss (rw (add-suc, suc-add))))
  ]

pub get-reconcile_schedules :
    (schedules : Schedules) (order : List Text) (now ttl : ℕ) (n : Text)
    → get n (reconcile_schedules schedules order now ttl) ≡ (
        if contains order n
        then some (reconciled now ttl (position order n) (get n schedules))
        else none)
unfolding reconcile_schedules
get-reconcile_schedules schedules order now ttl n =
    get-reconcile_from now ttl n 0 order _
    ∙ rw get-retain_keys (elim (Bool-cases (contains order n)) [
      | inl listed ↦ rw listed (rw zero-add)
      | inr other ↦ rw other
    ])
