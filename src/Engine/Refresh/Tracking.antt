-- ===== src/Engine/Refresh/Tracking.antt =====
-- weather-core/engine/src/refresh.rs: what the loop over the due stations does to the schedules.
use weather_app.Common.{
  true, false, List, [], ◌∷◌, ◌++◌, some, ℕ, ◌≤◌, ◌≡◌, refl, ◌⊎◌, inl, inr, arith, length,
  length-append, contains, contains-append, distinct, leb, ◌==◌, list_eq, nat_eq, list_beq_iff,
  Bool-cases, Option-cases, distinct-append_one,
}
use weather_app.Common.Map.{get, insert, get-insert}
use weather_app.Common.Text.{Text}
use weather_app.Engine.Refresh.{
  StationSchedule, Schedules, claimable, claim_schedule, claim_one, claim_from,
}

claimable-claim_schedule :
    (now now' ttl : ℕ) (s : StationSchedule) → claimable now' (claim_schedule now ttl s) ≡ false
unfolding claimable claim_schedule
claimable-claim_schedule now now' ttl s = refl

-- One round claims nothing, or the station at hand, which was claimable and is now in flight.
pub claim_one-cases :
    (now ttl : ℕ) (name : Text) (schedules : Schedules) (claimed : List Text)
    → (claim_one now ttl name (schedules, claimed) ≡ (schedules, claimed))
      ⊎ ((s : StationSchedule) × (get name schedules ≡ some s)
          × (claimable now s ≡ true)
          × (claim_one now ttl name (schedules, claimed)
              ≡ (insert name (claim_schedule now ttl s) schedules, claimed ++ name ∷ [])))
unfolding claim_one
claim_one-cases now ttl name schedules claimed = elim (Option-cases (get name schedules)) [
  | inl e ↦ inl (rw (e, claim_one))
  | inr (s, e) ↦ elim (Bool-cases (claimable now s)) [
    | inl c ↦ inr (s, e, c, rw (e, claim_one) (rw c))
    | inr c ↦ inl (rw (e, claim_one) (rw c))
  ]
]

-- Due by `now`, with no job of its own.
abbrev pub IsDue : ℕ → StationSchedule → Type 0
IsDue now s = (s.in_flight ≡ false) × (due : ℕ) × (s.next_due ≡ some due) × (due ≤ now)

IsDue-of_claimable : (now : ℕ) (s : StationSchedule) → claimable now s ≡ true → IsDue now s
unfolding claimable
IsDue-of_claimable now s h = elim (Option-cases s.next_due) [
  | inl e ↦ ground arith
  | inr (due, e) ↦ (ground arith, due, e, ground arith)
]

pub claimable-of_IsDue : (now : ℕ) (s : StationSchedule) → IsDue now s → claimable now s ≡ true
unfolding claimable
claimable-of_IsDue now s (idle, due, e, h) = ground arith

-- What has become of station `n`, which had the schedule `get n before`.
abbrev pub Tracks : ℕ → ℕ → Schedules → Text → Schedules × List Text → Type 0
Tracks now ttl before n (after, claimed) =
    ((contains claimed n ≡ false) × (get n after ≡ get n before))
    ⊎ ((s : StationSchedule) × (contains claimed n ≡ true)
        × (get n before ≡ some s)
        × IsDue now s
        × (get n after ≡ some (claim_schedule now ttl s)))

module _ (now ttl : ℕ) (before : Schedules) where
  pub claim-Tracks :
      (n name : Text) (s : StationSchedule) (after : Schedules) (claimed : List Text)
      → get name after ≡ some s
      → claimable now s ≡ true
      → Tracks now ttl before n (after, claimed)
      → Tracks now ttl before n (insert name (claim_schedule now ttl s) after, claimed ++ name ∷ [])
  claim-Tracks n name s after claimed e c (inl (out, same)) = elim (Bool-cases (name == n)) [
    | inl hit ↦ inr (
      s,
      ground (arith, contains-append claimed (name ∷ []) n),
      ground (arith, list_beq_iff name n),
      IsDue-of_claimable now s c,
      rw get-insert (rw hit),
    )
    | inr miss ↦
        inl (ground (arith, contains-append claimed (name ∷ []) n), rw get-insert (rw miss same))
  ]
  claim-Tracks n name s after claimed e c (inr (s', held, old, ready, new)) =
      elim (Bool-cases (name == n)) [
        | inl hit ↦ ground (arith, list_beq_iff name n, claimable-claim_schedule now now ttl s')
        | inr miss ↦ inr (
          s',
          ground (arith, contains-append claimed (name ∷ []) n),
          old,
          ready,
          rw get-insert (rw miss new),
        )
      ]

  pub claim_from-Tracks :
      (n : Text) (available : ℕ) (order : List Text) (after : Schedules) (claimed : List Text)
      → Tracks now ttl before n (after, claimed)
      → Tracks now ttl before n (claim_from now ttl available order (after, claimed))
  unfolding claim_from
  claim_from-Tracks n available [] after claimed t = t
  claim_from-Tracks n available (name ∷ rest) after claimed t =
      elim (Bool-cases (leb available (length claimed))) [
        | inl full ↦ rw full t
        | inr free ↦ rw free (elim (claim_one-cases now ttl name after claimed) [
          | inl e ↦ rw e (claim_from-Tracks n available rest after claimed t)
          | inr (s, g, c, e) ↦
              rw e
                (claim_from-Tracks n available rest _ _ (claim-Tracks n name s after claimed g c t))
        ])
      ]

  -- With the schedules of all claimed stations in flight, no station is claimed twice.
  pub claim_from-distinct :
      (available : ℕ) (order : List Text) (after : Schedules) (claimed : List Text)
      → ((n : Text) → Tracks now ttl before n (after, claimed))
      → distinct claimed ≡ true
      → distinct (claim_from now ttl available order (after, claimed)).1 ≡ true
  unfolding claim_from
  claim_from-distinct available [] after claimed t d = d
  claim_from-distinct available (name ∷ rest) after claimed t d =
      elim (Bool-cases (leb available (length claimed))) [
        | inl full ↦ rw full d
        | inr free ↦ rw free (elim (claim_one-cases now ttl name after claimed) [
          | inl e ↦ rw e (claim_from-distinct available rest after claimed t d)
          | inr (s, g, c, e) ↦ rw e (
              claim_from-distinct available rest _ _
                (λ n. claim-Tracks n name s after claimed g c (t n))
                (distinct-append_one claimed name d (unclaimed name s after claimed g c (t name))))
        ])
      ]
    where
      unclaimed :
          (name : Text) (s : StationSchedule) (after : Schedules) (claimed : List Text)
          → get name after ≡ some s
          → claimable now s ≡ true
          → Tracks now ttl before name (after, claimed)
          → contains claimed name ≡ false
      unclaimed name s after claimed g c t = elim t [
        | inl (out, same) ↦ out
        | inr (s', held, old, ready, new) ↦ ground (arith, claimable-claim_schedule now now ttl s')
      ]

-- The claims never pass the free slots, and never shrink.
pub claim_from-length :
    (now ttl available : ℕ) (order : List Text) (schedules : Schedules) (claimed : List Text)
    → length claimed ≤ available
    → (length (claim_from now ttl available order (schedules, claimed)).1 ≤ available)
      × (length claimed ≤ length (claim_from now ttl available order (schedules, claimed)).1)
unfolding claim_from
claim_from-length now ttl available [] schedules claimed h = (h, omega arith)
claim_from-length now ttl available (name ∷ rest) schedules claimed h =
    elim (Bool-cases (leb available (length claimed))) [
      | inl full ↦ rw full (h, omega arith)
      | inr free ↦ rw free (elim (claim_one-cases now ttl name schedules claimed) [
        | inl e ↦ rw e (claim_from-length now ttl available rest schedules claimed h)
        | inr (s, g, c, e) ↦ rw e (
            ground (
              arith,
              length-append claimed (name ∷ []),
              claim_from-length now ttl available rest
                  (insert name (claim_schedule now ttl s) schedules) (claimed ++ name ∷ []),
            ))
      ])
    ]
