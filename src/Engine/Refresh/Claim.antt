-- ===== src/Engine/Refresh/Claim.antt =====
-- weather-core/engine/src/refresh.rs: which stations a dispatch claims.
use weather_app.Common.{
  ◌∙◌, sym, subst, true, false, List, [], ◌∷◌, some, ℕ, ◌≤◌, ◌<◌, ◌≡◌, refl, inl, inr, arith,
  length, length-append, contains, contains-append, distinct, leb, ◌==◌, list_eq, nat_eq,
  list_beq_iff, Bool-cases, ==_refl,
}
use weather_app.Common.Map.{get}
use weather_app.Common.Text.{Text}
use weather_app.Engine.Refresh.{
  StationSchedule, Schedules, claimable, claim_one, claim_from, claim_due_stations,
}
use weather_app.Engine.Refresh.Tracking.{
  claim_one-cases, IsDue, claimable-of_IsDue, Tracks, claim-Tracks, claim_from-Tracks,
  claim_from-distinct, claim_from-length,
}

pub claim_due_stations-claimed :
    (order : List Text) (schedules : Schedules) (now ttl available : ℕ) (n : Text)
    → let (after, claimed) = claim_due_stations order schedules now ttl available in
      (length claimed ≤ available)
      × (distinct claimed ≡ true)
      × Tracks now ttl schedules n (after, claimed)
unfolding claim_due_stations
claim_due_stations-claimed order schedules now ttl available n = (
  (claim_from-length now ttl available order schedules [] (omega arith)).0,
  claim_from-distinct now ttl schedules available order schedules [] (λ _. inl (refl, refl)) refl,
  claim_from-Tracks now ttl schedules n available order schedules [] (inl (refl, refl)),
)

claim_from-keeps :
    (now ttl available : ℕ) (n : Text) (order : List Text) (schedules : Schedules)
    (claimed : List Text)
    → contains claimed n ≡ true
    → contains (claim_from now ttl available order (schedules, claimed)).1 n ≡ true
unfolding claim_from
claim_from-keeps now ttl available n [] schedules claimed h = h
claim_from-keeps now ttl available n (name ∷ rest) schedules claimed h =
    elim (Bool-cases (leb available (length claimed))) [
      | inl full ↦ rw full h
      | inr free ↦ rw free (elim (claim_one-cases now ttl name schedules claimed) [
        | inl e ↦ rw e (claim_from-keeps now ttl available n rest schedules claimed h)
        | inr (s, g, c, e) ↦ rw e (
            claim_from-keeps now ttl available n rest _ _
              (ground (arith, contains-append claimed (name ∷ []) n)))
      ])
    ]

claim_one-takes :
    (now ttl : ℕ) (n : Text) (s : StationSchedule) (before after : Schedules) (claimed : List Text)
    → get n before ≡ some s
    → claimable now s ≡ true
    → Tracks now ttl before n (after, claimed)
    → contains (claim_one now ttl n (after, claimed)).1 n ≡ true
unfolding claim_one
claim_one-takes now ttl n s before after claimed g c (inl (out, same)) =
    rw (same ∙ g, claim_one) (rw c (ground (arith, contains-append claimed (n ∷ []) n, ==_refl n)))
claim_one-takes now ttl n s before after claimed g c (inr (s', held, old, ready, new)) =
    elim (claim_one-cases now ttl n after claimed) [
      | inl e ↦ rw e held
      | inr (s'', g', c', e) ↦ rw e (ground (arith, contains-append claimed (n ∷ []) n))
    ]

claim_one-length :
    (now ttl available : ℕ) (name : Text) (schedules : Schedules) (claimed : List Text)
    → leb available (length claimed) ≡ false
    → length (claim_one now ttl name (schedules, claimed)).1 ≤ available
claim_one-length now ttl available name schedules claimed h =
    elim (claim_one-cases now ttl name schedules claimed) [
      | inl e ↦ rw e (ground arith)
      | inr (s, g, c, e) ↦ rw e (ground (arith, length-append claimed (name ∷ [])))
    ]

claim_one-Tracks :
    (now ttl : ℕ) (before : Schedules) (n name : Text) (after : Schedules) (claimed : List Text)
    → Tracks now ttl before n (after, claimed)
    → Tracks now ttl before n (claim_one now ttl name (after, claimed))
claim_one-Tracks now ttl before n name after claimed t =
    elim (claim_one-cases now ttl name after claimed) [
      | inl e ↦ rw e t
      | inr (s, g, c, e) ↦ rw e (claim-Tracks now ttl before n name s after claimed g c t)
    ]

module _ (now ttl available : ℕ) (n : Text) (s : StationSchedule) (before : Schedules)
    (scheduled : get n before ≡ some s) (ready : claimable now s ≡ true) where
  claim_from_complete :
      (order : List Text) (after : Schedules) (claimed : List Text)
      → Tracks now ttl before n (after, claimed)
      → contains order n ≡ true
      → length (claim_from now ttl available order (after, claimed)).1 < available
      → contains (claim_from now ttl available order (after, claimed)).1 n ≡ true
  unfolding claim_from
  claim_from_complete [] after claimed t m l = cc
  claim_from_complete (name ∷ rest) after claimed t m l =
      elim (Bool-cases (leb available (length claimed))) [
        | inl full ↦ absurd (full_room full (rw full at l))
        | inr free ↦ rw free (elim (Bool-cases (name == n)) [
          | inl hit ↦ claim_from-keeps now ttl available n rest _ _ (
              subst (λ x. contains (claim_one now ttl x (after, claimed)).1 n ≡ true)
                (sym ((list_beq_iff name n).0 hit))
                (claim_one-takes now ttl n s before after claimed scheduled ready t))
          | inr miss ↦
              claim_from_complete rest (claim_one now ttl name (after, claimed)).0
                (claim_one now ttl name (after, claimed)).1
                (claim_one-Tracks now ttl before n name after claimed t) (ground arith)
                (rw free at l)
        ])
      ]
    where
      full_room : leb available (length claimed) ≡ true → length claimed < available → ⊥
      full_room f k = ground arith

-- A dispatch that leaves a slot free has claimed every listed station whose schedule was due and
-- not in flight.
pub claim_due_stations_complete :
    (order : List Text) (schedules : Schedules) (now ttl available : ℕ) (n : Text)
    (s : StationSchedule)
    → contains order n ≡ true
    → get n schedules ≡ some s
    → IsDue now s
    → length (claim_due_stations order schedules now ttl available).1 < available
    → contains (claim_due_stations order schedules now ttl available).1 n ≡ true
unfolding claim_due_stations
claim_due_stations_complete order schedules now ttl available n s m g c l =
    claim_from_complete now ttl available n s schedules g (claimable-of_IsDue now s c) order
      schedules [] (inl (refl, refl)) m l
