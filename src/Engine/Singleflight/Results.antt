-- ===== src/Engine/Singleflight/Results.antt =====
-- weather-core/engine/src/singleflight.rs: which results calls share.
use weather_app.Common.{
  true, List, Option, none, some, ℕ, ◌≡◌, refl, ◌∙◌, ap, arith, Option-cases, inl, inr, eqb_iff,
  Key, pair_eq, nat_eq, contains,
}
use weather_app.Common.Map.{get, get-insert}
use weather_app.Engine.Singleflight.{State, join, shared_result, SharedResult, Step, World, steps}
use weather_app.Engine.Singleflight.Joining.{held, Inv, join_known, join_new}
use weather_app.Engine.Singleflight.Leases.{new_world, steps-Inv}

module _ {K V : Type 0} ⦃e : Key K⦄ where
  cell_read :
      (lease : K × ℕ) (s : State K V) (cell : Option (SharedResult V))
      → get lease.1 s.cells ≡ some cell
      → shared_result lease s ≡ cell
  unfolding shared_result
  cell_read (key, f) s cell h = rw (h, shared_result) refl

  joined_flight :
      (key : K) (w : World K V) (g : ℕ)
      → Inv w
      → contains w.leases (key, g) ≡ true
      → (join key w.state).1 ≡ (key, g)
  joined_flight key w g v m = elim (Option-cases (get key w.state.flights)) [
    | inl absent ↦ absurd (ground (arith, v.shared key g m, absent))
    | inr (entry, known) ↦
        rw (join_known key w.state entry known)
          (ap (λ f. (key, f)) (ground (arith, v.shared key g m, known)))
  ]

  joined_fresh :
      (key : K) (w : World K V)
      → Inv w
      → held key w.leases ≡ 0
      → let (s, lease) = join key w.state in shared_result lease s ≡ none
  joined_fresh key w v h = elim (Option-cases (get key w.state.flights)) [
    | inl absent ↦ rw (join_new key w.state absent) (
        cell_read (key, w.state.next_flight) _ none
          (get-insert w.state.next_flight w.state.next_flight none w.state.cells
            ∙ ground (arith, eqb_iff w.state.next_flight w.state.next_flight)))
    | inr (entry, known) ↦ absurd (ground (arith, v.counted key, h, known, v.live key entry known))
  ]

  -- After any steps, a call that overlaps with another on its key joins the flight of the other;
  -- one that overlaps with none starts on a flight with no result.
  pub join-overlap :
      (l : List (Step K V)) (key : K)
      → let w = steps l new_world in
        let (s, lease) = join key w.state in
        ((g : ℕ) → contains w.leases (key, g) ≡ true → lease ≡ (key, g))
        × (held key w.leases ≡ 0 → shared_result lease s ≡ none)
  join-overlap l key = (
    λ g m. joined_flight key (steps l new_world) g (steps-Inv l) m,
    λ h. joined_fresh key (steps l new_world) (steps-Inv l) h,
  )
