-- ===== src/Engine/Singleflight/Leases.antt =====
-- weather-core/engine/src/singleflight.rs: the entries count the leases, over any steps.
use weather_app.Common.{
  true, false, List, [], ◌∷◌, none, some, ℕ, ◌-◌, ◌≡◌, refl, sym, ◌∙◌, arith, Bool-cases,
  Option-cases, inl, inr, eqb, Key, pair_eq, nat_eq, contains, eqb_iff, if_true,
}
use weather_app.Common.Map.{get, insert, remove, get-insert, get-remove}
use weather_app.Engine.Singleflight.{
  FlightEntry, new_state, leave, drop_lease, initialise, SharedResult, Step, joins, works, leaves,
  World, without, step, steps,
}
use weather_app.Engine.Singleflight.Joining.{
  held_pos, held-without, contains-without, Inv, join-Inv,
}

module _ {K V : Type 0} ⦃e : Key K⦄ where
  initialise-Inv :
      (f : ℕ) (result : SharedResult V) (w : World K V)
      → Inv w
      → Inv (record w { state = initialise f result w.state })
  unfolding initialise
  initialise-Inv f result w v = elim (Option-cases (get f w.state.cells)) [
    | inl absent ↦ rw (absent, initialise) v
    | inr (none, open_cell) ↦
        rw (open_cell, initialise)
          (record {
            counted = v.counted;
            shared = v.shared;
            live = v.live;
            unset = λ g b.
                get-insert g f (some result) w.state.cells
                ∙ ground (arith, v.unset g b, open_cell, eqb_iff f g);
          })
    | inr (some earlier, full) ↦ rw (full, initialise) v
  ]

  -- The last lease takes the entry away.
  left_last :
      (key : K) (f : ℕ) (w : World K V) (entry : FlightEntry)
      → Inv w
      → contains w.leases (key, f) ≡ true
      → get key w.state.flights ≡ some entry
      → eqb (entry.participants - 1) 0 ≡ true
      → Inv (record {
        state = record w.state { flights = remove key w.state.flights };
        leases = without (key, f) w.leases;
      })
  left_last key f w entry v m h last = record {
    counted = λ k. rw get-remove (
        ground (
          arith,
          v.counted k,
          v.counted key,
          held-without k key f w.leases m,
          h,
          last,
          e.same_iff key k,
        ));
    shared = λ k g n. rw get-remove (
        ground (
          arith,
          v.shared k g,
          contains-without (key, f) (k, g) w.leases n,
          held_pos k g (without (key, f) w.leases) n,
          held-without k key f w.leases m,
          v.counted k,
          v.counted key,
          h,
          last,
          e.same_iff key k,
        ));
    live =
        λ k entry' g. ground (arith, sym (get-remove k key w.state.flights) ∙ g, v.live k entry');
    unset = v.unset;
  }

  left_others :
      (key : K) (f : ℕ) (w : World K V) (entry : FlightEntry)
      → Inv w
      → contains w.leases (key, f) ≡ true
      → get key w.state.flights ≡ some entry
      → eqb (entry.participants - 1) 0 ≡ false
      → Inv (record {
        state = record w.state {
          flights =
              insert key (record entry { participants = entry.participants - 1 }) w.state.flights;
        };
        leases = without (key, f) w.leases;
      })
  left_others key f w entry v m h more = record {
    counted = λ k. rw get-insert (
        ground (
          arith,
          v.counted k,
          v.counted key,
          held-without k key f w.leases m,
          h,
          more,
          e.same_iff key k,
        ));
    shared = λ k g n. rw get-insert (
        ground
          (arith, v.shared k g, contains-without (key, f) (k, g) w.leases n, h, e.same_iff key k));
    live = λ k entry' g. ground (
      arith,
      sym (get-insert k key _ w.state.flights) ∙ g,
      v.live k entry',
      v.live key entry,
      more,
      h,
      e.same_iff key k,
    );
    unset = v.unset;
  }

  leave-Inv :
      (key : K) (f : ℕ) (w : World K V) (entry : FlightEntry)
      → Inv w
      → contains w.leases (key, f) ≡ true
      → get key w.state.flights ≡ some entry
      → Inv (record { state = leave key entry w.state; leases = without (key, f) w.leases })
  unfolding leave
  leave-Inv key f w entry v m h = elim (Bool-cases (eqb (entry.participants - 1) 0)) [
    | inl last ↦ rw last (left_last key f w entry v m h last)
    | inr more ↦ rw more (left_others key f w entry v m h more)
  ]

  -- The flight of a lease that is held is that of its key's entry: `Arc::ptr_eq` never fails.
  drop_lease_held :
      (key : K) (f : ℕ) (w : World K V) (entry : FlightEntry)
      → Inv w
      → contains w.leases (key, f) ≡ true
      → get key w.state.flights ≡ some entry
      → drop_lease (key, f) w.state ≡ leave key entry w.state
  unfolding drop_lease
  drop_lease_held key f w entry v m h =
      rw (h, drop_lease)
        (if_true {b = eqb entry.flight f} _ _
          (ground (arith, v.shared key f m, h, eqb_iff entry.flight f)))

  dropped-Inv :
      (key : K) (f : ℕ) (w : World K V)
      → Inv w
      → contains w.leases (key, f) ≡ true
      → Inv (record { state = drop_lease (key, f) w.state; leases = without (key, f) w.leases })
  dropped-Inv key f w v m = elim (Option-cases (get key w.state.flights)) [
    | inl absent ↦ absurd (ground (arith, v.shared key f m, absent))
    | inr (entry, h) ↦ rw (drop_lease_held key f w entry v m h) (leave-Inv key f w entry v m h)
  ]

  pub step-Inv : (s : Step K V) (w : World K V) → Inv w → Inv (step s w)
  unfolding step
  step-Inv (joins key) w v = join-Inv key w v
  step-Inv (works lease result) w v = elim (Bool-cases (contains w.leases lease)) [
    | inl taken ↦ rw taken (initialise-Inv lease.1 result w v)
    | inr other ↦ rw other v
  ]
  step-Inv (leaves (key, f)) w v = elim (Bool-cases (contains w.leases (key, f))) [
    | inl taken ↦ rw taken (dropped-Inv key f w v taken)
    | inr other ↦ rw other v
  ]

  abbrev pub new_world : World K V
  new_world = record { state = new_state; leases = [] }

  new_world-Inv : Inv new_world
  unfolding get
  new_world-Inv = record {
    counted = λ k. refl;
    shared = λ k f m. cc;
    live = λ k entry g. cc;
    unset = λ f b. refl;
  }

  steps-keep : (l : List (Step K V)) (w : World K V) → Inv w → Inv (steps l w)
  unfolding steps
  steps-keep [] w v = v
  steps-keep (s ∷ rest) w v = steps-keep rest (step s w) (step-Inv s w v)

  -- After any steps, for every key: the number of participants is that of the leases held, there is
  -- an entry exactly as long as there is a lease, and all leases on the key are on one flight.
  pub steps-Inv : (l : List (Step K V)) → Inv (steps l new_world)
  steps-Inv l = steps-keep l new_world new_world-Inv
