-- ===== src/Engine/Singleflight/Joining.antt =====
-- weather-core/engine/src/singleflight.rs: the leases on a flight, and a call that joins it.
use weather_app.Common.{
  true, List, [], ◌∷◌, Option, none, some, ℕ, suc, ◌+◌, ◌≡◌, ◌≤◌, ◌<◌, refl, sym, ◌∙◌, arith,
  Option-cases, inl, inr, if◌then◌else◌, ◌==◌, Key, pair_eq, nat_eq, contains, eqb_iff,
}
use weather_app.Common.Map.{get, insert, get-insert}
use weather_app.Engine.Singleflight.{FlightEntry, State, join, joins, World, without, step}

abbrev pub participants_of : Option FlightEntry → ℕ
participants_of none = 0
participants_of (some entry) = entry.participants

abbrev pub flight_of : Option FlightEntry → Option ℕ
flight_of none = none
flight_of (some entry) = some entry.flight

module _ {K : Type 0} ⦃e : Key K⦄ where
  -- The leases on a key.
  abbrev pub held : K → List (K × ℕ) → ℕ
  held k [] = 0
  held k ((j, f) ∷ leases) = if j == k then suc (held k leases) else held k leases

  pub held_pos :
      (k : K) (f : ℕ) (leases : List (K × ℕ)) → contains leases (k, f) ≡ true → 0 < held k leases
  held_pos k f [] h = cc
  held_pos k f ((j, g) ∷ leases) h = ground (arith, held_pos k f leases, e.same_iff j k)

  pub held-without :
      (k key : K) (f : ℕ) (leases : List (K × ℕ))
      → contains leases (key, f) ≡ true
      → held k (without (key, f) leases) + (if key == k then 1 else 0) ≡ held k leases
  held-without k key f [] h = cc
  held-without k key f ((j, g) ∷ leases) h =
      ground
        (arith, held-without k key f leases, e.same_iff j key, e.same_iff j k, e.same_iff key k)

  pub contains-without :
      (lease l : K × ℕ) (leases : List (K × ℕ))
      → contains (without lease leases) l ≡ true
      → contains leases l ≡ true
  contains-without lease l [] h = h
  contains-without lease l (x ∷ leases) h = ground (arith, contains-without lease l leases)

module _ {K V : Type 0} ⦃e : Key K⦄ where
  -- An entry counts the leases on its key, of which there is one at least, and is of a flight made
  -- before; all leases on a key are on the flight of its entry; no cell is there before its flight.
  pub record Inv (w : World K V) : Type 0 where
    pub counted : (k : K) → held k w.leases ≡ participants_of (get k w.state.flights)
    pub shared :
        (k : K) (f : ℕ)
        → contains w.leases (k, f) ≡ true
        → flight_of (get k w.state.flights) ≡ some f
    pub live :
        (k : K) (entry : FlightEntry)
        → get k w.state.flights ≡ some entry
        → (0 < entry.participants) × (entry.flight < w.state.next_flight)
    pub unset : (f : ℕ) → w.state.next_flight ≤ f → get f w.state.cells ≡ none

  pub join_known :
      (key : K) (s : State K V) (entry : FlightEntry)
      → get key s.flights ≡ some entry
      → join key s ≡ (
        record s {
          flights = insert key (record entry { participants = entry.participants + 1 }) s.flights;
        },
        (key, entry.flight),
      )
  unfolding join
  join_known key s entry h = rw (h, join) refl

  pub join_new :
      (key : K) (s : State K V)
      → get key s.flights ≡ none
      → join key s ≡ (
        record s {
          flights = insert key (record { flight = s.next_flight; participants = 1 }) s.flights;
          cells = insert s.next_flight none s.cells;
          next_flight = suc s.next_flight;
        },
        (key, s.next_flight),
      )
  unfolding join
  join_new key s h = rw (h, join) refl

  joined_known :
      (key : K) (w : World K V) (entry : FlightEntry)
      → Inv w
      → get key w.state.flights ≡ some entry
      → Inv (record {
        state = record w.state {
          flights =
              insert key (record entry { participants = entry.participants + 1 }) w.state.flights;
        };
        leases = (key, entry.flight) ∷ w.leases;
      })
  joined_known key w entry v h = record {
    counted = λ k. rw get-insert (ground (arith, v.counted k, v.counted key, h, e.same_iff key k));
    shared = λ k f m.
        rw get-insert
          (ground (arith, v.shared k f, h, e.same_iff key k, eqb_iff entry.flight f, m));
    live = λ k entry' g. ground (
      arith,
      sym (get-insert k key _ w.state.flights) ∙ g,
      v.live k entry',
      v.live key entry,
      h,
      e.same_iff key k,
    );
    unset = v.unset;
  }

  joined_new :
      (key : K) (w : World K V)
      → Inv w
      → get key w.state.flights ≡ none
      → Inv (record {
        state = record w.state {
          flights =
              insert key
                (record { flight = w.state.next_flight; participants = 1 })
                w.state.flights;
          cells = insert w.state.next_flight none w.state.cells;
          next_flight = suc w.state.next_flight;
        };
        leases = (key, w.state.next_flight) ∷ w.leases;
      })
  joined_new key w v h = record {
    counted = λ k. rw get-insert (ground (arith, v.counted k, v.counted key, h, e.same_iff key k));
    shared = λ k f m. rw get-insert (
        ground (
          arith,
          v.shared k f,
          v.counted key,
          held_pos k f w.leases,
          h,
          e.same_iff key k,
          eqb_iff w.state.next_flight f,
          m,
        ));
    live = λ k entry' g.
        ground
          (arith, sym (get-insert k key _ w.state.flights) ∙ g, v.live k entry', e.same_iff key k);
    unset = λ f b.
        get-insert f w.state.next_flight none w.state.cells
        ∙ ground (arith, v.unset f (omega arith), eqb_iff w.state.next_flight f, b);
  }

  pub join-Inv : (key : K) (w : World K V) → Inv w → Inv (step (joins key) w)
  unfolding step
  join-Inv key w v = elim (Option-cases (get key w.state.flights)) [
    | inl none_held ↦ rw (join_new key w.state none_held) (joined_new key w v none_held)
    | inr (entry, h) ↦ rw (join_known key w.state entry h) (joined_known key w entry v h)
  ]
