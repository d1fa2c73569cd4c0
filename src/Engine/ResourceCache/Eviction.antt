-- ===== src/Engine/ResourceCache/Eviction.antt =====
-- weather-core/engine/src/resource_cache.rs: the loop that makes room for a registration.
use weather_app.Common.{
  true, false, [], ◌∷◌, Option, none, some, ℕ, zero, suc, ◌≤◌, ◌<◌, ◌≡◌, ◌≢◌, refl, ◌∙◌, inl, inr,
  arith, length, distinct, if◌then◌else◌, leb, ◌==◌, list_eq, nat_eq, list_beq_iff, Bool-cases,
  Option-cases,
}
use weather_app.Common.Map.{Map, get, remove, keys, get-remove, contains-keys}
use weather_app.Common.Map.Size.{distinct-keys-remove, length-remove, length-remove-le}
use weather_app.Common.Text.{Text}
use weather_app.Engine.ResourceCache.{
  Registration, FetchState, Limits, ResourceState, evict_registration, min_by_key, evictable,
  is_pending, Room, made_room, nothing_evictable, out_of_fuel, make_room,
}
use weather_app.Engine.ResourceCache.Invariant.{
  Inv, remove_cache_entry_lem, remove_cache_entry-rest,
}
use weather_app.Engine.ResourceCache.Oldest.{min_by_key-none, min_by_key-get}

get-evictable :
    (fetches : Map Text FetchState) (m : Map Text Registration) (k : Text)
    → get k (evictable fetches m) ≡ (if is_pending (get k fetches) then none else get k m)
unfolding evictable get
get-evictable fetches [] k = ground arith
get-evictable fetches ((i, r) ∷ m) k = elim (Bool-cases (is_pending (get i fetches))) [
  | inl held ↦ rw held (get-evictable fetches m k ∙ ground (arith, list_beq_iff i k))
  | inr free ↦ rw free (ground (arith, list_beq_iff i k, get-evictable fetches m k))
]

distinct-keys-evictable :
    (fetches : Map Text FetchState) (m : Map Text Registration)
    → distinct (keys m) ≡ true
    → distinct (keys (evictable fetches m)) ≡ true
unfolding evictable
distinct-keys-evictable fetches [] d = refl
distinct-keys-evictable fetches ((i, r) ∷ m) d = ground (
  arith,
  distinct-keys-evictable fetches m,
  contains-keys i (evictable fetches m),
  get-evictable fetches m i,
  contains-keys i m,
)

-- Evicting takes the id out of all three tables and leaves the other ids alone.
evict_registration-get :
    (limits : Limits) (id k : Text) (s : ResourceState)
    → Inv limits s
    → (get k (evict_registration id s).registrations
        ≡ (if id == k then none else get k s.registrations))
      × (get k (evict_registration id s).fetches ≡ (if id == k then none else get k s.fetches))
      × (get k (evict_registration id s).cache ≡ (if id == k then none else get k s.cache))
      × ((evict_registration id s).registrations ≡ remove id s.registrations)
unfolding evict_registration
evict_registration-get limits id k s v = (
  rw (remove_cache_entry-rest id t).0 (get-remove k id s.registrations),
  rw (remove_cache_entry-rest id t).1 (get-remove k id s.fetches),
  (remove_cache_entry_lem id t v.counted v.cache_once).3 k,
  (remove_cache_entry-rest id t).0,
)
  where
    t : ResourceState
    t = record s { registrations = remove id s.registrations; fetches = remove id s.fetches }

evict_registration-Inv :
    (limits : Limits) (id : Text) (s : ResourceState)
    → Inv limits s
    → Inv limits (evict_registration id s)
unfolding evict_registration
evict_registration-Inv limits id s v =
    let (counted, less, once, gets) = remove_cache_entry_lem id t v.counted v.cache_once in
    record {
      counted = counted;
      within = omega (arith, v.within, less);
      cache_once = once;
      registered_once =
          rw (remove_cache_entry-rest id t).0
            (distinct-keys-remove id s.registrations v.registered_once);
      registered_within =
          rw (remove_cache_entry-rest id t).0
            (omega (arith, length-remove-le id s.registrations, v.registered_within));
      cached = λ k h. ground (arith, evict_registration-get limits id k s v, v.cached k);
      fetched = λ k h. ground (arith, evict_registration-get limits id k s v, v.fetched k);
    }
  where
    t : ResourceState
    t = record s { registrations = remove id s.registrations; fetches = remove id s.fetches }

abbrev oldest_evictable : ResourceState → Option (Text × Registration)
oldest_evictable s = min_by_key (λ r. r.last_used) (evictable s.fetches s.registrations)

-- The loop evicts a registration that stands in the table and has no pending fetch.
oldest_evictable-get :
    (limits : Limits) (s : ResourceState) (id : Text) (r : Registration)
    → Inv limits s
    → oldest_evictable s ≡ some (id, r)
    → (get id s.registrations ≡ some r) × (is_pending (get id s.fetches) ≡ false)
oldest_evictable-get limits s id r v e = ground (
  arith,
  get-evictable s.fetches s.registrations id,
  min_by_key-get (λ (x : Registration). x.last_used) (evictable s.fetches s.registrations) id r
      (distinct-keys-evictable s.fetches s.registrations v.registered_once) e,
)

-- How the loop ends, with the pending fetches and their registrations as they were.
pub record RoomMade (limits : Limits) (s : ResourceState) (limit : ℕ) (out : ResourceState × Room)
    : Type 0 where
  pub keeps : Inv limits out.0
  pub ends : out.1 ≢ out_of_fuel
  pub room : out.1 ≡ made_room → length out.0.registrations < limit
  pub full :
      out.1 ≡ nothing_evictable
      → (limit ≤ length out.0.registrations) × (evictable out.0.fetches out.0.registrations ≡ [])
  pub same_sequence : out.0.sequence ≡ s.sequence
  pub pending_kept :
      (k : Text)
      → is_pending (get k s.fetches) ≡ true
      → (get k out.0.fetches ≡ get k s.fetches)
        × (get k out.0.registrations ≡ get k s.registrations)
  pub only_less : (k : Text) → get k s.registrations ≡ none → get k out.0.registrations ≡ none

evict_registration-sequence :
    (id : Text) (s : ResourceState) → (evict_registration id s).sequence ≡ s.sequence
unfolding evict_registration
evict_registration-sequence id s = (remove_cache_entry-rest id _).2

-- What holds after the later rounds holds after this one too.
RoomMade-evict :
    (limits : Limits) (s : ResourceState) (limit : ℕ) (id : Text) (r : Registration)
    {out : ResourceState × Room}
    → Inv limits s
    → (get id s.registrations ≡ some r) × (is_pending (get id s.fetches) ≡ false)
    → RoomMade limits (evict_registration id s) limit out
    → RoomMade limits s limit out
RoomMade-evict limits s limit id r v (known, idle) m = record {
  keeps = m.keeps;
  ends = m.ends;
  room = m.room;
  full = m.full;
  same_sequence = m.same_sequence ∙ evict_registration-sequence id s;
  pending_kept = λ k h.
      ground (arith, list_beq_iff id k, evict_registration-get limits id k s v, m.pending_kept k);
  only_less = λ k h. m.only_less k (ground (arith, evict_registration-get limits id k s v));
}

evict_registration-length :
    (limits : Limits) (id : Text) (r : Registration) (s : ResourceState)
    → Inv limits s
    → get id s.registrations ≡ some r
    → suc (length (evict_registration id s).registrations) ≡ length s.registrations
evict_registration-length limits id r s v g =
    rw (evict_registration-get limits id id s v).3
      (length-remove id s.registrations v.registered_once (rw g))

pub make_room-RoomMade :
    (limits : Limits) (fuel limit : ℕ) (s : ResourceState)
    → Inv limits s
    → length s.registrations < fuel
    → RoomMade limits s limit (make_room fuel limit s)
unfolding make_room
make_room-RoomMade limits zero limit s v f = absurd (omega arith)
make_room-RoomMade limits (suc fuel) limit s v f =
    elim (Bool-cases (leb limit (length s.registrations))) [
      | inr enough ↦
          rw (enough, make_room)
            (record {
              keeps = v;
              ends = λ e. cc;
              room = λ e. ground arith;
              full = λ e. cc;
              same_sequence = refl;
              pending_kept = λ k h. (refl, refl);
              only_less = λ k h. h;
            })
      | inl over ↦
          rw (over, make_room)
            (elim (Option-cases (oldest_evictable s)) [
              | inl nothing ↦
                  rw (nothing, make_room)
                    (record {
                      keeps = v;
                      ends = λ e. cc;
                      room = λ e. cc;
                      full = λ e. (ground arith, min_by_key-none _ _ nothing);
                      same_sequence = refl;
                      pending_kept = λ k h. (refl, refl);
                      only_less = λ k h. h;
                    })
              | inr ((id, r), found) ↦
                  rw (found, make_room)
                    (RoomMade-evict limits s limit id r v
                      (oldest_evictable-get limits s id r v found)
                      (make_room-RoomMade limits fuel limit (evict_registration id s)
                        (evict_registration-Inv limits id s v)
                        (omega (
                          arith,
                          evict_registration-length limits id r s v
                              (oldest_evictable-get limits s id r v found).0,
                        ))))
            ])
    ]
