-- ===== src/Engine/ResourceCache/Operations.antt =====
-- weather-core/engine/src/resource_cache.rs: every operation keeps the accounting and the bounds.
use weather_app.Common.{
  true, ◌||◌, Option, none, some, ℕ, suc, ◌+◌, ◌<◌, ◌≡◌, refl, ap, ◌⊎◌, inl, inr, arith, length,
  leb, eqb, ◌==◌, list_eq, nat_eq, list_beq_iff, Bool-cases, Option-cases,
}
use weather_app.Common.Map.{get, insert, remove, contains_key, get-insert, get-remove}
use weather_app.Common.Map.Size.{distinct-keys-insert, length-insert, total-insert, size_of}
use weather_app.Common.Text.{Text, trim, is_empty}
use weather_app.Engine.ResourceCache.{
  Registration, CacheEntry, FetchState, pending, failed, Limits, ResourceState, next_sequence, Room,
  made_room, nothing_evictable, out_of_fuel, make_room, enter, register_id, register, drop_expired,
  drop_failed, plan_fetch, fetch_or_cached, begin_registered, begin_fetch, settle_fetch,
  finish_fetch, failed_fetch_ttl,
}
use weather_app.Engine.ResourceCache.Invariant.{
  Inv, entry_size, remove_cache_entry-rest, remove_cache_entry-Inv,
}
use weather_app.Engine.ResourceCache.Eviction.{RoomMade, make_room-RoomMade}

module _ (limits : Limits) where
  pub next_sequence-Inv : (s : ResourceState) → Inv limits s → Inv limits (next_sequence s)
  unfolding next_sequence
  next_sequence-Inv s v = record {
    counted = v.counted;
    within = v.within;
    cache_once = v.cache_once;
    registered_once = v.registered_once;
    registered_within = v.registered_within;
    cached = v.cached;
    fetched = v.fetched;
  }

  -- A registration is written, over an old one or into a free place.
  set_registration-Inv :
      (id : Text) (r : Registration) (s : ResourceState)
      → Inv limits s
      → (contains_key id s.registrations ≡ true)
        ⊎ (length s.registrations < limits.max_registrations)
      → Inv limits (record s { registrations = insert id r s.registrations })
  set_registration-Inv id r s v room = record {
    counted = v.counted;
    within = v.within;
    cache_once = v.cache_once;
    registered_once = distinct-keys-insert id r s.registrations v.registered_once;
    registered_within =
        ground (arith, length-insert id r s.registrations, v.registered_within, room);
    cached = λ k h. ground (arith, get-insert k id r s.registrations, v.cached k h);
    fetched = λ k h. ground (arith, get-insert k id r s.registrations, v.fetched k h);
  }

  -- The table of fetches changes at a registered id.
  set_fetch-Inv :
      (id : Text) (f : FetchState) (s : ResourceState)
      → Inv limits s
      → contains_key id s.registrations ≡ true
      → Inv limits (record s { fetches = insert id f s.fetches })
  set_fetch-Inv id f s v known = record {
    counted = v.counted;
    within = v.within;
    cache_once = v.cache_once;
    registered_once = v.registered_once;
    registered_within = v.registered_within;
    cached = v.cached;
    fetched = λ k h. ground (arith, get-insert k id f s.fetches, v.fetched k, list_beq_iff id k);
  }

  remove_fetch-Inv :
      (id : Text) (s : ResourceState)
      → Inv limits s
      → Inv limits (record s { fetches = remove id s.fetches })
  remove_fetch-Inv id s v = record {
    counted = v.counted;
    within = v.within;
    cache_once = v.cache_once;
    registered_once = v.registered_once;
    registered_within = v.registered_within;
    cached = v.cached;
    fetched = λ k h. ground (arith, get-remove k id s.fetches, v.fetched k);
  }

  enter-Inv :
      (id url : Text) (s : ResourceState) (out : ResourceState × Room)
      → RoomMade limits s limits.max_registrations out
      → Inv limits (enter id url out).0
  enter-Inv id url s (t, made_room) m = set_registration-Inv id _ t m.keeps (inr (m.room refl))
  enter-Inv id url s (t, nothing_evictable) m = m.keeps
  enter-Inv id url s (t, out_of_fuel) m = m.keeps

  register_id-Inv :
      (id url : Text) (s : ResourceState)
      → Inv limits s
      → Inv limits (register_id limits id url s).0
  unfolding register_id
  register_id-Inv id url s v = elim (Option-cases (get id s.registrations)) [
    | inl e ↦
        rw (e, register_id)
          (enter-Inv id url s (make_room (suc (length s.registrations)) limits.max_registrations s)
            (make_room-RoomMade limits _ limits.max_registrations s v (omega arith)))
    | inr (r, e) ↦
        rw (e, register_id)
          (elim (Bool-cases (r.source_url == url)) [
            | inl same ↦ rw same (set_registration-Inv id _ s v (inl (rw e)))
            | inr other ↦ rw other v
          ])
  ]

  pub register-Inv :
      (resource_id : Text → Text) (url : Text) (s : ResourceState)
      → Inv limits s
      → Inv limits (register resource_id limits url s).0
  unfolding register
  register-Inv resource_id url s v =
      elim (Bool-cases (is_empty (trim url) || eqb limits.max_registrations 0)) [
        | inl refused ↦ rw refused v
        | inr allowed ↦ rw allowed (register_id-Inv _ (trim url) _ (next_sequence-Inv s v))
      ]

  settle_fetch-Inv :
      (id : Text) (error : Option Text) (now : ℕ) (s : ResourceState)
      → Inv limits s
      → contains_key id s.registrations ≡ true
      → Inv limits (settle_fetch id error now s)
  unfolding settle_fetch
  settle_fetch-Inv id none now s v known = remove_fetch-Inv id s v
  settle_fetch-Inv id (some message) now s v known =
      set_fetch-Inv id (failed message (now + failed_fetch_ttl)) s v known

  pub finish_fetch-Inv :
      (id : Text) (error : Option Text) (now : ℕ) (s : ResourceState)
      → Inv limits s
      → Inv limits (finish_fetch id error now s)
  unfolding finish_fetch
  finish_fetch-Inv id error now s v = elim (Bool-cases (contains_key id s.registrations)) [
    | inr gone ↦ rw gone (remove_fetch-Inv id s v)
    | inl known ↦ rw known (settle_fetch-Inv id error now s v known)
  ]

  drop_expired-Inv :
      (id : Text) (now : ℕ) (s : ResourceState) → Inv limits s → Inv limits (drop_expired id now s)
  unfolding drop_expired
  drop_expired-Inv id now s v = elim (Option-cases (get id s.cache)) [
    | inl e ↦ rw (e, drop_expired) v
    | inr (entry, e) ↦
        rw (e, drop_expired)
          (elim (Bool-cases (leb entry.expires_at now)) [
            | inl old ↦ rw old (remove_cache_entry-Inv limits id s v)
            | inr fresh ↦ rw fresh v
          ])
  ]

  drop_expired-rest :
      (id : Text) (now : ℕ) (s : ResourceState)
      → ((drop_expired id now s).registrations ≡ s.registrations)
        × ((drop_expired id now s).fetches ≡ s.fetches)
        × ((drop_expired id now s).sequence ≡ s.sequence)
  unfolding drop_expired
  drop_expired-rest id now s = ground (arith, remove_cache_entry-rest id s)

  -- A cache entry of a registered id changes only when it was last used.
  touch_entry-Inv :
      (id : Text) (entry : CacheEntry) (s : ResourceState)
      → Inv limits s
      → get id s.cache ≡ some entry
      → Inv limits
          (record s { cache = insert id (record entry { last_used = s.sequence }) s.cache })
  touch_entry-Inv id entry s v e = record {
    counted = omega (
      arith,
      v.counted,
      total-insert entry_size id (record entry { last_used = s.sequence }) s.cache v.cache_once,
      ap (size_of entry_size) e,
    );
    within = v.within;
    cache_once = distinct-keys-insert id _ s.cache v.cache_once;
    registered_once = v.registered_once;
    registered_within = v.registered_within;
    cached = λ k h. ground (
      arith,
      get-insert k id (record entry { last_used = s.sequence }) s.cache,
      v.cached k,
      list_beq_iff id k,
    );
    fetched = v.fetched;
  }

  drop_failed-Inv :
      (id : Text) (now : ℕ) (s : ResourceState)
      → Inv limits s
      → Inv limits (drop_failed id now s) × ((drop_failed id now s).registrations ≡ s.registrations)
  unfolding drop_failed
  drop_failed-Inv id now s v = elim (Option-cases (get id s.fetches)) [
    | inl e ↦ rw (e, drop_failed) (v, refl)
    | inr (pending, e) ↦ rw (e, drop_failed) (v, refl)
    | inr (failed message expires_at, e) ↦
        rw (e, drop_failed)
          (elim (Bool-cases (leb expires_at now)) [
            | inl old ↦ rw old (remove_fetch-Inv id s v, refl)
            | inr fresh ↦ rw fresh (v, refl)
          ])
  ]

  plan_fetch-Inv :
      (id url : Text) (s : ResourceState)
      → Inv limits s
      → contains_key id s.registrations ≡ true
      → Inv limits (plan_fetch id url s).0
  unfolding plan_fetch
  plan_fetch-Inv id url s v known = elim (Option-cases (get id s.fetches)) [
    | inl e ↦ rw (e, plan_fetch) (set_fetch-Inv id pending s v known)
    | inr (pending, e) ↦ rw (e, plan_fetch) v
    | inr (failed message expires_at, e) ↦ rw (e, plan_fetch) v
  ]

  fetch_or_cached-Inv :
      (id url : Text) (now : ℕ) (s : ResourceState)
      → Inv limits s
      → contains_key id s.registrations ≡ true
      → Inv limits (fetch_or_cached id url now s).0
  unfolding fetch_or_cached
  fetch_or_cached-Inv id url now s v known = elim (Option-cases (get id s.cache)) [
    | inr (entry, e) ↦ rw (e, fetch_or_cached) (touch_entry-Inv id entry s v e)
    | inl e ↦
        let (v', same) = drop_failed-Inv id now s v in
        rw (e, fetch_or_cached) (plan_fetch-Inv id url (drop_failed id now s) v' (rw same known))
  ]

  begin_registered-Inv :
      (id : Text) (now : ℕ) (o : Option Registration) (s : ResourceState)
      → Inv limits s
      → get id s.registrations ≡ o
      → Inv limits (begin_registered id now o s).0
  unfolding begin_registered
  begin_registered-Inv id now none s v e = v
  begin_registered-Inv id now (some r) s v e =
      let v' = set_registration-Inv id (record r { last_used = s.sequence }) s v (inl (rw e)) in
      fetch_or_cached-Inv id r.source_url now _ (drop_expired-Inv id now _ v') (
        rw (drop_expired-rest id now _).0 (
          ground (
            arith,
            get-insert id id (record r { last_used = s.sequence }) s.registrations,
            list_beq_iff id id,
          )))

  pub begin_fetch-Inv :
      (id : Text) (now : ℕ) (s : ResourceState) → Inv limits s → Inv limits (begin_fetch id now s).0
  unfolding begin_fetch next_sequence
  begin_fetch-Inv id now s v = begin_registered-Inv id now _ _ (next_sequence-Inv s v) refl
