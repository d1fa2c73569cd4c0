-- ===== src/Engine/ResourceCache/Busy.antt =====
-- weather-core/engine/src/resource_cache.rs: an operation leaves the fetches of other resources pending.
use weather_app.Common.{
  false, not, ◌||◌, List, [], ◌∷◌, Option, none, some, ℕ, zero, suc, ◌≡◌, ap, ◌∙◌, arith,
  Bool-cases, Option-cases, inl, inr, if_false, leb, ltb, ◌==◌, list_beq_iff, saturating_add,
  list_eq, nat_eq, length, eqb,
}
use weather_app.Common.Map.{get, contains_key, get-insert, get-remove}
use weather_app.Common.Text.{Text, trim, is_empty}
use weather_app.Engine.ResourceCache.{
  Registration, CacheEntry, pending, failed, Limits, ResourceState, ProviderResource, next_sequence,
  remove_cache_entry, is_pending, min_by_key, Room, made_room, nothing_evictable, out_of_fuel,
  enter, register_id, register, drop_expired, drop_failed, plan_fetch, fetch_or_cached,
  begin_registered, begin_fetch, settle_fetch, finish_fetch, purge_expired, remove_cache_entries,
  shrink, store_entry, cache_resource,
}
use weather_app.Engine.ResourceCache.Invariant.{Inv, remove_cache_entry-rest}
use weather_app.Engine.ResourceCache.Eviction.{make_room-RoomMade}
use weather_app.Engine.ResourceCache.Operations.{next_sequence-Inv}

module _ (id : Text) where
  -- A fetch of the resource runs.
  abbrev pub Busy : ResourceState → Type 0
  Busy s = get id s.fetches ≡ some pending

  enter-Busy :
      (new url : Text) (out : ResourceState × Room) → Busy out.0 → Busy (enter new url out).0
  enter-Busy new url (s, made_room) busy = busy
  enter-Busy new url (s, nothing_evictable) busy = busy
  enter-Busy new url (s, out_of_fuel) busy = busy

  register_id-Busy :
      (limits : Limits) (new url : Text) (s : ResourceState)
      → Inv limits s
      → Busy s
      → Busy (register_id limits new url s).0
  unfolding register_id
  register_id-Busy limits new url s v busy = elim (Option-cases (get new s.registrations)) [
    | inl absent ↦
        rw (absent, register_id)
          (enter-Busy new url _ (
            ((make_room-RoomMade limits (suc (length s.registrations)) limits.max_registrations s v
                (omega arith)).pending_kept
              id (ap is_pending busy)).0
            ∙ busy))
    | inr (r, known) ↦
        rw (known, register_id)
          (elim (Bool-cases (r.source_url == url)) [
            | inl same ↦ rw same busy
            | inr other ↦ rw other busy
          ])
  ]

  pub register-Busy :
      (resource_id : Text → Text) (limits : Limits) (source_url : Text) (s : ResourceState)
      → Inv limits s
      → Busy s
      → Busy (register resource_id limits source_url s).0
  unfolding register next_sequence
  register-Busy resource_id limits source_url s v busy =
      elim (Bool-cases (is_empty (trim source_url) || eqb limits.max_registrations 0)) [
        | inl refused ↦ rw refused busy
        | inr accepted ↦ rw accepted (
            register_id-Busy limits (resource_id (trim source_url)) (trim source_url) _
              (next_sequence-Inv limits s v) busy)
      ]

  pub drop_failed-Busy :
      (other : Text) (now : ℕ) (s : ResourceState) → Busy s → Busy (drop_failed other now s)
  unfolding drop_failed
  drop_failed-Busy other now s busy = elim (Option-cases (get other s.fetches)) [
    | inl absent ↦ rw (absent, drop_failed) busy
    | inr (pending, running) ↦ rw (running, drop_failed) busy
    | inr (failed message expires_at, known) ↦
        rw (known, drop_failed)
          (elim (Bool-cases (leb expires_at now)) [
            | inl expired ↦
                rw expired (
                  get-remove id other s.fetches
                  ∙ ground (arith, known, busy, list_beq_iff other id))
            | inr recent ↦ rw recent busy
          ])
  ]

  plan_fetch-Busy :
      (other url : Text) (s : ResourceState) → Busy s → Busy (plan_fetch other url s).0
  unfolding plan_fetch
  plan_fetch-Busy other url s busy = elim (Option-cases (get other s.fetches)) [
    | inl absent ↦
        rw (absent, plan_fetch)
          (get-insert id other pending s.fetches
            ∙ ground (arith, absent, busy, list_beq_iff other id))
    | inr (pending, running) ↦ rw (running, plan_fetch) busy
    | inr (failed message expires_at, known) ↦ rw (known, plan_fetch) busy
  ]

  fetch_or_cached-Busy :
      (other url : Text) (now : ℕ) (s : ResourceState)
      → Busy s
      → Busy (fetch_or_cached other url now s).0
  unfolding fetch_or_cached
  fetch_or_cached-Busy other url now s busy = elim (Option-cases (get other s.cache)) [
    | inl absent ↦
        rw (absent, fetch_or_cached)
          (plan_fetch-Busy other url _ (drop_failed-Busy other now s busy))
    | inr (entry, cached) ↦ rw (cached, fetch_or_cached) busy
  ]

  remove_cache_entry-Busy :
      (other : Text) (s : ResourceState) → Busy s → Busy (remove_cache_entry other s)
  remove_cache_entry-Busy other s busy = ap (get id) (remove_cache_entry-rest other s).1 ∙ busy

  pub drop_expired-Busy :
      (other : Text) (now : ℕ) (s : ResourceState) → Busy s → Busy (drop_expired other now s)
  unfolding drop_expired
  drop_expired-Busy other now s busy = elim (Option-cases (get other s.cache)) [
    | inl absent ↦ rw (absent, drop_expired) busy
    | inr (entry, cached) ↦
        rw (cached, drop_expired)
          (elim (Bool-cases (leb entry.expires_at now)) [
            | inl expired ↦ rw expired (remove_cache_entry-Busy other s busy)
            | inr fresh ↦ rw fresh busy
          ])
  ]

  begin_registered-Busy :
      (other : Text) (now : ℕ) (o : Option Registration) (s : ResourceState)
      → Busy s
      → Busy (begin_registered other now o s).0
  unfolding begin_registered
  begin_registered-Busy other now none s busy = busy
  begin_registered-Busy other now (some r) s busy =
      fetch_or_cached-Busy other r.source_url now _ (drop_expired-Busy other now _ busy)

  pub begin_fetch-Busy :
      (other : Text) (now : ℕ) (s : ResourceState) → Busy s → Busy (begin_fetch other now s).0
  unfolding begin_fetch next_sequence
  begin_fetch-Busy other now s busy = begin_registered-Busy other now _ _ busy

  remove_cache_entries-Busy :
      (ids : List Text) (s : ResourceState) → Busy s → Busy (remove_cache_entries ids s)
  unfolding remove_cache_entries
  remove_cache_entries-Busy [] s busy = busy
  remove_cache_entries-Busy (i ∷ ids) s busy =
      remove_cache_entries-Busy ids _ (remove_cache_entry-Busy i s busy)

  shrink-Busy :
      (fuel max_bytes size : ℕ) (s : ResourceState) → Busy s → Busy (shrink fuel max_bytes size s).0
  unfolding shrink
  shrink-Busy zero max_bytes size s busy = busy
  shrink-Busy (suc fuel) max_bytes size s busy =
      elim (Bool-cases (ltb max_bytes (saturating_add s.cache_bytes size))) [
        | inr enough ↦ rw (enough, shrink) busy
        | inl over ↦
            rw (over, shrink)
              (elim (Option-cases (min_by_key (λ (e : CacheEntry). e.last_used) s.cache)) [
                | inl nothing ↦ rw (nothing, shrink) busy
                | inr ((oldest, entry), found) ↦
                    rw (found, shrink)
                      (shrink-Busy fuel max_bytes size _ (remove_cache_entry-Busy oldest s busy))
              ])
      ]

  pub cache_resource-Busy :
      (limits : Limits) (other : Text) (resource : ProviderResource) (now later : ℕ)
      (s : ResourceState)
      → Busy s
      → Busy (cache_resource limits other resource now later s).0
  unfolding cache_resource store_entry next_sequence purge_expired
  cache_resource-Busy limits other resource now later s busy =
      elim (Bool-cases (ltb limits.max_bytes (length resource.bytes))) [
        | inl large ↦ rw large busy
        | inr fits ↦ rw fits (elim (Bool-cases (not (contains_key other s.registrations))) [
          | inl unknown ↦ rw unknown busy
          | inr known ↦ rw known (
              shrink-Busy _ limits.max_bytes (length resource.bytes) _
                (remove_cache_entry-Busy other _ (remove_cache_entries-Busy _ s busy)))
        ])
      ]

  pub finish_fetch-Busy :
      (other : Text) (error : Option Text) (now : ℕ) (s : ResourceState)
      → (other == id) ≡ false
      → Busy s
      → Busy (finish_fetch other error now s)
  unfolding finish_fetch settle_fetch
  finish_fetch-Busy other error now s differs busy =
      elim (Bool-cases (not (contains_key other s.registrations))) [
        | inl unknown ↦ rw unknown (get-remove id other s.fetches ∙ if_false _ _ differs ∙ busy)
        | inr known ↦ rw known (settled error)
      ]
    where
      settled : (e : Option Text) → Busy (settle_fetch other e now s)
      settled none = get-remove id other s.fetches ∙ if_false _ _ differs ∙ busy
      settled (some message) = get-insert id other _ s.fetches ∙ if_false _ _ differs ∙ busy
