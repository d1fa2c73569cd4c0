-- ===== src/Engine/ResourceCache/Caching.antt =====
-- weather-core/engine/src/resource_cache.rs: `cache`, and the invariant over every history.
use weather_app.Common.{
  if_true, ==_refl, true, List, [], ◌∷◌, Option, none, ℕ, suc, ◌+◌, ◌≤◌, ◌<◌, ◌≡◌, refl, ap, ◌∙◌,
  inl, inr, arith, length, ltb, list_eq, nat_eq, list_beq_iff, Bool-cases, u64_max,
}
use weather_app.Common.Map.{get, contains_key, get-insert}
use weather_app.Common.Map.Size.{distinct-keys-insert, total, total-insert, size_of}
use weather_app.Common.Text.{Text}
use weather_app.Engine.ResourceCache.{
  ProviderResource, Limits, ResourceState, empty_state, next_sequence, remove_cache_entry, register,
  begin_fetch, finish_fetch, expired_ids, remove_cache_entries, purge_expired, shrink, store_entry,
  cache_resource,
}
use weather_app.Engine.ResourceCache.Invariant.{
  Inv, entry_size, remove_cache_entry_lem, remove_cache_entry-rest, remove_cache_entry-Inv,
}
use weather_app.Engine.ResourceCache.Shrinking.{shrink-Shrunk}
use weather_app.Engine.ResourceCache.Operations.{
  next_sequence-Inv, register-Inv, begin_fetch-Inv, finish_fetch-Inv,
}

module _ (limits : Limits) where
  remove_cache_entries-Inv :
      (ids : List Text) (s : ResourceState)
      → Inv limits s
      → Inv limits (remove_cache_entries ids s)
        × ((remove_cache_entries ids s).registrations ≡ s.registrations)
  unfolding remove_cache_entries
  remove_cache_entries-Inv [] s v = (v, refl)
  remove_cache_entries-Inv (id ∷ ids) s v =
      let (v', same) =
        remove_cache_entries-Inv ids (remove_cache_entry id s)
          (remove_cache_entry-Inv limits id s v) in
      (v', same ∙ (remove_cache_entry-rest id s).0)

  -- A new entry of a registered id, once there is room for it.
  store_entry-Inv :
      (id : Text) (resource : ProviderResource) (expires_at : ℕ) (s : ResourceState)
      → limits.max_bytes < u64_max
      → Inv limits s
      → get id s.cache ≡ none
      → contains_key id s.registrations ≡ true
      → s.cache_bytes + length resource.bytes ≤ limits.max_bytes
      → Inv limits (store_entry id resource expires_at s)
  unfolding store_entry
  store_entry-Inv id resource expires_at s big v absent known fits = record {
    counted = omega (
      arith,
      v.counted,
      total-insert entry_size id
          (record { resource = resource; expires_at = expires_at; last_used = s.sequence }) s.cache
          v.cache_once,
      ap (size_of entry_size) absent,
    );
    within = omega arith;
    cache_once = distinct-keys-insert id _ s.cache v.cache_once;
    registered_once = v.registered_once;
    registered_within = v.registered_within;
    cached = λ k h. ground (
      arith,
      get-insert k id
          (record { resource = resource; expires_at = expires_at; last_used = s.sequence }) s.cache,
      v.cached k,
      list_beq_iff id k,
    );
    fetched = v.fetched;
  }

  module _ (big : limits.max_bytes < u64_max) where
    abbrev room : Text → ProviderResource → ℕ → ResourceState → ResourceState
    room id resource now s =
        let purged = remove_cache_entry id (purge_expired now s) in
        (shrink (suc (length purged.cache)) limits.max_bytes (length resource.bytes) purged).0

    room-lem :
        (id : Text) (resource : ProviderResource) (now : ℕ) (s : ResourceState)
        → Inv limits s
        → length resource.bytes ≤ limits.max_bytes
        → Inv limits (room id resource now s)
          × (get id (room id resource now s).cache ≡ none)
          × ((room id resource now s).registrations ≡ s.registrations)
          × ((room id resource now s).cache_bytes + length resource.bytes ≤ limits.max_bytes)
    unfolding purge_expired
    room-lem id resource now s v small =
        let (purged, same) = remove_cache_entries-Inv (expired_ids now s.cache) s v in
        let v' = remove_cache_entry-Inv limits id _ purged in
        let m = shrink-Shrunk limits _ (length resource.bytes) _ v' big small (omega arith) in
        (
          m.keeps,
          m.no_new id (
              (remove_cache_entry_lem id _ purged.counted purged.cache_once).3 id
              ∙ if_true _ _ (==_refl id)),
          m.same_registrations ∙ (remove_cache_entry-rest id _).0 ∙ same,
          m.fits,
        )

    cache_resource-Inv :
        (id : Text) (resource : ProviderResource) (now later : ℕ) (s : ResourceState)
        → Inv limits s
        → Inv limits (cache_resource limits id resource now later s).0
    unfolding cache_resource next_sequence
    cache_resource-Inv id resource now later s v =
        elim (Bool-cases (ltb limits.max_bytes (length resource.bytes))) [
          | inl large ↦ rw large v
          | inr small ↦ rw small (elim (Bool-cases (contains_key id s.registrations)) [
            | inr unknown ↦ rw unknown v
            | inl known ↦
                let (v', absent, same, fits) = room-lem id resource now s v (ground arith) in
                rw known (
                  store_entry-Inv id resource (later + limits.ttl) _ big
                    (next_sequence-Inv limits _ v') absent (rw same known) fits)
          ])
        ]

-- The calls of a manager's clients, with the instants that each one reads.
pub data Call : Type 0 where
  registers : Text → Call
  begins : Text → ℕ → Call
  finishes : Text → Option Text → ℕ → Call
  caches : Text → ProviderResource → ℕ → ℕ → Call

unfoldable pub call : (Text → Text) → Limits → Call → ResourceState → ResourceState
call resource_id limits (registers url) s = (register resource_id limits url s).0
call resource_id limits (begins id now) s = (begin_fetch id now s).0
call resource_id limits (finishes id error now) s = finish_fetch id error now s
call resource_id limits (caches id resource now later) s =
    (cache_resource limits id resource now later s).0

unfoldable pub calls : (Text → Text) → Limits → List Call → ResourceState → ResourceState
calls resource_id limits [] s = s
calls resource_id limits (c ∷ rest) s = calls resource_id limits rest (call resource_id limits c s)

pub call-Inv :
    (resource_id : Text → Text) (limits : Limits) (c : Call) (s : ResourceState)
    → limits.max_bytes < u64_max
    → Inv limits s
    → Inv limits (call resource_id limits c s)
unfolding call
call-Inv resource_id limits (registers url) s big v = register-Inv limits resource_id url s v
call-Inv resource_id limits (begins id now) s big v = begin_fetch-Inv limits id now s v
call-Inv resource_id limits (finishes id error now) s big v =
    finish_fetch-Inv limits id error now s v
call-Inv resource_id limits (caches id resource now later) s big v =
    cache_resource-Inv limits big id resource now later s v

calls-keep :
    (resource_id : Text → Text) (limits : Limits) (l : List Call) (s : ResourceState)
    → limits.max_bytes < u64_max
    → Inv limits s
    → Inv limits (calls resource_id limits l s)
unfolding calls
calls-keep resource_id limits [] s big v = v
calls-keep resource_id limits (c ∷ l) s big v =
    calls-keep resource_id limits l _ big (call-Inv resource_id limits c s big v)

-- After any calls, with a byte limit below the largest `usize`: the byte counter is exactly the
-- total of the cached resources and within the limit, no key stands twice, the registrations are
-- within their limit, and every cached resource and every fetch belongs to a registration.
pub calls-Inv :
    (resource_id : Text → Text) (limits : Limits) (l : List Call)
    → limits.max_bytes < u64_max
    → Inv limits (calls resource_id limits l empty_state)
unfolding total get
calls-Inv resource_id limits l big = calls-keep resource_id limits l empty_state big (record {
  counted = refl;
  within = omega arith;
  cache_once = refl;
  registered_once = refl;
  registered_within = omega arith;
  cached = λ k h. cc;
  fetched = λ k h. cc;
})
