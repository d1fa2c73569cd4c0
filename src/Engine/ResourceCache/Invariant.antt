-- ===== src/Engine/ResourceCache/Invariant.antt =====
-- weather-core/engine/src/resource_cache.rs: the accounting and the bounds of the resource manager.
use weather_app.Common.{
  true, none, ℕ, ◌≤◌, ◌≡◌, refl, ap, inl, inr, arith, length, distinct, if◌then◌else◌, ◌==◌,
  list_eq, nat_eq, list_beq_iff, Option-cases,
}
use weather_app.Common.Map.{get, keys, contains_key, get-remove}
use weather_app.Common.Map.Size.{distinct-keys-remove, total, total-remove, size_of}
use weather_app.Common.Text.{Text}
use weather_app.Engine.ResourceCache.{CacheEntry, Limits, ResourceState, remove_cache_entry}

abbrev pub entry_size : CacheEntry → ℕ
entry_size entry = length entry.resource.bytes

-- The bytes are counted exactly and fit the limit; keys stand once; the cache and the fetches
-- belong to registered resources, whose number is bounded.
pub record Inv (limits : Limits) (s : ResourceState) : Type 0 where
  pub counted : s.cache_bytes ≡ total entry_size s.cache
  pub within : s.cache_bytes ≤ limits.max_bytes
  pub cache_once : distinct (keys s.cache) ≡ true
  pub registered_once : distinct (keys s.registrations) ≡ true
  pub registered_within : length s.registrations ≤ limits.max_registrations
  pub cached : (k : Text) → contains_key k s.cache ≡ true → contains_key k s.registrations ≡ true
  pub fetched : (k : Text) → contains_key k s.fetches ≡ true → contains_key k s.registrations ≡ true

-- Removing an entry takes its bytes off, and its key out of the cache.
pub remove_cache_entry_lem :
    (id : Text) (s : ResourceState)
    → s.cache_bytes ≡ total entry_size s.cache
    → distinct (keys s.cache) ≡ true
    → ((remove_cache_entry id s).cache_bytes ≡ total entry_size (remove_cache_entry id s).cache)
      × ((remove_cache_entry id s).cache_bytes ≤ s.cache_bytes)
      × (distinct (keys (remove_cache_entry id s).cache) ≡ true)
      × ((k : Text)
          → get k (remove_cache_entry id s).cache ≡ (if id == k then none else get k s.cache))
unfolding remove_cache_entry
remove_cache_entry_lem id s c d = elim (Option-cases (get id s.cache)) [
  | inl e ↦ rw (e, remove_cache_entry) (c, omega arith, d, λ k. ground (arith, list_beq_iff id k))
  | inr (entry, e) ↦
      rw (e, remove_cache_entry)
        (
          omega (arith, c, total-remove entry_size id s.cache d, ap (size_of entry_size) e),
          omega arith,
          distinct-keys-remove id s.cache d,
          λ k. get-remove k id s.cache,
        )
]

-- Nothing but the cache changes.
pub remove_cache_entry-rest :
    (id : Text) (s : ResourceState)
    → ((remove_cache_entry id s).registrations ≡ s.registrations)
      × ((remove_cache_entry id s).fetches ≡ s.fetches)
      × ((remove_cache_entry id s).sequence ≡ s.sequence)
unfolding remove_cache_entry
remove_cache_entry-rest id s = elim (Option-cases (get id s.cache)) [
  | inl e ↦ rw (e, remove_cache_entry) (refl, refl, refl)
  | inr (entry, e) ↦ rw (e, remove_cache_entry) (refl, refl, refl)
]

pub remove_cache_entry-Inv :
    (limits : Limits) (id : Text) (s : ResourceState)
    → Inv limits s
    → Inv limits (remove_cache_entry id s)
remove_cache_entry-Inv limits id s v =
    let (counted, less, once, gets) = remove_cache_entry_lem id s v.counted v.cache_once in
    let (regs, fetches, _) = remove_cache_entry-rest id s in
    record {
      counted = counted;
      within = omega (arith, v.within, less);
      cache_once = once;
      registered_once = rw regs v.registered_once;
      registered_within = rw regs v.registered_within;
      cached = λ k h. rw regs (v.cached k (ground (arith, gets k)));
      fetched = λ k h. rw regs (v.fetched k (rw fetches at h));
    }
