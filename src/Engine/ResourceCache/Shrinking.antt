-- ===== src/Engine/ResourceCache/Shrinking.antt =====
-- weather-core/engine/src/resource_cache.rs: the loop that makes room for the bytes of a resource.
use weather_app.Common.{
  Bool, true, [], Option, none, some, ℕ, zero, suc, ◌+◌, ◌≤◌, ◌<◌, ◌≡◌, refl, ◌∙◌, inl, inr, arith,
  length, distinct, ltb, list_eq, nat_eq, list_beq_iff, Bool-cases, Option-cases, saturating_add,
  u64_max,
}
use weather_app.Common.Map.{Map, get, keys}
use weather_app.Common.Map.Size.{length-remove, total}
use weather_app.Common.Text.{Text}
use weather_app.Engine.ResourceCache.{
  CacheEntry, Limits, ResourceState, remove_cache_entry, min_by_key, shrink,
}
use weather_app.Engine.ResourceCache.Invariant.{
  Inv, entry_size, remove_cache_entry_lem, remove_cache_entry-rest, remove_cache_entry-Inv,
}
use weather_app.Engine.ResourceCache.Oldest.{min_by_key-none, min_by_key-get}

-- What the loop of `cache` leaves: room for the resource, and no new entry.
pub record Shrunk (limits : Limits) (size : ℕ) (s : ResourceState) (out : ResourceState × Bool)
    : Type 0 where
  pub ended : out.1 ≡ true
  pub keeps : Inv limits out.0
  pub fits : out.0.cache_bytes + size ≤ limits.max_bytes
  pub no_new : (k : Text) → get k s.cache ≡ none → get k out.0.cache ≡ none
  pub same_registrations : out.0.registrations ≡ s.registrations
  pub same_fetches : out.0.fetches ≡ s.fetches

abbrev oldest_entry : ResourceState → Option (Text × CacheEntry)
oldest_entry s = min_by_key (λ e. e.last_used) s.cache

total_empty : (m : Map Text CacheEntry) → m ≡ [] → total entry_size m ≡ 0
unfolding total
total_empty m e = rw e

Shrunk-remove :
    (limits : Limits) (size : ℕ) (id : Text) (s : ResourceState) {out : ResourceState × Bool}
    → Inv limits s
    → Shrunk limits size (remove_cache_entry id s) out
    → Shrunk limits size s out
Shrunk-remove limits size id s v m = record {
  ended = m.ended;
  keeps = m.keeps;
  fits = m.fits;
  no_new = λ k h.
      m.no_new k (
        ground
          (arith, (remove_cache_entry_lem id s v.counted v.cache_once).3 k, list_beq_iff id k));
  same_registrations = m.same_registrations ∙ (remove_cache_entry-rest id s).0;
  same_fetches = m.same_fetches ∙ (remove_cache_entry-rest id s).1;
}

length-remove_cache_entry :
    (id : Text) (entry : CacheEntry) (s : ResourceState)
    → distinct (keys s.cache) ≡ true
    → get id s.cache ≡ some entry
    → suc (length (remove_cache_entry id s).cache) ≡ length s.cache
unfolding remove_cache_entry
length-remove_cache_entry id entry s d g =
    rw (g, remove_cache_entry) (length-remove id s.cache d (rw g))

pub shrink-Shrunk :
    (limits : Limits) (fuel size : ℕ) (s : ResourceState)
    → Inv limits s
    → limits.max_bytes < u64_max
    → size ≤ limits.max_bytes
    → length s.cache < fuel
    → Shrunk limits size s (shrink fuel limits.max_bytes size s)
unfolding shrink
shrink-Shrunk limits zero size s v big fits f = absurd (omega arith)
shrink-Shrunk limits (suc fuel) size s v big fits f =
    elim (Bool-cases (ltb limits.max_bytes (saturating_add s.cache_bytes size))) [
      | inr enough ↦ rw (enough, shrink) (done (ground arith))
      | inl over ↦
          rw (over, shrink)
            (elim (Option-cases (oldest_entry s)) [
              | inl nothing ↦
                  rw (nothing, shrink)
                    (done (
                      omega (
                        arith,
                        v.counted,
                        total_empty s.cache
                            (min_by_key-none (λ (e : CacheEntry). e.last_used) s.cache nothing),
                      )))
              | inr ((id, entry), found) ↦
                  rw (found, shrink)
                    (Shrunk-remove limits size id s v (
                      shrink-Shrunk limits fuel size (remove_cache_entry id s)
                        (remove_cache_entry-Inv limits id s v) big fits
                        (omega (
                          arith,
                          length-remove_cache_entry id entry s v.cache_once (
                              min_by_key-get (λ (e : CacheEntry). e.last_used) s.cache id entry
                                v.cache_once found),
                        ))))
            ])
    ]
  where
    done : s.cache_bytes + size ≤ limits.max_bytes → Shrunk limits size s (s, true)
    done h = record {
      ended = refl;
      keeps = v;
      fits = h;
      no_new = λ k e. e;
      same_registrations = refl;
      same_fetches = refl;
    }
