-- ===== src/Engine/ResourceCache.antt =====
-- weather-core/engine/src/resource_cache.rs: the registry of provider resources, its byte-bounded
-- cache and the states of its fetches. Instants are nanoseconds; `resource_id` is the identifier
-- that `register` derives from a trimmed URL.
pub mod Invariant
pub mod Oldest
pub mod Eviction
pub mod Shrinking
pub mod Operations
pub mod Caching
pub mod Busy
pub mod Fetching
use weather_app.Common.{
  Bool, true, false, not, ◌&&◌, ◌||◌, List, [], ◌∷◌, Option, none, some, ℕ, zero, suc, ◌+◌, ◌-◌,
  ◌*◌, ◌%◌, ◌^◌, length, if◌then◌else◌, leb, ltb, eqb, ◌==◌, list_eq, nat_eq, saturating_add,
  Result, ok, err,
}
use weather_app.Common.Map.{Map, get, insert, remove, contains_key, keys}
use weather_app.Common.Text.{Text, trim, is_empty}

-- `FAILED_FETCH_TTL`, five seconds.
abbrev pub failed_fetch_ttl : ℕ
failed_fetch_ttl = 5000000000

pub record ProviderResource : Type 0 where
  pub content_type : Text
  pub bytes : List ℕ

pub record Registration : Type 0 where
  pub source_url : Text
  pub last_used : ℕ

pub record CacheEntry : Type 0 where
  pub resource : ProviderResource
  pub expires_at : ℕ
  pub last_used : ℕ

pub data FetchState : Type 0 where
  pending : FetchState
  failed : Text → ℕ → FetchState

pub data FetchPlan : Type 0 where
  ready : ProviderResource → FetchPlan
  start : Text → FetchPlan
  waits : FetchPlan
  failure : Text → FetchPlan
  missing : FetchPlan

-- `ResourceManager`'s limits.
pub record Limits : Type 0 where
  pub ttl : ℕ
  pub max_bytes : ℕ
  pub max_registrations : ℕ

-- `ResourceManager::default()`.
abbrev pub default_limits : Limits
default_limits = record {
  ttl = 900 * 1000000000;
  max_bytes = 32 * 1024 * 1024;
  max_registrations = 4096;
}

pub record ResourceState : Type 0 where
  pub registrations : Map Text Registration
  pub cache : Map Text CacheEntry
  pub fetches : Map Text FetchState
  pub cache_bytes : ℕ
  pub sequence : ℕ

abbrev pub empty_state : ResourceState
empty_state = record { registrations = []; cache = []; fetches = []; cache_bytes = 0; sequence = 0 }

-- `wrapping_add(1)` on 64 bits.
unfoldable pub next_sequence : ResourceState → ResourceState
next_sequence s = record s { sequence = (s.sequence + 1) % 2 ^ 64 }

-- `min_by_key` over the entries: the first of the least.
unfoldable pub min_by_key {ℓ} : {V : Type ℓ} → (V → ℕ) → Map Text V → Option (Text × V)
min_by_key key [] = none
min_by_key key ((k, v) ∷ m) = elim (min_by_key key m) [
  | none ↦ some (k, v)
  | some (j, w) ↦ if leb (key v) (key w) then some (k, v) else some (j, w)
]

-- `saturating_sub` is the subtraction of ℕ.
unfoldable pub remove_cache_entry : Text → ResourceState → ResourceState
remove_cache_entry id s = elim (get id s.cache) [
  | none ↦ s
  | some entry ↦ record s {
    cache = remove id s.cache;
    cache_bytes = s.cache_bytes - length entry.resource.bytes;
  }
]

abbrev pub is_pending : Option FetchState → Bool
is_pending none = false
is_pending (some pending) = true
is_pending (some (failed message expires_at)) = false

-- The registrations that may be evicted: those with no pending fetch.
unfoldable pub evictable : Map Text FetchState → Map Text Registration → Map Text Registration
evictable fetches [] = []
evictable fetches ((id, r) ∷ m) =
    if is_pending (get id fetches) then evictable fetches m else (id, r) ∷ evictable fetches m

unfoldable pub evict_registration : Text → ResourceState → ResourceState
evict_registration id s =
    remove_cache_entry id
      (record s { registrations = remove id s.registrations; fetches = remove id s.fetches })

-- How the eviction loop of `register` ends.
pub data Room : Type 0 where
  made_room nothing_evictable out_of_fuel : Room

unfoldable pub make_room : ℕ → ℕ → ResourceState → ResourceState × Room
make_room zero limit s = (s, out_of_fuel)
make_room (suc fuel) limit s = elim (leb limit (length s.registrations)) [
  | false ↦ (s, made_room)
  | true ↦
      elim (min_by_key (λ (r : Registration). r.last_used) (evictable s.fetches s.registrations)) [
        | none ↦ (s, nothing_evictable)
        | some (oldest, r) ↦ make_room fuel limit (evict_registration oldest s)
      ]
]

abbrev pub enter : Text → Text → ResourceState × Room → ResourceState × Option Text
enter id url (s, made_room) = (
  record s {
    registrations = insert id (record { source_url = url; last_used = s.sequence }) s.registrations;
  },
  some id,
)
enter id url (s, nothing_evictable) = (s, none)
enter id url (s, out_of_fuel) = (s, none)

-- The known and the new identifier, once the sequence was taken.
unfoldable pub register_id : Limits → Text → Text → ResourceState → ResourceState × Option Text
register_id limits id url s = elim (get id s.registrations) [
  | some r ↦
      if r.source_url == url
      then (
        record s {
          registrations = insert id (record r { last_used = s.sequence }) s.registrations;
        },
        some id,
      )
      else (s, none)
  | none ↦ enter id url (make_room (suc (length s.registrations)) limits.max_registrations s)
]

unfoldable pub register :
    (Text → Text) → Limits → Text → ResourceState → ResourceState × Option Text
register resource_id limits source_url s =
    let url = trim source_url in
    if is_empty url || eqb limits.max_registrations 0
    then (s, none)
    else register_id limits (resource_id url) url (next_sequence s)

-- The entry of the cache, unless it has expired.
unfoldable pub drop_expired : Text → ℕ → ResourceState → ResourceState
drop_expired id now s = elim (get id s.cache) [
  | none ↦ s
  | some entry ↦ if leb entry.expires_at now then remove_cache_entry id s else s
]

unfoldable pub drop_failed : Text → ℕ → ResourceState → ResourceState
drop_failed id now s = elim (get id s.fetches) [
  | none ↦ s
  | some pending ↦ s
  | some (failed message expires_at) ↦
      if leb expires_at now then record s { fetches = remove id s.fetches } else s
]

unfoldable pub plan_fetch : Text → Text → ResourceState → ResourceState × FetchPlan
plan_fetch id source_url s = elim (get id s.fetches) [
  | some pending ↦ (s, waits)
  | some (failed message expires_at) ↦ (s, failure message)
  | none ↦ (record s { fetches = insert id pending s.fetches }, start source_url)
]

unfoldable pub fetch_or_cached : Text → Text → ℕ → ResourceState → ResourceState × FetchPlan
fetch_or_cached id source_url now s = elim (get id s.cache) [
  | some entry ↦ (
    record s { cache = insert id (record entry { last_used = s.sequence }) s.cache },
    ready entry.resource,
  )
  | none ↦ plan_fetch id source_url (drop_failed id now s)
]

unfoldable pub begin_registered :
    Text → ℕ → Option Registration → ResourceState → ResourceState × FetchPlan
begin_registered id now none s = (s, missing)
begin_registered id now (some r) s = fetch_or_cached id r.source_url now (
    drop_expired id now (record s {
      registrations = insert id (record r { last_used = s.sequence }) s.registrations;
    }))

unfoldable pub begin_fetch : Text → ℕ → ResourceState → ResourceState × FetchPlan
begin_fetch id now s = begin_registered id now (get id s.registrations) (next_sequence s)

unfoldable pub settle_fetch : Text → Option Text → ℕ → ResourceState → ResourceState
settle_fetch id (some message) now s = record s {
  fetches = insert id (failed message (now + failed_fetch_ttl)) s.fetches;
}
settle_fetch id none now s = record s { fetches = remove id s.fetches }

unfoldable pub finish_fetch : Text → Option Text → ℕ → ResourceState → ResourceState
finish_fetch id error now s =
    if not (contains_key id s.registrations)
    then record s { fetches = remove id s.fetches }
    else settle_fetch id error now s

-- The ids that `purge_expired` collects, and their removal.
unfoldable pub expired_ids : ℕ → Map Text CacheEntry → List Text
expired_ids now [] = []
expired_ids now ((id, entry) ∷ m) =
    if leb entry.expires_at now then id ∷ expired_ids now m else expired_ids now m

unfoldable pub remove_cache_entries : List Text → ResourceState → ResourceState
remove_cache_entries [] s = s
remove_cache_entries (id ∷ ids) s = remove_cache_entries ids (remove_cache_entry id s)

unfoldable pub purge_expired : ℕ → ResourceState → ResourceState
purge_expired now s = remove_cache_entries (expired_ids now s.cache) s

-- The eviction loop of `cache`: the flag says that the fuel was enough.
unfoldable pub shrink : ℕ → ℕ → ℕ → ResourceState → ResourceState × Bool
shrink zero max_bytes size s = (s, false)
shrink (suc fuel) max_bytes size s = elim (ltb max_bytes (saturating_add s.cache_bytes size)) [
  | false ↦ (s, true)
  | true ↦ elim (min_by_key (λ (e : CacheEntry). e.last_used) s.cache) [
    | none ↦ (s, true)
    | some (oldest, entry) ↦ shrink fuel max_bytes size (remove_cache_entry oldest s)
  ]
]

pub data CacheError : Type 0 where
  too_large : Text → ℕ → ℕ → CacheError
  not_registered : Text → CacheError

unfoldable pub store_entry : Text → ProviderResource → ℕ → ResourceState → ResourceState
store_entry id resource expires_at s = record s {
  cache_bytes = saturating_add s.cache_bytes (length resource.bytes);
  cache =
      insert id (record { resource = resource; expires_at = expires_at; last_used = s.sequence })
        s.cache;
}

-- `now` is read for the purge and `later` for the new entry.
unfoldable pub cache_resource :
    Limits
    → Text
    → ProviderResource
    → ℕ
    → ℕ
    → ResourceState
    → ResourceState × Result (Unit {0}) CacheError
cache_resource limits id resource now later s =
    if ltb limits.max_bytes (length resource.bytes)
    then (s, err (too_large id (length resource.bytes) limits.max_bytes))
    else if not (contains_key id s.registrations)
    then (s, err (not_registered id))
    else let purged = remove_cache_entry id (purge_expired now s) in
      let room =
        (shrink (suc (length purged.cache)) limits.max_bytes (length resource.bytes) purged).0 in
      (store_entry id resource (later + limits.ttl) (next_sequence room), ok tt)
