-- ===== src/Tests/Transfers.antt =====
-- weather-renderer/gui/src-tauri/src/lib.rs and weather-core/engine/src/handlers/resource.rs at concrete
-- inputs.
use weather_app.Common.{
  false, List, [], ◌∷◌, map, some, ◌+◌, ◌≤◌, ◌≡◌, inl, inr, refl, arith, length, All, ok, list_eq,
  nat_eq,
}
use weather_app.Common.Text.{Text, text, is_empty, trim, trim_start, trim_end, is_whitespace}
use weather_app.Engine.ResourceCache.{
  ProviderResource, ResourceState, begin_fetch, begin_registered, fetch_or_cached, plan_fetch,
  drop_expired, drop_failed, next_sequence,
}
use weather_app.Common.Map.{get, insert}
use weather_app.Client.Assembler.{get_resource_bytes, max_resource_bytes, resource_transfer_timeout}
use weather_app.Client.Assembler.Served.{Served, Serves, Punctual, round_of, served_count}
use weather_app.Client.Assembler.Whole.{get_resource_bytes-served}

abbrev id : Text
id = text "radar"

abbrev radar : ProviderResource
radar = record { content_type = text "image/png"; bytes = 1 ∷ (2 ∷ (3 ∷ [])) }

abbrev registered : ResourceState
registered = record {
  registrations =
      (id, record { source_url = text "https://example.org/radar"; last_used = 1 }) ∷ [];
  cache = [];
  fetches = [];
  cache_bytes = 0;
  sequence = 1;
}

abbrev cached : ResourceState
cached = record registered {
  cache = (id, record { resource = radar; expires_at = 900; last_used = 1 }) ∷ [];
  cache_bytes = 3;
}

-- The first turn starts the fetch, and the second one finds the resource.
abbrev turns : List Served
turns =
    record { now = 100; later = 110; served_at = 105; state = registered }
    ∷ (record { now = 200; later = 210; served_at = 205; state = cached } ∷ [])

named : is_empty (trim id) ≡ false
unfolding trim trim_start trim_end is_whitespace
named = refl

small : length radar.bytes ≤ max_resource_bytes
small = omega arith

turns_served : All (Serves radar id) turns
unfolding begin_fetch begin_registered fetch_or_cached plan_fetch drop_expired drop_failed
    next_sequence get insert
turns_served = (inr refl, (inl refl, tt))

turns-Punctual : All (Punctual (100 + resource_transfer_timeout)) turns
turns-Punctual = ((omega arith, omega arith), ((omega arith, omega arith), tt))

one_served : served_count id turns ≡ 1
unfolding begin_fetch begin_registered fetch_or_cached plan_fetch drop_expired drop_failed
    next_sequence get insert
one_served = refl

get_resource_bytes-served_example :
    get_resource_bytes id 100 (map round_of turns) ≡ some (ok (1 ∷ (2 ∷ (3 ∷ []))))
get_resource_bytes-served_example =
    (get_resource_bytes-served radar id named small 100 turns turns_served).1 turns-Punctual
      (omega (arith, one_served)) (omega (arith, one_served))
