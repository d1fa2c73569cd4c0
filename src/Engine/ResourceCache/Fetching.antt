-- ===== src/Engine/ResourceCache/Fetching.antt =====
-- weather-core/engine/src/resource_cache.rs: a resource is fetched once at a time.
use weather_app.Common.{Bool, true, false, not, ◌==◌, list_eq, nat_eq}
use weather_app.Common.Text.{Text}
use weather_app.Engine.ResourceCache.{FetchPlan, ready, start, waits, failure, missing}
use weather_app.Engine.ResourceCache.Caching.{Call, registers, begins, finishes, caches}
use weather_app.Engine.ResourceCache.Busy.{Busy}

-- Whether a plan tells the caller to start a fetch.
abbrev pub starts : FetchPlan → Bool
starts (start url) = true
starts (ready resource) = false
starts waits = false
starts (failure message) = false
starts missing = false

module _ (id : Text) where
  -- Any call but the one that ends the fetch.
  abbrev pub spares : Call → Bool
  spares (registers url) = true
  spares (begins other now) = true
  spares (finishes other error now) = not (other == id)
  spares (caches other resource now later) = true
