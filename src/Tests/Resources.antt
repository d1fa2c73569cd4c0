-- ===== src/Tests/Resources.antt =====
-- weather-core/engine/src/resource_cache.rs at concrete inputs.
use weather_app.Common.{List, [], ◌∷◌, ◌++◌, none, arith, list_eq, nat_eq}
use weather_app.Common.Text.{Text, text}
use weather_app.Engine.ResourceCache.{Limits, ProviderResource, empty_state}
use weather_app.Engine.ResourceCache.Caching.{
  Call, registers, begins, finishes, caches, calls, calls-Inv,
}
use weather_app.Engine.ResourceCache.Invariant.{Inv}

abbrev identify : Text → Text
identify url = text "resource-" ++ url

abbrev small : Limits
small = record { ttl = 60; max_bytes = 6; max_registrations = 4 }

abbrev png : ProviderResource
png = record { content_type = text "image/png"; bytes = 1 ∷ 1 ∷ 1 ∷ 1 ∷ [] }

abbrev session : List Call
session =
    registers (text "one")
    ∷ registers (text "two")
    ∷ begins (text "resource-one") 1
    ∷ caches (text "resource-one") png 2 3
    ∷ finishes (text "resource-one") none 4
    ∷ caches (text "resource-two") png 5 6
    ∷ []

calls-Inv_example : Inv small (calls identify small session empty_state)
calls-Inv_example = calls-Inv identify small session (omega arith)

-- A fetch of the first resource runs while others are registered, fetched and cached.
abbrev begun : List Call
begun = registers (text "one") ∷ registers (text "two") ∷ begins (text "resource-one") 1 ∷ []

abbrev meanwhile : List Call
meanwhile =
    begins (text "resource-one") 2
    ∷ begins (text "resource-two") 3
    ∷ finishes (text "resource-two") none 4
    ∷ registers (text "three")
    ∷ []
