-- ===== src/Tests/Catalog.antt =====
-- The catalog of the provider at concrete inputs: weather-core/engine/src/handlers/fuzzy.rs,
-- weather-core/engine/src/station.rs, weather-core/db/src/validation.rs and
-- weather-schema/src/uuid.rs.
use weather_app.Common.{
  ◌&&◌, List, [], ◌∷◌, ℕ, ◌≡◌, arith, leb, length, ◌%◌, list_eq, nat_eq, ◌≤◌, ◌<◌, ◌+◌, ◌^◌,
  pair_eq,
}
use weather_app.Common.Text.{text}
use weather_app.Schema.Uuid.{IsDigest}
use weather_app.Db.Catalog.{ProviderCity}
use weather_app.Engine.Fuzzy.{Platform, ProviderCatalog, search_candidates, fuzzy}
use weather_app.Engine.Fuzzy.Results.{fuzzy_page}

-- Sixteen bytes of the length of the input.
abbrev digest : List ℕ → List ℕ
digest l =
    let n = length l % 256 in n ∷ n ∷ n ∷ n ∷ n ∷ n ∷ n ∷ n ∷ n ∷ n ∷ n ∷ n ∷ n ∷ n ∷ n ∷ n ∷ []

digest-IsDigest : IsDigest digest
digest-IsDigest = record { long = λ l. omega arith; in_bytes = λ l. omega arith }

abbrev ascii : Platform
ascii = record {
  is_alphanumeric = λ c. leb b'a' c && leb c b'z';
  to_lowercase = λ c. c ∷ [];
  digest = digest;
}

abbrev wuhan : ProviderCity
wuhan = record {
  provider_code = text "W";
  provider_province_code = text "HB";
  province = text "hubei";
  city = text "wuhan";
  url = [];
}

abbrev catalog : ProviderCatalog
catalog = record {
  provinces = record { provider_code = text "HB"; name = text "hubei"; url = [] } ∷ [];
  cities = wuhan ∷ [];
}

fuzzy_page_example :
    let r = fuzzy ascii (text "nmc") catalog (text "wu") 0 1 in
    let total = length (search_candidates ascii (text "nmc") catalog (text "wu")) in
    (length r.stations + length r.cities + length r.provinces ≤ 1)
    × (0 ≤ total
        → total < 2 ^ 32
        → r.next_offset ≡ 0 + (length r.stations + length r.cities + length r.provinces))
fuzzy_page_example = fuzzy_page ascii (text "wu") (text "nmc") catalog 0 1
