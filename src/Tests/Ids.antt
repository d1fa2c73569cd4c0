-- ===== src/Tests/Ids.antt =====
-- weather-schema/src/correlation.rs at concrete inputs.
use weather_app.Common.{true, [], ◌∷◌, ◌≡◌, distinct, list_eq, nat_eq}
use weather_app.Common.Text.{text}
use weather_app.Schema.Correlation.{CorrelationIdGenerator, issue}
use weather_app.Schema.Correlation.Unique.{issue-distinct}

abbrev generator : CorrelationIdGenerator
generator = record { nonce = text "12345678-90ab-cdef-1234-567890abcdef"; next_sequence = 0 }

issue-distinct_example :
    distinct (issue (text "request" ∷ text "job" ∷ text "request" ∷ []) generator) ≡ true
issue-distinct_example =
    issue-distinct (text "request" ∷ text "job" ∷ text "request" ∷ []) generator
