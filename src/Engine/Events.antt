-- ===== src/Engine/Events.antt =====
-- weather-core/engine/src/handlers/events.rs: the events that a weather request publishes, without
-- the envelope around each, its time stamps and its signature.
use weather_app.Common.{Bool, true, false, ◌++◌, Option, none, some}
use weather_app.Common.Text.{Text, text}
use weather_app.Schema.Weather.{WeatherSnapshot}

pub data RefreshPhase : Type 0 where
  started : RefreshPhase
  completed : RefreshPhase

pub data RefreshOutcome : Type 0 where
  unspecified : RefreshOutcome
  success : RefreshOutcome
  stale : RefreshOutcome
  failure : RefreshOutcome

pub data FetchOutcome : Type 0 where
  success : FetchOutcome
  warning : FetchOutcome
  failure : FetchOutcome

pub data RefreshTerminal : Type 0 where
  success : RefreshTerminal
  stale : RefreshTerminal
  failure : Text → RefreshTerminal

pub record RefreshEvent : Type 0 where
  pub unified_uuid : Option Text
  pub started : Bool
  pub completed : Bool
  pub message : Option Text
  pub phase : RefreshPhase
  pub outcome : RefreshOutcome

pub record FetchLogEvent : Type 0 where
  pub unified_uuid : Option Text
  pub endpoint : Text
  pub ok : Bool
  pub message : Option Text
  pub outcome : FetchOutcome

pub data Event (F : Type 0) : Type 0 where
  weather_snapshot : WeatherSnapshot F → Event F
  fetch_log : FetchLogEvent → Event F
  refresh : RefreshEvent → Event F

unfoldable pub into_diagnostics : RefreshTerminal → RefreshOutcome × Text
into_diagnostics RefreshTerminal.success = (RefreshOutcome.success, text "success")
into_diagnostics RefreshTerminal.stale = (RefreshOutcome.stale, text "stale")
into_diagnostics (RefreshTerminal.failure message) =
    (RefreshOutcome.failure, text "failure: " ++ message)

abbrev pub is_started : RefreshPhase → Bool
is_started started = true
is_started completed = false

abbrev pub is_completed : RefreshPhase → Bool
is_completed started = false
is_completed completed = true

unfoldable pub refresh_event :
    Option Text → RefreshPhase → RefreshOutcome → Option Text → RefreshEvent
refresh_event unified_uuid phase outcome message = record {
  unified_uuid = unified_uuid;
  started = is_started phase;
  completed = is_completed phase;
  message = message;
  phase = phase;
  outcome = outcome;
}

unfoldable pub fetch_outcome : Bool → Option Text → FetchOutcome
fetch_outcome true none = FetchOutcome.success
fetch_outcome true (some message) = FetchOutcome.warning
fetch_outcome false message = FetchOutcome.failure

unfoldable pub fetch_log_event : Option Text → Text → Bool → Option Text → FetchLogEvent
fetch_log_event unified_uuid endpoint ok message = record {
  unified_uuid = unified_uuid;
  endpoint = endpoint;
  ok = ok;
  message = message;
  outcome = fetch_outcome ok message;
}

unfoldable pub refresh_started : {F : Type 0} → Option Text → Event F
refresh_started unified_uuid =
    refresh (refresh_event unified_uuid started RefreshOutcome.unspecified none)

unfoldable pub refresh_terminal : {F : Type 0} → Option Text → RefreshTerminal → Event F
refresh_terminal unified_uuid terminal =
    let (outcome, message) = into_diagnostics terminal in
    refresh (refresh_event unified_uuid completed outcome (some message))

-- `publish_snapshot` takes the debug payload out.
unfoldable pub snapshot_event : {F : Type 0} → WeatherSnapshot F → Event F
snapshot_event snapshot = weather_snapshot (record snapshot { debug = none })
