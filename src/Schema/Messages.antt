-- ===== src/Schema/Messages.antt =====
-- weather-schema/weather/schema/v1/weather.proto: the messages of a station search, as their generated
-- types.
use weather_app.Common.{Bool, false, List, [], Option, ℕ}
use weather_app.Common.Text.{Text}

pub record StationRef : Type 0 where
  pub province : Text
  pub city : Text
  pub name : Text
  pub unified_uuid : Text

pub record City : Type 0 where
  pub province : Text
  pub city : Text

pub record Province : Type 0 where
  pub name : Text

pub record FuzzyMatchStationsResponse : Type 0 where
  pub stations : List StationRef
  pub cities : List City
  pub provinces : List Province
  pub has_more : Bool
  pub next_offset : ℕ

abbrev pub no_results : FuzzyMatchStationsResponse
no_results = record {
  stations = [];
  cities = [];
  provinces = [];
  has_more = false;
  next_offset = 0;
}

pub record FuzzyMatchStationsRequest : Type 0 where
  pub query : Text
  pub province : Option Text
  pub page_offset : ℕ
  pub page_size : ℕ

pub record GetResourceRequest : Type 0 where
  pub resource_id : Text
  pub offset : ℕ
  pub max_bytes : ℕ

pub data TransferState : Type 0 where
  unspecified : TransferState
  ready : TransferState
  pending : TransferState
  unknown : ℕ → TransferState

-- `chunk` is the field `data`.
pub record GetResourceResponse : Type 0 where
  pub resource_id : Text
  pub content_type : Text
  pub chunk : List ℕ
  pub total_size : ℕ
  pub next_offset : ℕ
  pub complete : Bool
  pub cache_hit : Bool
  pub transfer_state : TransferState
  pub retry_after_ms : ℕ
