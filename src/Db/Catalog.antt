-- ===== src/Db/Catalog.antt =====
-- weather-core/db/src/actor.rs: the rows of the provider's catalog and their public references.
use weather_app.Common.Text.{Text}
use weather_app.Schema.Messages.{StationRef, City, Province}

pub record ProviderProvince : Type 0 where
  pub provider_code : Text
  pub name : Text
  pub url : Text

pub record ProviderCity : Type 0 where
  pub provider_code : Text
  pub provider_province_code : Text
  pub province : Text
  pub city : Text
  pub url : Text

pub record ProviderStation : Type 0 where
  pub provider_name : Text
  pub display_name : Text
  pub provider_station_id : Text
  pub provider_province_code : Text
  pub province : Text
  pub city : Text
  pub url : Text
  pub name : Text
  pub unified_uuid : Text

-- The three methods `public_ref`.
abbrev pub public_province : ProviderProvince → Province
public_province p = record { name = p.name }

abbrev pub public_city : ProviderCity → City
public_city c = record { province = c.province; city = c.city }

abbrev pub public_station : ProviderStation → StationRef
public_station s = record {
  province = s.province;
  city = s.city;
  name = s.name;
  unified_uuid = s.unified_uuid;
}
