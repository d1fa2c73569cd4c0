-- ===== src/Engine/Weather/Refreshes.antt =====
-- weather-core/engine/src/handlers/weather.rs: what a request reports of its refresh.
use weather_app.Common.{
  Bool, true, false, not, ◌||◌, List, [], ◌∷◌, ◌++◌, Option, none, some, ◌≡◌, ◌⊎◌, inl, inr, refl,
  ap, ◌∙◌, Bool-cases, all, all-append, if◌then◌else◌, Result, ok, err,
}
use mathlib.Core.List.{append_assoc}
use weather_app.Common.Text.{Text}
use weather_app.Schema.Weather.{GetWeatherRequest, WeatherSnapshot}
use weather_app.Engine.Events.{Event, RefreshTerminal, refresh_started, refresh_terminal}
use weather_app.Engine.Task.{
  AnyError, World, return, publish, continue, full_text, outer_text, ◌>>=◌, ◌>>◌,
}
use weather_app.Engine.Weather.Temperatures.{Platform}
use weather_app.Engine.Weather.Services.{Services}
use weather_app.Engine.Weather.Quiet.{Silent, Silent-trans, is_refresh, >>=-Quiet}
use weather_app.Engine.Weather.Unreported.{get_weather_internal-Quiet, respond-Quiet}
use weather_app.Engine.Weather.Request.{
  Response, bad_request, weather_error, snapshot_response, unless_blank, cancelled, outcome_of,
  respond, handle_weather_request,
}
use weather_app.Engine.Weather.Closing.{Closing, internal-Closing}

regroup :
    {A : Type 0} (before during later : List A) (x y : A) {until after : List A}
    → until ≡ (before ++ x ∷ []) ++ during
    → after ≡ (until ++ y ∷ []) ++ later
    → after ≡ before ++ (x ∷ (during ++ y ∷ later))
regroup before during later x y e f = f ∙ ap (λ l. (l ++ y ∷ []) ++ later) e ∙ simp append_assoc

-- The end that a response goes with; a task that is dropped gives none.
abbrev pub EndsWith : {F : Type 0} → Option (Response F) → RefreshTerminal → Type 0
EndsWith none outcome = outcome ≡ cancelled
EndsWith (some (bad_request message)) outcome = ⊥
EndsWith (some (weather_error message)) outcome =
    (e : AnyError) × (outcome ≡ RefreshTerminal.failure (full_text e)) × (message ≡ outer_text e)
EndsWith (some (snapshot_response snapshot)) outcome =
    outcome ≡ (if snapshot.stale then RefreshTerminal.stale else RefreshTerminal.success)

-- The events of a refresh: its start, then one end, and nothing else of any refresh.
pub record Reported {F S : Type 0} (requested : Text) (before : List (Event F))
    (out : World F S × Option (Response F)) : Type 0 where
  pub uuid : Option Text
  pub outcome : RefreshTerminal
  pub during : List (Event F)
  pub later : List (Event F)
  pub events :
      out.0.published
      ≡ before
        ++ (refresh_started (unless_blank requested)
            ∷ (during ++ refresh_terminal uuid outcome ∷ later))
  pub no_refresh : all (λ e. not (is_refresh e)) (during ++ later) ≡ true
  pub ends : EndsWith out.1 outcome

module _ {F D S : Type 0} (p : Platform F D) (v : Services F S) where
  respond-EndsWith :
      (r : Result (WeatherSnapshot F) AnyError) (w : World F S) (outcome : RefreshTerminal)
      → outcome ≡ outcome_of r
      → EndsWith (respond p v r w).1 outcome
  unfolding ◌>>◌ ◌>>=◌ publish return
  respond-EndsWith (err e) w outcome h = (e, h, refl)
  respond-EndsWith (ok snapshot) w outcome h = h

  responded-Reported :
      (requested : Text) (before : List (Event F))
      (out : World F S × Option (Result (WeatherSnapshot F) AnyError))
      → Closing (before ++ refresh_started (unless_blank requested) ∷ []) out
      → Reported requested before (continue out (respond p v))
  responded-Reported requested before (w, none) c = record {
    uuid = c.uuid;
    outcome = c.outcome;
    during = c.quiet_before.events;
    later = c.quiet_after.events;
    events = regroup before _ _ _ _ c.quiet_before.added c.quiet_after.added;
    no_refresh =
        all-append _ c.quiet_before.events _ c.quiet_before.no_refresh c.quiet_after.no_refresh;
    ends = c.ends;
  }
  responded-Reported requested before (w, some r) c =
      let after = Silent-trans _ w.published _ c.quiet_after ((respond-Quiet p v r).silent w) in
      record {
        uuid = c.uuid;
        outcome = c.outcome;
        during = c.quiet_before.events;
        later = after.events;
        events = regroup before _ _ _ _ c.quiet_before.added after.added;
        no_refresh =
            all-append _ c.quiet_before.events _ c.quiet_before.no_refresh after.no_refresh;
        ends = respond-EndsWith r w c.outcome c.ends;
      }

  -- A request that asks for a refresh, itself or by TRIGGER_REFRESH, reports one start, and after it one
  -- end: success for a fresh snapshot, stale for a stale one, the failure for an error, and a failure
  -- where the task is dropped. Any other request reports no refresh.
  pub handle_weather_request-Reported :
      (req : GetWeatherRequest) (force : Bool) (w : World F S)
      → ((force || req.refresh) ≡ true)
          × Reported req.unified_uuid w.published (handle_weather_request p v (ok req) force w)
        ⊎ ((force || req.refresh) ≡ false)
          × Silent w.published (handle_weather_request p v (ok req) force w).0.published
  unfolding handle_weather_request ◌>>=◌
  handle_weather_request-Reported req true w = inl (
    refl,
    responded-Reported req.unified_uuid w.published _
        (internal-Closing p v (record req { refresh = true }) w refl),
  )
  handle_weather_request-Reported req false w = elim (Bool-cases req.refresh) [
    | inl on ↦
        inl (on, responded-Reported req.unified_uuid w.published _ (internal-Closing p v req w on))
    | inr off ↦
        inr (
          off,
          (>>=-Quiet _ _ (get_weather_internal-Quiet p v req off) (respond-Quiet p v)).silent w,
        )
  ]
