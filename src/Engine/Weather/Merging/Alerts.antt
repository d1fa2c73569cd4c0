-- ===== src/Engine/Weather/Merging/Alerts.antt =====
-- weather-core/engine/src/handlers/weather.rs: the alerts that a station takes over from its parent.
use weather_app.Common.{
  Bool, true, false, ◌&&◌, ◌||◌, List, [], ◌∷◌, ◌++◌, map, Option, ◌≡◌, refl, sym, ap, ◌∙◌, arith,
  any, all, contains, distinct, distinct-append_one, contains-append, Bool-cases, inl, inr, ◌==◌,
  ==_refl, list_eq, nat_eq, option_eq,
}
use mathlib.Core.List.{append-nil, append_assoc, map-append}
use weather_app.Common.Text.{Text}
use weather_app.Schema.Weather.{WeatherAlert, WeatherSnapshot}
use weather_app.Engine.Weather.Merging.{
  same_alert, inherit, push_alerts, merge_parent_alerts, observed,
}

-- What two alerts are compared by.
abbrev pub alert_key : WeatherAlert → List (Option Text)
alert_key a =
    a.alert ∷ (a.province ∷ (a.city ∷ (a.issue_content ∷ (a.signal_type ∷ (a.signal_level ∷ [])))))

same_alert_lem : (a b : WeatherAlert) → same_alert a b ≡ (alert_key a == alert_key b)
unfolding same_alert
same_alert_lem a b = ground arith

any-same_alert :
    (alerts : List WeatherAlert) (a : WeatherAlert)
    → any (λ current. same_alert current a) alerts ≡ contains (map alert_key alerts) (alert_key a)
any-same_alert [] a = refl
any-same_alert (x ∷ alerts) a = rw (same_alert_lem x a, any-same_alert alerts a) refl

-- The alerts that the loop adds.
record Pushed (own parent out : List WeatherAlert) : Type 0 where
  added : List WeatherAlert
  after : out ≡ own ++ added
  inherited : all (λ a. a.inherited) added ≡ true
  once : distinct (map alert_key own) ≡ true → distinct (map alert_key out) ≡ true
  covers : all (λ a. contains (map alert_key out) (alert_key a)) parent ≡ true

last_contained : (b : Bool) (k : List (Option Text)) → (b || contains (k ∷ []) k) ≡ true
last_contained b k = ground (arith, ==_refl k)

contains-keys_append :
    (own added out : List WeatherAlert) (k : List (Option Text))
    → out ≡ own ++ added
    → contains (map alert_key own) k ≡ true
    → contains (map alert_key out) k ≡ true
contains-keys_append own added out k e h =
    ap (λ l. contains (map alert_key l) k) e
    ∙ ap (λ l. contains l k) (map-append alert_key own added)
    ∙ contains-append (map alert_key own) (map alert_key added) k
    ∙ ap (λ b. b || contains (map alert_key added) k) h

kept_known :
    (own parent : List WeatherAlert) (a : WeatherAlert) {out : List WeatherAlert}
    → any (λ current. same_alert current (inherit a)) own ≡ true
    → Pushed own parent out
    → Pushed own (a ∷ parent) out
kept_known own parent a {out} known r = record {
  added = r.added;
  after = r.after;
  inherited = r.inherited;
  once = r.once;
  covers =
      ap (λ b. b && all (λ a. contains (map alert_key out) (alert_key a)) parent)
        (contains-keys_append own r.added out (alert_key a) r.after
          (sym (any-same_alert own (inherit a)) ∙ known))
      ∙ r.covers;
}

kept_new :
    (own parent : List WeatherAlert) (a : WeatherAlert) {out : List WeatherAlert}
    → any (λ current. same_alert current (inherit a)) own ≡ false
    → Pushed (own ++ inherit a ∷ []) parent out
    → Pushed own (a ∷ parent) out
kept_new own parent a {out} new r =
    let keys_of = map-append alert_key own (inherit a ∷ []) in
    record {
      added = inherit a ∷ r.added;
      after = r.after ∙ append_assoc own (inherit a ∷ []) r.added;
      inherited = r.inherited;
      once = λ h. r.once (
          ap (λ l. distinct l) keys_of
          ∙ distinct-append_one (map alert_key own) (alert_key a) h
              (sym (any-same_alert own (inherit a)) ∙ new));
      covers =
          ap (λ b. b && all (λ a. contains (map alert_key out) (alert_key a)) parent)
            (contains-keys_append (own ++ inherit a ∷ []) r.added out (alert_key a) r.after (
              ap (λ l. contains l (alert_key a)) keys_of
              ∙ contains-append (map alert_key own) (alert_key a ∷ []) (alert_key a)
              ∙ last_contained (contains (map alert_key own) (alert_key a)) (alert_key a)))
          ∙ r.covers;
    }

push_alerts_lem : (own parent : List WeatherAlert) → Pushed own parent (push_alerts own parent)
unfolding push_alerts
push_alerts_lem own [] = record {
  added = [];
  after = sym (append-nil own);
  inherited = refl;
  once = λ h. h;
  covers = refl;
}
push_alerts_lem own (a ∷ parent) =
    elim (Bool-cases (any (λ current. same_alert current (inherit a)) own)) [
      | inl known ↦
          rw (known, push_alerts) (kept_known own parent a known (push_alerts_lem own parent))
      | inr new ↦
          rw (new, push_alerts)
            (kept_new own parent a new (push_alerts_lem (own ++ inherit a ∷ []) parent))
    ]

covered :
    (out parent : List WeatherAlert)
    → all (λ a. contains (map alert_key out) (alert_key a)) parent ≡ true
    → all (λ a. any (λ current. same_alert current a) out) parent ≡ true
covered out [] h = refl
covered out (a ∷ parent) h = ground (arith, any-same_alert out a, covered out parent, h)

-- The alerts of a snapshot.
abbrev pub alerts_of : {F : Type 0} → WeatherSnapshot F → List WeatherAlert
alerts_of snapshot = (observed snapshot.real).alerts

-- After a merge, the own alerts stand first and as they were; those added are marked as inherited; each
-- alert of the parent has one that it is the same as; and no two are the same if no two of the own
-- are.
pub merge_parent_alerts_lem :
    {F : Type 0} (snapshot : WeatherSnapshot F) (parent : List WeatherAlert)
    → let out = alerts_of (merge_parent_alerts snapshot parent) in
      (added : List WeatherAlert) × (out ≡ alerts_of snapshot ++ added)
      × (all (λ a. a.inherited) added ≡ true)
      × (all (λ a. any (λ current. same_alert current a) out) parent ≡ true)
      × (distinct (map alert_key (alerts_of snapshot)) ≡ true → distinct (map alert_key out) ≡ true)
unfolding merge_parent_alerts
merge_parent_alerts_lem snapshot [] = ([], sym (append-nil _), refl, refl, λ h. h)
merge_parent_alerts_lem snapshot (a ∷ parent) =
    let r = push_alerts_lem (observed snapshot.real).alerts (a ∷ parent) in
    (r.added, r.after, r.inherited, covered _ (a ∷ parent) r.covers, r.once)
