-- ===== src/Engine/Refresh/Invariant.antt =====
-- weather-core/engine/src/refresh.rs: what holds of the scheduler between two turns of its loop.
use weather_app.Config.{AppConfig}
use weather_app.Common.{
  true, not, ◌||◌, List, [], ◌∷◌, Option, none, some, ℕ, ◌+◌, ◌-◌, ◌≤◌, ◌≡◌, refl, sym, ap, ◌∙◌,
  inl, inr, arith, length, length-retain-le, contains, distinct, retain, All-retain, eqb, list_eq,
  nat_eq, Bool-cases,
}
use weather_app.Common.Map.{
  get, remove, values, keys-remove, contains-values-remove, remove_absent, contains-keys,
}
use weather_app.Common.Text.{Text}
use weather_app.Engine.Refresh.{
  StationSchedule, Schedules, schedule_date_refresh, claim_due_stations, max_concurrent_refreshes,
  enabled_stations, weather_ttl,
}
use weather_app.Engine.Refresh.Claim.{claim_due_stations-claimed}
use weather_app.Engine.Refresh.Loop.{
  Scheduler, Reading, Wake, Turn, cancelled, config_changed, config_closed, joined, slept, again,
  stopped, failed, spawn_jobs, dispatch_due, date_changed, note_date, prepare, apply_config, settle,
  join_job, wake, turn, start, run_turns,
}
use weather_app.Engine.Refresh.Jobs.{
  Jobs, spawn_jobs_lem, flying, flying-date_refresh_from, flying-reconcile, flying-finish_job,
  flying-claim,
}

-- At most four jobs run, their ids are distinct, and a schedule in flight has a running job of its
-- station.
pub record Inv (s : Scheduler) : Type 0 where
  pub bounded : length s.jobs ≤ max_concurrent_refreshes
  pub tables : Jobs s
  pub held : (n : Text) → flying (get n s.schedules) ≡ true → contains (values s.job_names) n ≡ true

get_empty : (n : Text) → get {V = StationSchedule} n [] ≡ none
unfolding get
get_empty n = refl

start-Inv : (config : AppConfig) (now : ℕ) (date : Option Text) → Inv (start config now date)
unfolding start
start-Inv config now date = record {
  bounded = omega arith;
  tables = record { named = refl; once = refl; given = tt };
  held = λ n h. ground (
    arith,
    flying-reconcile [] (enabled_stations config) now (weather_ttl config) n,
    get_empty n,
  );
}

note_date-Inv : (d : Option (Text × ℕ)) (now : ℕ) (s : Scheduler) → Inv s → Inv (note_date d now s)
unfolding note_date schedule_date_refresh
note_date-Inv none now s v = v
note_date-Inv (some (current, wait)) now s v = record {
  bounded = v.bounded;
  tables = record { named = v.tables.named; once = v.tables.once; given = v.tables.given };
  held = λ n h. v.held n (elim (Bool-cases (date_changed s.last_local_date current)) [
    | inl yes_changed ↦
        sym (flying-date_refresh_from now 0 s.station_order s.schedules n) ∙ (rw yes_changed at h)
    | inr unchanged ↦ rw unchanged at h
  ]);
}

dispatch_due-Inv : (s : Scheduler) (now : ℕ) → Inv s → Inv (dispatch_due s now)
unfolding dispatch_due
dispatch_due-Inv s now v = record {
  bounded = omega (arith, (after []).1, length_le, v.bounded);
  tables = (after []).0;
  held = λ n h. ground (
    arith,
    (after n).2,
    flying-claim s.station_order s.schedules now s.ttl available n
        (sym (ap (λ m. flying (get n m)) (after n).3) ∙ h),
    v.held n,
  );
}
  where
    available : ℕ
    available = max_concurrent_refreshes - length s.jobs

    claims : Schedules × List Text
    claims = claim_due_stations s.station_order s.schedules now s.ttl available

    length_le : length claims.1 ≤ max_concurrent_refreshes - length s.jobs
    length_le = (claim_due_stations-claimed s.station_order s.schedules now s.ttl available []).0

    after :
        (n : Text)
        → Jobs (spawn_jobs claims.1 (record s { schedules = claims.0 }))
          × (length (spawn_jobs claims.1 (record s { schedules = claims.0 })).jobs
              ≡ length s.jobs + length claims.1)
          × (contains (values (spawn_jobs claims.1 (record s { schedules = claims.0 })).job_names) n
              ≡ (contains (values s.job_names) n || contains claims.1 n))
          × ((spawn_jobs claims.1 (record s { schedules = claims.0 })).schedules ≡ claims.0)
    after n =
        spawn_jobs_lem claims.1 (record s { schedules = claims.0 }) n
          (record { named = v.tables.named; once = v.tables.once; given = v.tables.given })

apply_config-Inv :
    (config : AppConfig) (now : ℕ) (s : Scheduler) → Inv s → Inv (apply_config config now s)
unfolding apply_config
apply_config-Inv config now s v = record {
  bounded = v.bounded;
  tables = record { named = v.tables.named; once = v.tables.once; given = v.tables.given };
  held = λ n h. v.held n (
      ground
        (arith, flying-reconcile s.schedules (enabled_stations config) now (weather_ttl config) n));
}

contains-retain :
    (id j : ℕ) (l : List ℕ)
    → contains (retain (λ i. not (eqb i id)) l) j ≡ true
    → contains l j ≡ true
contains-retain id j [] h = cc
contains-retain id j (x ∷ l) h = ground (arith, contains-retain id j l)

distinct-retain :
    (id : ℕ) (l : List ℕ) → distinct l ≡ true → distinct (retain (λ i. not (eqb i id)) l) ≡ true
distinct-retain id [] h = refl
distinct-retain id (x ∷ l) h = ground (arith, distinct-retain id l, contains-retain id x l)

settle_held :
    (id at : ℕ) (s : Scheduler)
    → Inv s
    → (n : Text) (o : Option Text) → get id s.job_names ≡ o
    → flying (get n (settle o at s.ttl s.schedules)) ≡ true
    → contains (values (remove id s.job_names)) n ≡ true
unfolding settle
settle_held id at s v n none e h =
    rw (remove_absent id s.job_names (contains-keys id s.job_names ∙ rw e)) (v.held n h)
settle_held id at s v n (some name) e h =
    contains-values-remove id s.job_names name n (rw (v.tables.named) (v.tables.once)) e
      (ground (arith, flying-finish_job s.schedules name at s.ttl n))
      (v.held n (ground (arith, flying-finish_job s.schedules name at s.ttl n)))

join_job-Inv : (id at : ℕ) (s : Scheduler) → Inv s → Inv (join_job id at s)
unfolding join_job
join_job-Inv id at s v = record {
  bounded = omega (arith, v.bounded, length-retain-le (λ j. not (eqb j id)) s.jobs);
  tables = record {
    named = keys-remove id s.job_names ∙ ap (retain (λ j. not (eqb j id))) v.tables.named;
    once = distinct-retain id s.jobs v.tables.once;
    given = All-retain (λ i. not (eqb i id)) s.jobs (λ a _ h. h) v.tables.given;
  };
  held = λ n. settle_held id at s v n (get id s.job_names) refl;
}

-- What holds of a turn: the invariant, if the loop goes on.
abbrev pub Holds : Turn → Type 0
Holds (again s) = Inv s
Holds stopped = Unit
Holds failed = Unit

prepare-Inv : (r : Reading) (s : Scheduler) → Inv s → Inv (prepare r s).0
unfolding prepare
prepare-Inv r s v = dispatch_due-Inv _ r.now (note_date-Inv r.date r.now s v)

wake-Holds : (w : Wake) (s : Scheduler) → Inv s → Holds (wake w s)
unfolding wake
wake-Holds cancelled s v = tt
wake-Holds (config_changed config now) s v = apply_config-Inv config now s v
wake-Holds config_closed s v = tt
wake-Holds (joined id at) s v = join_job-Inv id at s v
wake-Holds slept s v = v

run_turns-Holds : (l : List (Reading × Wake)) (t : Turn) → Holds t → Holds (run_turns l t)
unfolding run_turns turn
run_turns-Holds [] t v = v
run_turns-Holds ((r, w) ∷ rest) stopped v = tt
run_turns-Holds ((r, w) ∷ rest) failed v = tt
run_turns-Holds ((r, w) ∷ rest) (again s) v =
    run_turns-Holds rest (wake w (prepare r s).0) (wake-Holds w (prepare r s).0 (prepare-Inv r s v))

-- From any configuration, after any turns of the loop, whatever the clocks read and whichever
-- branch each turn wakes by: at most four refresh jobs run, with distinct ids and a name for each,
-- and every schedule that is in flight has a running job of its station.
pub run_turns-Inv :
    (config : AppConfig) (now : ℕ) (date : Option Text) (l : List (Reading × Wake))
    → Holds (run_turns l (again (start config now date)))
run_turns-Inv config now date l = run_turns-Holds l _ (start-Inv config now date)
