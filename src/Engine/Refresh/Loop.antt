-- ===== src/Engine/Refresh/Loop.antt =====
-- weather-core/engine/src/refresh.rs: `dispatch_due` and the event loop `run_refresh_loop`. Each
-- turn of the loop reads the clocks and the configuration, and wakes by one branch of `select!`.
use weather_app.Config.{AppConfig}
use weather_app.Common.{
  Bool, false, not, List, [], ◌∷◌, ◌++◌, Option, none, some, ℕ, suc, ◌-◌, min, length,
  if◌then◌else◌, eqb, ◌==◌, list_eq, nat_eq, retain,
}
use weather_app.Common.Map.{Map, get, insert, remove}
use weather_app.Common.Text.{Text}
use weather_app.Engine.Refresh.{
  Schedules, enabled_stations, weather_ttl, reconcile_schedules, schedule_date_refresh,
  claim_due_stations, finish_job, next_scheduler_wait, max_concurrent_refreshes, fallback_wake,
}

-- The variables of the loop. `jobs` are the ids in the `JoinSet`, and `next_id` stands for the
-- runtime, which gives every task an id of its own.
pub record Scheduler : Type 0 where
  pub station_order : List Text
  pub ttl : ℕ
  pub schedules : Schedules
  pub last_local_date : Option Text
  pub jobs : List ℕ
  pub job_names : Map ℕ Text
  pub next_id : ℕ

-- The task of one station, entered in both tables.
unfoldable pub spawn_job : Text → Scheduler → Scheduler
spawn_job name s = record s {
  jobs = s.jobs ++ s.next_id ∷ [];
  job_names = insert s.next_id name s.job_names;
  next_id = suc s.next_id;
}

unfoldable pub spawn_jobs : List Text → Scheduler → Scheduler
spawn_jobs [] s = s
spawn_jobs (name ∷ claimed) s = spawn_jobs claimed (spawn_job name s)

unfoldable pub dispatch_due : Scheduler → ℕ → Scheduler
dispatch_due s now =
    let available = max_concurrent_refreshes - length s.jobs in
    let (schedules, claimed) = claim_due_stations s.station_order s.schedules now s.ttl available in
    spawn_jobs claimed (record s { schedules = schedules })

-- What a turn reads: the instant, and the local date with the time until it changes, where the
-- time zone gives one.
pub record Reading : Type 0 where
  pub now : ℕ
  pub date : Option (Text × ℕ)

unfoldable pub date_changed : Option Text → Text → Bool
date_changed none current = false
date_changed (some previous) current = not (previous == current)

unfoldable pub note_date : Option (Text × ℕ) → ℕ → Scheduler → Scheduler
note_date none now s = s
note_date (some (current, wait)) now s = record s {
  schedules =
      if date_changed s.last_local_date current
      then schedule_date_refresh s.schedules s.station_order now
      else s.schedules;
  last_local_date = some current;
}

abbrev pub date_wait : Option (Text × ℕ) → ℕ
date_wait none = fallback_wake
date_wait (some (current, wait)) = wait

-- From the top of the loop to `select!`: the state and the longest sleep.
unfoldable pub prepare : Reading → Scheduler → Scheduler × ℕ
prepare r s =
    let s' = dispatch_due (note_date r.date r.now s) r.now in
    (
      s',
      min (min (next_scheduler_wait s'.schedules r.now (length s'.jobs)) (date_wait r.date))
          fallback_wake,
    )

pub data Wake : Type 0 where
  cancelled : Wake
  config_changed : AppConfig → ℕ → Wake
  config_closed : Wake
  joined : ℕ → ℕ → Wake
  slept : Wake

pub data Turn : Type 0 where
  again : Scheduler → Turn
  stopped : Turn
  failed : Turn

unfoldable pub apply_config : AppConfig → ℕ → Scheduler → Scheduler
apply_config config now s = record s {
  station_order = enabled_stations config;
  ttl = weather_ttl config;
  schedules = reconcile_schedules s.schedules (enabled_stations config) now (weather_ttl config);
}

-- `finish_job` for the station of a job, where the table of names has the job.
unfoldable pub settle : Option Text → ℕ → ℕ → Schedules → Schedules
settle none completed_at ttl schedules = schedules
settle (some name) completed_at ttl schedules = finish_job schedules name completed_at ttl

unfoldable pub join_job : ℕ → ℕ → Scheduler → Scheduler
join_job id completed_at s = record s {
  jobs = retain (λ j. not (eqb j id)) s.jobs;
  job_names = remove id s.job_names;
  schedules = settle (get id s.job_names) completed_at s.ttl s.schedules;
}

unfoldable pub wake : Wake → Scheduler → Turn
wake cancelled s = stopped
wake (config_changed config now) s = again (apply_config config now s)
wake config_closed s = failed
wake (joined id completed_at) s = again (join_job id completed_at s)
wake slept s = again s

unfoldable pub turn : Reading → Wake → Scheduler → Turn
turn r w s = wake w (prepare r s).0

unfoldable pub start : AppConfig → ℕ → Option Text → Scheduler
start config now date = record {
  station_order = enabled_stations config;
  ttl = weather_ttl config;
  schedules = reconcile_schedules [] (enabled_stations config) now (weather_ttl config);
  last_local_date = date;
  jobs = [];
  job_names = [];
  next_id = 0;
}

unfoldable pub run_turns : List (Reading × Wake) → Turn → Turn
run_turns [] t = t
run_turns ((r, w) ∷ rest) stopped = stopped
run_turns ((r, w) ∷ rest) failed = failed
run_turns ((r, w) ∷ rest) (again s) = run_turns rest (turn r w s)
