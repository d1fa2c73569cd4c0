-- ===== src/Engine/Refresh/Jobs.antt =====
-- weather-core/engine/src/refresh.rs: the table of running jobs, and the stations that are being refreshed.
use weather_app.Common.{
  Bool, true, false, not, ◌&&◌, ◌||◌, List, [], ◌∷◌, ◌++◌, Option, none, some, ℕ, suc, ◌+◌, ◌<◌,
  ◌≡◌, refl, ap, ◌∙◌, inl, inr, arith, length, length-append, contains, contains-append, position,
  distinct, distinct-append_one, All, All-lt-suc, contains-fresh, ◌==◌, list_eq, nat_eq,
  list_beq_iff, Option-cases,
}
use weather_app.Common.Map.{get, keys, values, get-insert, keys-insert_fresh, values-insert_fresh}
use weather_app.Common.Text.{Text}
use weather_app.Engine.Refresh.{
  StationSchedule, Schedules, reconcile_schedules, finish_job, finished, claim_due_stations,
  reconciled, rescheduled, new_schedule, date_scheduled, date_refresh_one, date_refresh_from,
}
use weather_app.Engine.Refresh.Claim.{claim_due_stations-claimed}
use weather_app.Engine.Refresh.Reconcile.{get-reconcile_schedules}
use weather_app.Engine.Refresh.Dates.{get-date_refresh_one}
use weather_app.Engine.Refresh.Loop.{Scheduler, spawn_job, spawn_jobs}

-- Ids are distinct and already given out, and the two tables of jobs agree.
pub record Jobs (s : Scheduler) : Type 0 where
  pub named : keys s.job_names ≡ s.jobs
  pub once : distinct s.jobs ≡ true
  pub given : All (λ j. j < s.next_id) s.jobs

not_named : (s : Scheduler) → Jobs s → contains (keys s.job_names) s.next_id ≡ false
not_named s v = rw (v.named) (contains-fresh s.next_id s.jobs v.given)

spawn_job-Jobs : (name : Text) (s : Scheduler) → Jobs s → Jobs (spawn_job name s)
unfolding spawn_job
spawn_job-Jobs name s v = record {
  named =
      keys-insert_fresh s.next_id name s.job_names (not_named s v)
      ∙ ap (λ l. l ++ s.next_id ∷ []) v.named;
  once = distinct-append_one s.jobs s.next_id v.once (contains-fresh s.next_id s.jobs v.given);
  given = All-lt-suc s.next_id s.jobs v.given;
}

pub spawn_jobs_lem :
    (claimed : List Text) (s : Scheduler) (n : Text)
    → Jobs s
    → Jobs (spawn_jobs claimed s)
      × (length (spawn_jobs claimed s).jobs ≡ length s.jobs + length claimed)
      × (contains (values (spawn_jobs claimed s).job_names) n
          ≡ (contains (values s.job_names) n || contains claimed n))
      × ((spawn_jobs claimed s).schedules ≡ s.schedules)
unfolding spawn_jobs spawn_job
spawn_jobs_lem [] s n v = (v, omega arith, ground arith, refl)
spawn_jobs_lem (name ∷ claimed) s n v =
    let (v', len, names, same) =
      spawn_jobs_lem claimed (spawn_job name s) n (spawn_job-Jobs name s v) in
    (
      v',
      omega (arith, len, length-append s.jobs (s.next_id ∷ [])),
      ground (
        arith,
        names,
        ap (λ l. contains l n) (values-insert_fresh s.next_id name s.job_names (not_named s v)),
        contains-append (values s.job_names) (name ∷ []) n,
      ),
      same,
    )

-- Whether there is a schedule and it is in flight.
abbrev pub flying : Option StationSchedule → Bool
flying none = false
flying (some s) = s.in_flight

flying-date_scheduled :
    (now i : ℕ) (s : StationSchedule) → (date_scheduled now i s).in_flight ≡ s.in_flight
unfolding date_scheduled
flying-date_scheduled now i s = ground arith

pub flying-date_refresh_from :
    (now i : ℕ) (order : List Text) (m : Schedules) (n : Text)
    → flying (get n (date_refresh_from now i order m)) ≡ flying (get n m)
unfolding date_refresh_from
flying-date_refresh_from now i [] m n = refl
flying-date_refresh_from now i (name ∷ rest) m n =
    flying-date_refresh_from now (suc i) rest (date_refresh_one now i name m) n ∙ one
  where
    one : flying (get n (date_refresh_one now i name m)) ≡ flying (get n m)
    one = ap flying (get-date_refresh_one now n i name m) ∙ elim (Option-cases (get n m)) [
      | inl e ↦ rw e (ground arith)
      | inr (s, e) ↦ rw e (ground (arith, flying-date_scheduled now i s))
    ]

flying-rescheduled : (ttl : ℕ) (s : StationSchedule) → (rescheduled ttl s).in_flight ≡ s.in_flight
unfolding rescheduled
flying-rescheduled ttl s = ground arith

flying-reconciled :
    (now ttl i : ℕ) (o : Option StationSchedule) → (reconciled now ttl i o).in_flight ≡ flying o
unfolding reconciled new_schedule
flying-reconciled now ttl i none = refl
flying-reconciled now ttl i (some s) = flying-rescheduled ttl s

pub flying-reconcile :
    (m : Schedules) (order : List Text) (now ttl : ℕ) (n : Text)
    → flying (get n (reconcile_schedules m order now ttl)) ≡ (contains order n && flying (get n m))
flying-reconcile m order now ttl n = ground (
  arith,
  get-reconcile_schedules m order now ttl n,
  flying-reconciled now ttl (position order n) (get n m),
)

pub flying-finish_job :
    (m : Schedules) (name : Text) (at ttl : ℕ) (n : Text)
    → flying (get n (finish_job m name at ttl)) ≡ (not (name == n) && flying (get n m))
unfolding finish_job finished
flying-finish_job m name at ttl n = elim (Option-cases (get name m)) [
  | inl e ↦ rw (e, finish_job) (ground (arith, list_beq_iff name n))
  | inr (s, e) ↦ rw (e, finish_job) (rw get-insert (ground (arith, list_beq_iff name n)))
]

pub flying-claim :
    (order : List Text) (m : Schedules) (now ttl available : ℕ) (n : Text)
    → flying (get n (claim_due_stations order m now ttl available).0) ≡ true
    → (contains (claim_due_stations order m now ttl available).1 n || flying (get n m)) ≡ true
flying-claim order m now ttl available n h =
    ground (arith, (claim_due_stations-claimed order m now ttl available n).2)
