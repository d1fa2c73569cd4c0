-- ===== src/Client/Session/Ending.antt =====
-- weather-renderer/common/src/client/session.rs: how a session ends.
use weather_app.Common.{
  true, List, [], ◌∷◌, some, ℕ, zero, suc, ◌≡◌, ◌⊎◌, inl, inr, refl, sym, ap, ◌∙◌, subst,
  Bool-cases, Option-cases, none-ne-some, false≢true, if_true, if_false, err, All, is_some, All-map,
}
use weather_app.Common.Text.{Text}
use weather_app.Client.Pending.{
  Registry, terminal_error, register, World, Action, fails, act, receive, Lease,
}
use weather_app.Client.Pending.Waiters.{Attended, acts-Attended}
use weather_app.Client.Session.{
  ClientFailure, Session, Step, uses, closes, sees_shutdown, joins_task, drains_task, finishes,
  aborts, Phase, supervising, draining, ended, new_session, request_close, stop, complete_session,
  see_shutdown, join_task, drain_task, finish, abort, step, steps, Joined,
}
use weather_app.Client.Session.Supervision.{
  is_ended, one_less, left_of_ended, act-terminal, new_session-Inv, steps-Inv,
}

module _ {R : Type 0} where
  register-closed :
      (id : Text) (r : Registry R ClientFailure) (f : ClientFailure)
      → r.terminal ≡ some f
      → (register id r).1 ≡ err (terminal_error f)
  unfolding register
  register-closed id r f h = rw (h, register) refl

  -- What a step does with the registry: one action, or nothing.
  abbrev Acts : Session R → Session R → Type 0
  Acts s s' =
      (s'.pending ≡ s.pending) ⊎ ((a : Action R ClientFailure) × (s'.pending ≡ act a s.pending))

  see_shutdown-Acts : (p : Phase) (s : Session R) → Acts s (see_shutdown p s)
  unfolding see_shutdown stop
  see_shutdown-Acts supervising s = elim (Bool-cases s.shutdown) [
    | inl asked ↦ inr (fails _, ap (λ (x : Session R). x.pending) (if_true _ _ asked))
    | inr quiet ↦ inl (ap (λ (x : Session R). x.pending) (if_false _ _ quiet))
  ]
  see_shutdown-Acts draining s = inl refl
  see_shutdown-Acts ended s = inl refl

  join_task-Acts : (p : Phase) (joined : Joined) (s : Session R) → Acts s (join_task p joined s)
  unfolding join_task stop
  join_task-Acts supervising joined s = inr (fails _, refl)
  join_task-Acts draining joined s = inl refl
  join_task-Acts ended joined s = inl refl

  drain_task-Acts : (p : Phase) (s : Session R) → Acts s (drain_task p s)
  unfolding drain_task
  drain_task-Acts supervising s = inl refl
  drain_task-Acts draining s = inl refl
  drain_task-Acts ended s = inl refl

  finish-Acts : (p : Phase) (n : ℕ) (s : Session R) → Acts s (finish p n s)
  unfolding finish complete_session
  finish-Acts supervising n s = inl refl
  finish-Acts draining zero s = inr (fails _, refl)
  finish-Acts draining (suc n) s = inl refl
  finish-Acts ended n s = inl refl

  abort-Acts : (p : Phase) (s : Session R) → Acts s (abort p s)
  unfolding abort complete_session
  abort-Acts supervising s = inr (fails _, refl)
  abort-Acts draining s = inr (fails _, refl)
  abort-Acts ended s = inl refl

  step-Acts : (a : Step R) (s : Session R) → Acts s (step a s)
  unfolding step request_close stop complete_session
  step-Acts (uses action) s = inr (action, refl)
  step-Acts closes s = inr (fails _, refl)
  step-Acts sees_shutdown s = see_shutdown-Acts s.phase s
  step-Acts (joins_task joined) s = join_task-Acts s.phase joined s
  step-Acts drains_task s = drain_task-Acts s.phase s
  step-Acts finishes s = finish-Acts s.phase s.tasks s
  step-Acts aborts s = abort-Acts s.phase s

  step-terminal :
      (a : Step R) (s : Session R) (f : ClientFailure)
      → s.pending.registry.terminal ≡ some f
      → (step a s).pending.registry.terminal ≡ some f
  step-terminal a s f h = elim (step-Acts a s) [
    | inl same ↦ ap (λ (w : World R ClientFailure). w.registry.terminal) same ∙ h
    | inr (action, e) ↦
        ap (λ (w : World R ClientFailure). w.registry.terminal) e
        ∙ act-terminal action s.pending f h
  ]

  -- A failure that closed the registry stays through the steps that follow.
  steps-terminal :
      (l : List (Step R)) (s : Session R) (f : ClientFailure)
      → s.pending.registry.terminal ≡ some f
      → (steps l s).pending.registry.terminal ≡ some f
  unfolding steps
  steps-terminal [] s f h = h
  steps-terminal (a ∷ rest) s f h = steps-terminal rest (step a s) f (step-terminal a s f h)

  Attended-answered :
      (background : ClientFailure) (r : Registry R ClientFailure) (f : ClientFailure) (l : Lease)
      → r.terminal ≡ some f
      → Attended background r l
      → is_some (receive background l r) ≡ true
  Attended-answered background r f (id, m) h (inl (waits, entry, open_registry)) =
      absurd (none-ne-some _ (sym open_registry ∙ h))
  Attended-answered background r f (id, m) h (inr (v, found, e)) = ap is_some e

  -- A session that is done, after any steps: a failure has closed its registry and stays whatever
  -- steps follow, every request that is held has a reply or a failure to receive, and every new
  -- request is refused with the failure.
  pub done_session :
      (l : List (Step R)) (background : ClientFailure)
      → (steps l new_session).done ≡ true
      → (f : ClientFailure) × ((later : List (Step R))
          → (steps later (steps l new_session)).pending.registry.terminal ≡ some f)
        × All
            (λ lease.
              is_some (receive background lease (steps l new_session).pending.registry) ≡ true)
            (steps l new_session).pending.leases
        × ((id : Text)
            → (register id (steps l new_session).pending.registry).1 ≡ err (terminal_error f))
  done_session l background done =
      let s = steps l new_session in
      let v = steps-Inv l new_session new_session-Inv in
      elim (Option-cases s.pending.registry.terminal) [
        | inl open_registry ↦ absurd (
            false≢true
              (sym (ap is_some open_registry) ∙ v.left (left_of_ended s.phase (sym v.over ∙ done))))
        | inr (f, e) ↦ (
          f,
          λ later. steps-terminal later s f e,
          All-map s.pending.leases
              (λ lease attended. Attended-answered background s.pending.registry f lease e attended)
              (subst (λ w. All (Attended background w.registry) w.leases) (sym v.reached.1)
                (acts-Attended background v.reached.0)),
          λ id. register-closed id s.pending.registry f e,
        )
      ]

  -- The aborted tasks end one by one, and the supervisor after them.
  abbrev pub drains : ℕ → List (Step R)
  drains zero = finishes ∷ []
  drains (suc n) = drains_task ∷ drains n

  drains-done :
      (n : ℕ) (s : Session R)
      → (steps (drains n) (record s { phase = draining; tasks = n })).done ≡ true
  unfolding steps step finish complete_session drain_task
  drains-done zero s = refl
  drains-done (suc n) s =
      subst (λ m. (steps (drains n) (record s { phase = draining; tasks = m })).done ≡ true)
        (one_less n) (drains-done n s)

  drains-ended :
      (n : ℕ) (s : Session R)
      → steps (drains n) (record s { phase = ended }) ≡ record s { phase = ended }
  unfolding steps step finish drain_task
  drains-ended zero s = refl
  drains-ended (suc n) s = drains-ended n s

  closing :
      (p : Phase) (s : Session R)
      → s.phase ≡ p
      → s.done ≡ is_ended p
      → (steps (drains s.tasks) (see_shutdown p (request_close s))).done ≡ true
  unfolding see_shutdown request_close stop
  closing supervising s e d = drains-done s.tasks (stop _ s.tasks (request_close s))
  closing draining s e d =
      subst (λ p. (steps (drains s.tasks) (record (request_close s) { phase = p })).done ≡ true)
        (sym e) (drains-done s.tasks (request_close s))
  closing ended s e d =
      subst (λ p. (steps (drains s.tasks) (record (request_close s) { phase = p })).done ≡ true)
        (sym e) (ap (λ (x : Session R). x.done) (drains-ended s.tasks (request_close s)) ∙ d)

  -- A request to close lets the session come to its end from wherever it is, within as many steps as
  -- it has tasks, and two more.
  pub close-done :
      (l : List (Step R))
      → let s = steps l new_session in
        (steps (closes ∷ sees_shutdown ∷ drains s.tasks) s).done ≡ true
  unfolding steps step request_close
  close-done l =
      let s = steps l new_session in
      let v = steps-Inv l new_session new_session-Inv in closing s.phase s refl v.over
