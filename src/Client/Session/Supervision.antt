-- ===== src/Client/Session/Supervision.antt =====
-- weather-renderer/common/src/client/session.rs: what every step of a session keeps.
use weather_app.Common.{
  Bool, true, false, List, [], ◌∷◌, ◌++◌, some, ℕ, zero, suc, ◌-◌, ◌≡◌, inl, inr, refl, sym, ap,
  ◌∙◌, arith, Option-cases, if◌then◌else◌, is_some,
}
use weather_app.Client.Pending.{
  register, World, Action, registers, completes, fails, drops, act, acts, grant, fail_all, complete,
  drop_lease, remove_if_matches,
}
use weather_app.Client.Pending.Waiters.{new_world}
use weather_app.Client.Session.{
  ClientFailure, Session, Step, uses, closes, sees_shutdown, joins_task, drains_task, finishes,
  aborts, Phase, supervising, draining, ended, new_session, fail, request_close, stop,
  complete_session, see_shutdown, join_task, drain_task, finish, abort, step, steps,
}

abbrev is_supervising : Phase → Bool
is_supervising supervising = true
is_supervising draining = false
is_supervising ended = false

abbrev pub is_ended : Phase → Bool
is_ended supervising = false
is_ended draining = false
is_ended ended = true

pub one_less : (n : ℕ) → n ≡ suc n - 1
one_less n = omega arith

pub left_of_ended : (p : Phase) → is_ended p ≡ true → is_supervising p ≡ false
left_of_ended supervising h = cc
left_of_ended draining h = refl
left_of_ended ended h = refl

module _ {R : Type 0} where
  -- A failure that closed the registry stays.
  pub act-terminal :
      (a : Action R ClientFailure) (w : World R ClientFailure) (f : ClientFailure)
      → w.registry.terminal ≡ some f
      → (act a w).registry.terminal ≡ some f
  unfolding act register grant complete fail_all drop_lease remove_if_matches
  act-terminal (registers id) w f h = ground (arith, h)
  act-terminal (completes id response) w f h = ground (arith, h)
  act-terminal (fails failure) w f h = ground (arith, h)
  act-terminal (drops (id, m)) w f h = ground (arith, h)

  fail-terminal :
      (failure : ClientFailure) (w : World R ClientFailure)
      → is_some (fail failure w).registry.terminal ≡ true
  unfolding act fail_all
  fail-terminal failure w = ground arith

  -- The registry is one that actions lead to; it is closed once a shutdown was asked for or the
  -- supervisor left its `select!`; the session is done when the supervisor has ended.
  pub record Inv (s : Session R) : Type 0 where
    pub reached : (l : List (Action R ClientFailure)) × (s.pending ≡ acts l new_world)
    pub shut : s.shutdown ≡ true → is_some s.pending.registry.terminal ≡ true
    pub left : is_supervising s.phase ≡ false → is_some s.pending.registry.terminal ≡ true
    pub over : s.done ≡ is_ended s.phase

  acts-snoc :
      (l : List (Action R ClientFailure)) (a : Action R ClientFailure) (w : World R ClientFailure)
      → acts (l ++ a ∷ []) w ≡ act a (acts l w)
  unfolding acts
  acts-snoc [] a w = refl
  acts-snoc (b ∷ l) a w = acts-snoc l a (act b w)

  reach :
      (a : Action R ClientFailure) (w : World R ClientFailure)
      → (l : List (Action R ClientFailure)) × (w ≡ acts l new_world)
      → (l : List (Action R ClientFailure)) × (act a w ≡ acts l new_world)
  reach a w (l, e) = (l ++ a ∷ [], ap (act a) e ∙ sym (acts-snoc l a new_world))

  act-is_some :
      (a : Action R ClientFailure) (w : World R ClientFailure)
      → is_some w.registry.terminal ≡ true
      → is_some (act a w).registry.terminal ≡ true
  act-is_some a w h = elim (Option-cases w.registry.terminal) [
    | inl nothing ↦ absurd (ground (arith, h, nothing))
    | inr (f, e) ↦ ap is_some (act-terminal a w f e)
  ]

  if_Inv : (b : Bool) (s s' : Session R) → Inv s → Inv s' → Inv (if b then s else s')
  if_Inv true s s' v v' = v
  if_Inv false s s' v v' = v'

  stop-Inv :
      (failure : ClientFailure) (tasks : ℕ) (s : Session R)
      → Inv s
      → s.done ≡ false
      → Inv (stop failure tasks s)
  unfolding stop
  stop-Inv failure tasks s v open_session = record {
    reached = reach (fails failure) s.pending v.reached;
    shut = λ h. fail-terminal failure s.pending;
    left = λ h. fail-terminal failure s.pending;
    over = open_session;
  }

  complete-Inv : (s : Session R) → Inv s → Inv (complete_session s)
  unfolding complete_session
  complete-Inv s v = record {
    reached = reach (fails _) s.pending v.reached;
    shut = λ h. fail-terminal _ s.pending;
    left = λ h. fail-terminal _ s.pending;
    over = refl;
  }

  step-Inv : (a : Step R) (s : Session R) → Inv s → Inv (step a s)
  unfolding step request_close see_shutdown join_task drain_task finish abort
  step-Inv (uses action) s v = record {
    reached = reach action s.pending v.reached;
    shut = λ h. act-is_some action s.pending (v.shut h);
    left = λ h. act-is_some action s.pending (v.left h);
    over = v.over;
  }
  step-Inv closes s v = record {
    reached = reach (fails _) s.pending v.reached;
    shut = λ h. fail-terminal _ s.pending;
    left = λ h. fail-terminal _ s.pending;
    over = v.over;
  }
  step-Inv sees_shutdown s v = seen s.phase refl
    where
      seen : (p : Phase) → s.phase ≡ p → Inv (see_shutdown p s)
      seen supervising e =
          if_Inv s.shutdown (stop _ s.tasks s) s (stop-Inv _ s.tasks s v (v.over ∙ ap is_ended e)) v
      seen draining e = v
      seen ended e = v
  step-Inv (joins_task joined) s v = joined_task s.phase refl
    where
      joined_task : (p : Phase) → s.phase ≡ p → Inv (join_task p joined s)
      joined_task supervising e = stop-Inv _ _ s v (v.over ∙ ap is_ended e)
      joined_task draining e = v
      joined_task ended e = v
  step-Inv drains_task s v = drained s.phase
    where
      drained : (p : Phase) → Inv (drain_task p s)
      drained supervising = v
      drained draining = record { reached = v.reached; shut = v.shut; left = v.left; over = v.over }
      drained ended = v
  step-Inv finishes s v = finished s.phase s.tasks
    where
      finished : (p : Phase) (n : ℕ) → Inv (finish p n s)
      finished supervising n = v
      finished draining zero = complete-Inv s v
      finished draining (suc n) = v
      finished ended n = v
  step-Inv aborts s v = aborted s.phase
    where
      aborted : (p : Phase) → Inv (abort p s)
      aborted supervising = complete-Inv s v
      aborted draining = complete-Inv s v
      aborted ended = v

  pub new_session-Inv : Inv new_session
  unfolding acts
  new_session-Inv = record { reached = ([], refl); shut = λ h. cc; left = λ h. cc; over = refl }

  pub steps-Inv : (l : List (Step R)) (s : Session R) → Inv s → Inv (steps l s)
  unfolding steps
  steps-Inv [] s v = v
  steps-Inv (a ∷ rest) s v = steps-Inv rest (step a s) (step-Inv a s v)
