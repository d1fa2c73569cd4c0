-- ===== src/Client/Pending/Actions.antt =====
-- weather-renderer/common/src/client/pending.rs: every action keeps the invariant of the registry.
use weather_app.Common.{
  true, false, not, List, [], ◌∷◌, ◌++◌, none, some, ℕ, ◌<◌, ◌≡◌, refl, sym, ap, ◌∙◌, inl, inr,
  arith, contains, distinct, distinct-append_one, All, All-map, All-retain, All-lt-suc,
  contains-fresh, eqb, list_eq, nat_eq, pair_eq, list_beq_iff, Bool-cases, Option-cases, ok, err,
}
use weather_app.Common.Map.{
  Map, get, insert, remove, values, contains_key, get-insert, contains-keys, values-insert_fresh,
  distinct-values-remove,
}
use weather_app.Common.Text.{Text}
use weather_app.Client.Pending.{
  Registry, collision, terminal_error, open_channel, enter, register, accepts, send, complete,
  send_all, fail_all, matches, remove_if_matches, drop_lease, World, Action, registers, completes,
  fails, drops, grant, act, acts,
}
use weather_app.Client.Pending.Served.{
  Inv, old-remove, fail_all-Served, complete-Served, enter-Served, drop-Served,
}

module _ {R F : Type 0} where
  register-terminal :
      (id : Text) (r : Registry R F) (f : F)
      → r.terminal ≡ some f
      → register id r ≡ (r, err (terminal_error f))
  unfolding register
  register-terminal id r f e = ground arith

  register-collision :
      (id : Text) (r : Registry R F)
      → r.terminal ≡ none
      → contains_key id r.entries ≡ true
      → register id r ≡ (r, err collision)
  unfolding register
  register-collision id r e h = ground arith

  register-fresh :
      (id : Text) (r : Registry R F)
      → r.terminal ≡ none
      → contains_key id r.entries ≡ false
      → register id r ≡ (enter id r, ok (id, r.next_marker))
  unfolding register
  register-fresh id r e h = ground arith

  enter-Inv :
      (id : Text) (w : World R F)
      → Inv w
      → w.registry.terminal ≡ none
      → contains_key id w.registry.entries ≡ false
      → Inv (record {
        registry = enter id w.registry;
        leases = (id, w.registry.next_marker) ∷ w.leases;
      })
  unfolding enter
  enter-Inv id w v e free = record {
    clear = λ f g. absurd (none_some f (sym e ∙ g));
    once = rw same (
        distinct-append_one (values r.entries) r.next_marker v.once
          (contains-fresh r.next_marker (values r.entries) v.old));
    old = rw same (All-lt-suc r.next_marker (values r.entries) v.old);
    held = (
      (
        omega arith,
        inl (
          get-insert id id r.next_marker r.entries ∙ ground (arith, list_beq_iff id id),
          get-insert r.next_marker r.next_marker open_channel r.channels ∙ ground arith,
        ),
      ),
      All-map w.leases (λ l h. (omega (arith, h.0), unfold enter in enter-Served id r l free h))
          v.held,
    );
  }
    where
      open w use {registry as r}

      none_some : (f : F) → none ≡ some f → ⊥
      none_some f g = cc

      same : values (insert id r.next_marker r.entries) ≡ values r.entries ++ r.next_marker ∷ []
      same = values-insert_fresh id r.next_marker r.entries (contains-keys id r.entries ∙ free)

  register-Inv : (id : Text) (w : World R F) → Inv w → Inv (act (registers id) w)
  unfolding act grant
  register-Inv id w v = elim (Option-cases w.registry.terminal) [
    | inr (f, e) ↦ rw (register-terminal id w.registry f e) v
    | inl e ↦ elim (Bool-cases (contains_key id w.registry.entries)) [
      | inl taken ↦ rw (register-collision id w.registry e taken) v
      | inr free ↦ rw (register-fresh id w.registry e free) (enter-Inv id w v e free)
    ]
  ]

  complete-missing :
      (id : Text) (response : R) (r : Registry R F)
      → get id r.entries ≡ none
      → complete id response r ≡ (r, false)
  unfolding complete
  complete-missing id response r e = rw (e, complete)

  -- The registry after `complete` found the marker `m`.
  abbrev completed : Text → R → ℕ → Registry R F → Registry R F
  completed id response m r = record r {
    entries = remove id r.entries;
    channels = send m (ok response) r.channels;
  }

  pub complete-found :
      (id : Text) (response : R) (r : Registry R F) (m : ℕ)
      → get id r.entries ≡ some m
      → complete id response r ≡ (completed id response m r, accepts (get m r.channels))
  unfolding complete
  complete-found id response r m e = rw (e, complete)

  complete-Inv :
      (id : Text) (response : R) (w : World R F) → Inv w → Inv (act (completes id response) w)
  unfolding act remove
  complete-Inv id response w v = elim (Option-cases (get id w.registry.entries)) [
    | inl e ↦ rw (complete-missing id response w.registry e) v
    | inr (m, e) ↦ rw (complete-found id response w.registry m e) (record {
      clear = λ f g. rw (v.clear f g, remove);
      once = distinct-values-remove id w.registry.entries v.once;
      old = old-remove w.registry.next_marker id w.registry.entries v.old;
      held =
          All-map w.leases (λ l h. (h.0, complete-Served id response w.registry m l v.once e h.1))
            v.held;
    })
  ]

  fail_all-terminal : (f g : F) (r : Registry R F) → r.terminal ≡ some g → fail_all f r ≡ (r, false)
  unfolding fail_all
  fail_all-terminal f g r e = ground arith

  -- The registry after the first `fail_all`.
  abbrev pub closed : F → Registry R F → Registry R F
  closed f r = record r {
    terminal = some f;
    entries = [];
    channels = send_all r.entries f r.channels;
  }

  fail_all-first :
      (f : F) (r : Registry R F) → r.terminal ≡ none → fail_all f r ≡ (closed f r, true)
  unfolding fail_all
  fail_all-first f r e = rw (e, fail_all)

  fail_all-Inv : (f : F) (w : World R F) → Inv w → Inv (act (fails f) w)
  unfolding act
  fail_all-Inv f w v = elim (Option-cases w.registry.terminal) [
    | inr (g, e) ↦ rw (fail_all-terminal f g w.registry e) v
    | inl e ↦ rw (fail_all-first f w.registry e) (record {
      clear = λ g h. refl;
      once = refl;
      old = tt;
      held =
          All-map w.leases
            (λ l h. (
              h.0,
              rw (ap (λ p. p.0) (fail_all-first f w.registry e)) at
                  (fail_all-Served f w.registry l v.once e h.1),
            ))
            v.held;
    })
  ]

  drop_lease-entries {ℓ} :
      (P : Map Text ℕ → Type ℓ) (id : Text) (marker : ℕ) (r : Registry R F)
      → P r.entries
      → P (remove id r.entries)
      → P (drop_lease (id, marker) r).entries
  unfolding drop_lease remove_if_matches
  drop_lease-entries P id marker r kept removed =
      elim (Bool-cases (matches (get id r.entries) marker)) [
        | inl hit ↦ rw hit removed
        | inr miss ↦ rw miss kept
      ]

  drop_lease-rest :
      (id : Text) (marker : ℕ) (r : Registry R F)
      → ((drop_lease (id, marker) r).terminal ≡ r.terminal)
        × ((drop_lease (id, marker) r).next_marker ≡ r.next_marker)
  unfolding drop_lease remove_if_matches
  drop_lease-rest id marker r = ground arith

  drop_lease-Inv :
      (id : Text) (marker : ℕ) (w : World R F) → Inv w → Inv (act (drops (id, marker)) w)
  unfolding act remove
  drop_lease-Inv id marker w v = elim (Bool-cases (contains w.leases (id, marker))) [
    | inr absent ↦ rw absent v
    | inl present ↦ rw present (record {
      clear = λ f e.
          let none_left = v.clear f (sym (drop_lease-rest id marker r).0 ∙ e) in
          drop_lease-entries (λ m. m ≡ []) id marker r none_left (rw (none_left, remove));
      once =
          drop_lease-entries (λ m. distinct (values m) ≡ true) id marker r v.once
            (distinct-values-remove id r.entries v.once);
      old = rw (drop_lease-rest id marker r).1 (
          drop_lease-entries (λ m. All (λ j. j < r.next_marker) (values m)) id marker r v.old
            (old-remove r.next_marker id r.entries v.old));
      held =
          All-retain (λ l. not (eqb l.1 marker)) w.leases
            (λ l other h. (
              rw (drop_lease-rest id marker r).1 h.0,
              drop-Served id marker r l (ground arith) h.1,
            ))
            v.held;
    })
  ]
    where
      open w use {registry as r}

  act-Inv : (a : Action R F) (w : World R F) → Inv w → Inv (act a w)
  act-Inv (registers id) w v = register-Inv id w v
  act-Inv (completes id response) w v = complete-Inv id response w v
  act-Inv (fails f) w v = fail_all-Inv f w v
  act-Inv (drops (id, marker)) w v = drop_lease-Inv id marker w v

  pub acts-Inv : (l : List (Action R F)) (w : World R F) → Inv w → Inv (acts l w)
  unfolding acts
  acts-Inv [] w v = v
  acts-Inv (a ∷ l) w v = acts-Inv l (act a w) (act-Inv a w v)
