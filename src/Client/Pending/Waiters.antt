-- ===== src/Client/Pending/Waiters.antt =====
-- weather-renderer/common/src/client/pending.rs: over any actions, each held lease is attended to.
use weather_app.Common.{
  true, false, List, [], none, some, ℕ, ◌≡◌, refl, ap, ◌∙◌, ◌⊎◌, inl, inr, arith, contains, All,
  All-map, All-contains, eqb, list_eq, nat_eq, pair_eq, list_beq_iff, Option-cases, ==_refl, Result,
  ok,
}
use weather_app.Common.Map.{get, modify, get-remove, get-modify, contains-values_of_get}
use weather_app.Common.Text.{Text}
use weather_app.Client.Pending.{
  Registry, Lease, new_registry, open_channel, deliver, accepts, send, complete, replied, found,
  receive, World, Action, acts,
}
use weather_app.Client.Pending.Served.{answered_channel, Held, Inv, deliver-open}
use weather_app.Client.Pending.Actions.{complete-found, acts-Inv}

module _ {R F : Type 0} where
  abbrev pub new_world : World R F
  new_world = record { registry = new_registry; leases = [] }

  pub new_world-Inv : Inv new_world
  new_world-Inv = record { clear = λ f e. refl; once = refl; old = tt; held = tt }

  -- The lease waits for a reply that its entry will bring, while no failure has closed the
  -- registry; or its reply is there.
  abbrev pub Attended : F → Registry R F → Lease → Type 0
  Attended background r (id, marker) =
      (receive background (id, marker) r ≡ none)
        × (get id r.entries ≡ some marker)
        × (r.terminal ≡ none)
      ⊎ ((v : Result R F) × (found (get marker r.channels) ≡ replied v)
          × (receive background (id, marker) r ≡ some v))

  Held-Attended :
      (background : F) (w : World R F) (l : Lease)
      → Inv w
      → Held w.registry l
      → Attended background w.registry l
  unfolding receive found get
  Held-Attended background w (id, marker) v (lt, inl (g, c)) = inl (
    ground arith,
    g,
    elim (Option-cases w.registry.terminal) [
      | inl e ↦ e
      | inr (f, e) ↦ ground (arith, v.clear f e, get_nothing)
    ],
  )
    where
      get_nothing : get {V = ℕ} id [] ≡ none
      get_nothing = refl
  Held-Attended background w (id, marker) v (lt, inr (value, out, c)) =
      inr (value, ground arith, ground arith)

  receive-open :
      (background : F) (r : Registry R F) (id : Text) (m : ℕ)
      → get m r.channels ≡ some open_channel
      → receive background (id, m) r ≡ none
  unfolding receive found
  receive-open background r id m e = ground arith

  receive-answered :
      (background : F) (r : Registry R F) (id : Text) (m : ℕ) (v : Result R F)
      → get m r.channels ≡ some (answered_channel v)
      → receive background (id, m) r ≡ some v
  unfolding receive found
  receive-answered background r id m v e = ground arith

  receive-channels :
      (background : F) (r r' : Registry R F) (id : Text) (m : ℕ)
      → get m r.channels ≡ get m r'.channels
      → r.terminal ≡ r'.terminal
      → receive background (id, m) r ≡ receive background (id, m) r'
  unfolding receive
  receive-channels background r r' id m e t = cc

  -- After any actions: a response for a request whose lease is held and waits reaches that lease
  -- and no other. `complete` says that it was taken, the lease receives it, its entry is gone, and
  -- every lease with another marker receives what it would have received.
  pub complete-receive :
      (background : F) (l : List (Action R F)) (id : Text) (m : ℕ) (response : R)
      → contains (acts l new_world).leases (id, m) ≡ true
      → get id (acts l new_world).registry.entries ≡ some m
      → let r = (acts l new_world).registry in
        let (r', taken) = complete id response r in
        (taken ≡ true)
        × (receive background (id, m) r' ≡ some (ok response))
        × (get id r'.entries ≡ none)
        × ((l' : Lease) → eqb m l'.1 ≡ false → receive background l' r' ≡ receive background l' r)
  unfolding send accepts
  complete-receive background l id m response held e = rw (complete-found id response r m e) (
    rw opened refl,
    receive-answered background _ id m (ok response) answers,
    get-remove id id r.entries ∙ ground (arith, list_beq_iff id id),
    λ l' ne.
        receive-channels background _ r l'.0 l'.1
          (get-modify l'.1 m (deliver (ok response)) r.channels ∙ rw ne) refl,
  )
    where
      open acts l new_world use {registry as r}

      v : Inv (acts l new_world)
      v = acts-Inv l new_world new_world-Inv

      opened : get m r.channels ≡ some open_channel
      opened = elim (All-contains (Held r) (acts l new_world).leases (id, m) v.held held).1 [
        | inl (g, c) ↦ c
        | inr (value, out, c) ↦ ground (arith, contains-values_of_get id r.entries m)
      ]

      answers :
          get m (modify m (deliver (ok response)) r.channels)
          ≡ some (answered_channel (ok response))
      answers =
          get-modify m m (deliver (ok response)) r.channels
          ∙ rw opened (rw (==_refl m) (ap some (deliver-open (ok response))))

  -- After any sequence of registrations, responses, failures and dropped leases, each lease that is
  -- still held waits with its own entry in an open registry, or has a reply to receive: no `receive`
  -- ever falls back on a sender that was dropped.
  pub acts-Attended :
      (background : F) (l : List (Action R F))
      → All (Attended background (acts l new_world).registry) (acts l new_world).leases
  acts-Attended background l =
      let v = acts-Inv l new_world new_world-Inv in
      All-map (acts l new_world).leases (λ lease h. Held-Attended background _ lease v h) v.held
