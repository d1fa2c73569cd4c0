-- ===== src/Client/Pending/Served.antt =====
-- weather-renderer/common/src/client/pending.rs: no held lease is left without a reply to come.
use weather_app.Common.{
  true, false, [], ◌∷◌, none, some, ℕ, ◌<◌, ◌≡◌, refl, ap, ◌∙◌, ◌⊎◌, inl, inr, arith, contains,
  contains-append, distinct, All, eqb, ◌==◌, list_eq, nat_eq, pair_eq, list_beq_iff, Bool-cases,
  Result, ok, err,
}
use weather_app.Common.Map.{
  Map, get, remove, values, contains_key, get-insert, get-remove, get-modify, contains-keys,
  values-insert_fresh, contains-values_of_get, values-remove-sub, values-remove_own, key_unique,
}
use weather_app.Common.Text.{Text}
use weather_app.Client.Pending.{
  Channel, Registry, Lease, open_channel, enter, deliver, send, send_all, fail_all, drop_sender,
  drop_receiver, matches, remove_if_matches, drop_lease, World,
}

pub old-remove :
    (k : ℕ) (id : Text) (m : Map Text ℕ)
    → All (λ j. j < k) (values m)
    → All (λ j. j < k) (values (remove id m))
unfolding remove
old-remove k id [] h = tt
old-remove k id ((j, x) ∷ m) h = ground (arith, old-remove k id m)

module _ {R F : Type 0} where
  abbrev pub answered_channel : Result R F → Channel R F
  answered_channel v = record { reply = some v; sender_held = false; receiver_held = true }

  -- The lease's entry stands in the table and its channel is open, or its reply was sent.
  abbrev pub Served : Registry R F → Lease → Type 0
  Served r (id, marker) =
      (get id r.entries ≡ some marker) × (get marker r.channels ≡ some open_channel)
      ⊎ ((v : Result R F) × (contains (values r.entries) marker ≡ false)
          × (get marker r.channels ≡ some (answered_channel v)))

  abbrev pub Held : Registry R F → Lease → Type 0
  Held r l = (l.1 < r.next_marker) × Served r l

  pub record Inv (w : World R F) : Type 0 where
    pub clear : (f : F) → w.registry.terminal ≡ some f → w.registry.entries ≡ []
    pub once : distinct (values w.registry.entries) ≡ true
    pub old : All (λ m. m < w.registry.next_marker) (values w.registry.entries)
    pub held : All (Held w.registry) w.leases

  pub send_all-other :
      (f : F) (entries : Map Text ℕ) (channels : Map ℕ (Channel R F)) (marker : ℕ)
      → contains (values entries) marker ≡ false
      → get marker (send_all entries f channels) ≡ get marker channels
  unfolding send_all send
  send_all-other f [] channels marker h = refl
  send_all-other f ((id, m) ∷ entries) channels marker h =
      send_all-other f entries _ marker (ground arith)
      ∙ ground (arith, get-modify marker m (deliver (err f)) channels)

  pub deliver-open : (v : Result R F) → deliver v open_channel ≡ answered_channel v
  unfolding deliver
  deliver-open v = refl

  pub send_all-hit :
      (f : F) (entries : Map Text ℕ) (channels : Map ℕ (Channel R F)) (marker : ℕ)
      → distinct (values entries) ≡ true
      → contains (values entries) marker ≡ true
      → get marker channels ≡ some open_channel
      → get marker (send_all entries f channels) ≡ some (answered_channel (err f))
  unfolding send_all send
  send_all-hit f [] channels marker d h g = cc
  send_all-hit f ((id, m) ∷ entries) channels marker d h g = elim (Bool-cases (eqb m marker)) [
    | inl hit ↦
        send_all-other f entries _ marker (ground arith)
        ∙ get-modify marker m (deliver (err f)) channels
        ∙ rw hit (rw g (ap some (deliver-open (err f))))
    | inr miss ↦
        send_all-hit f entries _ marker (ground arith) (ground arith)
          (get-modify marker m (deliver (err f)) channels ∙ rw miss g)
  ]

  pub fail_all-Served :
      (f : F) (r : Registry R F) (l : Lease)
      → distinct (values r.entries) ≡ true
      → r.terminal ≡ none
      → Served r l
      → Served (fail_all f r).0 l
  unfolding fail_all
  fail_all-Served f r (id, marker) d t (inl (g, c)) =
      rw (t, fail_all)
        (inr (
          err f,
          refl,
          send_all-hit f r.entries r.channels marker d
              (contains-values_of_get id r.entries marker g) c,
        ))
  fail_all-Served f r (id, marker) d t (inr (v, out, c)) =
      rw (t, fail_all) (inr (v, refl, send_all-other f r.entries r.channels marker out ∙ c))

  pub complete-Served :
      (id' : Text) (response : R) (r : Registry R F) (m' : ℕ) (l : Lease)
      → distinct (values r.entries) ≡ true
      → get id' r.entries ≡ some m'
      → Served r l
      → Served
          (record r { entries = remove id' r.entries; channels = send m' (ok response) r.channels })
          l
  unfolding send
  complete-Served id' response r m' (id, marker) d g' (inl (g, c)) = elim (Bool-cases (id' == id)) [
    | inl hit ↦ inr (
      ok response,
      values-remove_own id' r.entries marker d (ground (arith, list_beq_iff id' id)),
      get-modify marker m' (deliver (ok response)) r.channels
          ∙ ground (arith, list_beq_iff id' id, deliver-open (ok response)),
    )
    | inr miss ↦ inl (
      get-remove id id' r.entries ∙ rw miss g,
      get-modify marker m' (deliver (ok response)) r.channels
          ∙ ground (arith, key_unique id' id r.entries marker d),
    )
  ]
  complete-Served id' response r m' (id, marker) d g' (inr (v, out, c)) = inr (
    v,
    values-remove-sub id' r.entries marker out,
    get-modify marker m' (deliver (ok response)) r.channels
        ∙ ground (arith, contains-values_of_get id' r.entries m'),
  )

  pub enter-Served :
      (id' : Text) (r : Registry R F) (l : Lease)
      → contains_key id' r.entries ≡ false
      → Held r l
      → Served (enter id' r) l
  unfolding enter
  enter-Served id' r (id, marker) free (lt, inl (g, c)) = inl (
    get-insert id id' r.next_marker r.entries ∙ ground (arith, list_beq_iff id' id),
    get-insert marker r.next_marker open_channel r.channels ∙ ground arith,
  )
  enter-Served id' r (id, marker) free (lt, inr (v, out, c)) = inr (
    v,
    rw (values-insert_fresh id' r.next_marker r.entries (contains-keys id' r.entries ∙ free))
        (ground (arith, contains-append (values r.entries) (r.next_marker ∷ []) marker)),
    get-insert marker r.next_marker open_channel r.channels ∙ ground arith,
  )

  pub remove_if_matches-channels :
      (id : Text) (m n : ℕ) (r : Registry R F)
      → eqb m n ≡ false
      → get n (remove_if_matches id m r).channels ≡ get n r.channels
  unfolding remove_if_matches
  remove_if_matches-channels id m n r ne = elim (Bool-cases (matches (get id r.entries) m)) [
    | inl hit ↦ rw hit (get-modify n m drop_sender r.channels ∙ rw ne)
    | inr miss ↦ rw miss
  ]

  pub drop_lease-channels :
      (id : Text) (m n : ℕ) (r : Registry R F)
      → eqb m n ≡ false
      → get n (drop_lease (id, m) r).channels ≡ get n r.channels
  unfolding drop_lease
  drop_lease-channels id m n r ne =
      get-modify n m drop_receiver (remove_if_matches id m r).channels
      ∙ rw ne (remove_if_matches-channels id m n r ne)

  -- What another lease loses by the drop of one: nothing.
  pub drop-Served :
      (id' : Text) (marker' : ℕ) (r : Registry R F) (l : Lease)
      → eqb marker' l.1 ≡ false
      → Served r l
      → Served (drop_lease (id', marker') r) l
  unfolding drop_lease remove_if_matches
  drop-Served id' marker' r (id, marker) ne (inl (g, c)) =
      inl (kept, drop_lease-channels id' marker' marker r ne ∙ c)
    where
      kept : get id (drop_lease (id', marker') r).entries ≡ some marker
      kept = elim (Bool-cases (matches (get id' r.entries) marker')) [
        | inl hit ↦ rw hit (get-remove id id' r.entries ∙ ground (arith, list_beq_iff id' id))
        | inr miss ↦ rw miss g
      ]
  drop-Served id' marker' r (id, marker) ne (inr (v, out, c)) =
      inr (v, gone, drop_lease-channels id' marker' marker r ne ∙ c)
    where
      gone : contains (values (drop_lease (id', marker') r).entries) marker ≡ false
      gone = elim (Bool-cases (matches (get id' r.entries) marker')) [
        | inl hit ↦ rw hit (values-remove-sub id' r.entries marker out)
        | inr miss ↦ rw miss out
      ]
