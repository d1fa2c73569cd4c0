-- ===== src/Client/Assembler/Whole.antt =====
-- weather-renderer/gui/src-tauri/src/lib.rs over weather-core/engine/src/handlers/resource.rs: the parts that
-- the engine gives are put together to the resource.
use weather_app.Common.{
  true, false, List, [], ◌∷◌, map, Option, none, some, ℕ, ◌+◌, ◌-◌, ◌*◌, ◌≤◌, ◌<◌, ◌≡◌, ◌⊎◌, inl,
  inr, refl, ap, ◌∙◌, subst, arith, length, All, if◌then◌else◌, eqb, leb, list_eq, nat_eq, Result,
  ok, err, Bool-cases,
}
use weather_app.Common.Text.{Text, trim, is_empty}
use weather_app.Engine.ResourceCache.{ProviderResource, FetchPlan, begin_fetch}
use weather_app.Engine.Transfer.{
  pending_resource_response, answer_plan, async_resource_retry_after_ms,
}
use weather_app.Client.Assembler.{
  TransferError, timed_out, ResourceAssembler, new_assembler, assembled, push_response,
  TransferTurn, done, again, part_request, after_push, transfer_turn, after_turn, transfer_from,
  get_resource_bytes, resource_chunk_bytes, max_resource_bytes, resource_transfer_timeout,
}
use weather_app.Client.Assembler.Served.{
  Served, client_answer, round_of, is_waiting, handle-plan, answer_plan-waiting, plan, is_served,
  Serves, served_count, Punctual,
}
use weather_app.Client.Assembler.Parts.{
  same_some, total, Begun, part_end, part, chunk_answer-part, push_response-part,
  push_response-pending, after_part-assembled, after_part-Begun, finish_bytes-after_part,
  new_assembler-Begun,
}

module _ (resource : ProviderResource) (id : Text) (named : is_empty (trim id) ≡ false)
    (small : length resource.bytes ≤ max_resource_bytes) where
  -- What a turn may do: it ends with the resource, or as it is late; or it goes on, further on by a
  -- part where the engine had the resource.
  abbrev Late : ℕ → Served → Type 0
  Late deadline v = (deadline ≤ v.now) ⊎ (deadline ≤ v.later)

  abbrev Turned : ℕ → Served → ℕ → TransferTurn → Type 0
  Turned deadline v n (done r) = (r ≡ ok resource.bytes) ⊎ ((r ≡ err timed_out) × Late deadline v)
  Turned deadline v n (again a delay) =
      Begun resource id a × (assembled a ≡ (if is_served id v then n + resource_chunk_bytes else n))

  same_plan :
      (v : Served) (a : ResourceAssembler)
      → Begun resource id a
      → (begin_fetch a.resource_id v.served_at v.state).1 ≡ plan id v
  same_plan v a b = ap (λ i. (begin_fetch i v.served_at v.state).1) b.same_id

  response-plan :
      (v : Served) (a : ResourceAssembler)
      → Begun resource id a
      → (round_of v).response (part_request a)
        ≡ client_answer (answer_plan (part_request a) resource_chunk_bytes (plan id v)).0
  response-plan v a b = ap client_answer (
      handle-plan (part_request a) v.served_at v.state
        (ap (λ i. is_empty (trim i)) b.same_id ∙ named) refl
      ∙ ap (λ p. (answer_plan (part_request a) resource_chunk_bytes p).0) (same_plan v a b))

  response-ready :
      (v : Served) (a : ResourceAssembler)
      → Begun resource id a
      → plan id v ≡ FetchPlan.ready resource
      → (round_of v).response (part_request a) ≡ ok (part resource id a)
  unfolding answer_plan
  response-ready v a b e =
      response-plan v a b
      ∙ ap (λ p. client_answer (answer_plan (part_request a) resource_chunk_bytes p).0) e
      ∙ ap client_answer (chunk_answer-part resource id small a b)

  response-waiting :
      (v : Served) (a : ResourceAssembler)
      → Begun resource id a
      → is_waiting (plan id v) ≡ true
      → (round_of v).response (part_request a)
        ≡ ok (pending_resource_response (part_request a) async_resource_retry_after_ms)
  response-waiting v a b e =
      response-plan v a b ∙ ap client_answer (answer_plan-waiting (part_request a) (plan id v) e)

  pushed-Turned :
      (deadline delay : ℕ) (v : Served) (a : ResourceAssembler)
      → Begun resource id a
      → plan id v ≡ FetchPlan.ready resource
      → Turned deadline v
          (assembled a)
          (after_push deadline v.later delay (push_response a (part resource id a)))
  pushed-Turned deadline delay v a b e =
      rw (push_response-part resource id small a b)
        (elim (Bool-cases (eqb (part_end resource id a) (total resource id))) [
          | inl all ↦ rw all (inl (finish_bytes-after_part resource id small a b all))
          | inr short ↦ rw short (
            after_part-Begun resource id small a b short,
            rw e (ground (arith, after_part-assembled resource id small a b, short)),
          )
        ])

  waited-Turned :
      (deadline delay : ℕ) (v : Served) (a : ResourceAssembler)
      → Begun resource id a
      → is_waiting (plan id v) ≡ true
      → Turned deadline v (assembled a) (
          after_push deadline v.later delay (
            push_response a
              (pending_resource_response (part_request a) async_resource_retry_after_ms)))
  waited-Turned deadline delay v a b e =
      rw (push_response-pending resource id a b) (elim (Bool-cases (eqb (deadline - v.later) 0)) [
        | inl late ↦ rw late (inr (refl, inr (ground (arith, late))))
        | inr early ↦ rw early (b, rw e refl)
      ])

  transfer_turn-Turned :
      (deadline delay : ℕ) (v : Served) (a : ResourceAssembler)
      → Serves resource id v
      → Begun resource id a
      → Turned deadline v (assembled a) (transfer_turn deadline (round_of v) a delay)
  unfolding transfer_turn
  transfer_turn-Turned deadline delay v a serves b = elim (Bool-cases (leb deadline v.now)) [
    | inl late ↦ rw (late, transfer_turn) (inr (refl, inl (ground (arith, late))))
    | inr early ↦
        rw (early, transfer_turn)
          (elim serves [
            | inl e ↦ rw (response-ready v a b e) (pushed-Turned deadline delay v a b e)
            | inr e ↦ rw (response-waiting v a b e) (waited-Turned deadline delay v a b e)
          ])
  ]

  abbrev Exact : Option (Result (List ℕ) TransferError) → Type 0
  Exact none = Unit
  Exact (some r) = (r ≡ ok resource.bytes) ⊎ (r ≡ err timed_out)

  Exact-cases :
      (o : Option (Result (List ℕ) TransferError))
      → Exact o
      → (r : Result (List ℕ) TransferError) → o ≡ some r
      → (r ≡ ok resource.bytes) ⊎ (r ≡ err timed_out)
  Exact-cases none e r h = cc
  Exact-cases (some q) e r h =
      subst (λ q'. (q' ≡ ok resource.bytes) ⊎ (q' ≡ err timed_out)) (same_some h) e

  after_turn-Exact :
      (deadline : ℕ) (v : Served) (n : ℕ) (t : TransferTurn)
      (go : ResourceAssembler → ℕ → Option (Result (List ℕ) TransferError))
      → Turned deadline v n t
      → ((a : ResourceAssembler) (delay : ℕ) → Begun resource id a → Exact (go a delay))
      → Exact (after_turn t go)
  after_turn-Exact deadline v n (done r) go (inl e) later = inl e
  after_turn-Exact deadline v n (done r) go (inr e) later = inr e.0
  after_turn-Exact deadline v n (again a delay) go turned later = later a delay turned.0

  transfer_from-Exact :
      (deadline delay : ℕ) (vs : List Served) (a : ResourceAssembler)
      → All (Serves resource id) vs
      → Begun resource id a
      → Exact (transfer_from deadline (map round_of vs) a delay)
  unfolding transfer_from
  transfer_from-Exact deadline delay [] a serves b = tt
  transfer_from-Exact deadline delay (v ∷ vs) a serves b =
      after_turn-Exact deadline v (assembled a) (transfer_turn deadline (round_of v) a delay)
        (λ a' d. transfer_from deadline (map round_of vs) a' d)
        (transfer_turn-Turned deadline delay v a serves.0 b)
        (λ a' d b'. transfer_from-Exact deadline d vs a' serves.1 b')

  -- Enough parts for what is still to come.
  abbrev Enough : ℕ → ℕ → Type 0
  Enough n count = (0 < count) × (total resource id ≤ n + resource_chunk_bytes * count)

  after_turn-ends :
      (deadline : ℕ) (v : Served) (vs : List Served) (n : ℕ) (t : TransferTurn)
      (go : ResourceAssembler → ℕ → Option (Result (List ℕ) TransferError))
      → Punctual deadline v
      → Enough n (served_count id (v ∷ vs))
      → Turned deadline v n t
      → ((a : ResourceAssembler) (delay : ℕ)
          → Begun resource id a
          → Enough (assembled a) (served_count id vs)
          → go a delay ≡ some (ok resource.bytes))
      → after_turn t go ≡ some (ok resource.bytes)
  after_turn-ends deadline v vs n (done r) go punctual enough (inl e) later = ap some e
  after_turn-ends deadline v vs n (done r) go punctual enough (inr e) later =
      absurd (ground (arith, e.1, punctual))
  after_turn-ends deadline v vs n (again a delay) go punctual enough turned later =
      later a delay turned.0 (ground (arith, enough, turned.1, turned.0.more, turned.0.within))

  transfer_from-ends :
      (deadline delay : ℕ) (vs : List Served) (a : ResourceAssembler)
      → All (Serves resource id) vs
      → All (Punctual deadline) vs
      → Enough (assembled a) (served_count id vs)
      → Begun resource id a
      → transfer_from deadline (map round_of vs) a delay ≡ some (ok resource.bytes)
  unfolding transfer_from
  transfer_from-ends deadline delay [] a serves punctual enough b = absurd (omega (arith, enough.0))
  transfer_from-ends deadline delay (v ∷ vs) a serves punctual enough b =
      after_turn-ends deadline v vs (assembled a) (transfer_turn deadline (round_of v) a delay)
        (λ a' d. transfer_from deadline (map round_of vs) a' d) punctual.0 enough
        (transfer_turn-Turned deadline delay v a serves.0 b)
        (λ a' d b' enough'. transfer_from-ends deadline d vs a' serves.1 punctual.1 enough' b')

  -- If in every turn the engine has the resource of at most 8 MiB, or is still to fetch it: a transfer
  -- that ends gives the bytes of the resource, or it timed out. If no turn is late, and the engine has
  -- the resource in at least one turn and in as many as the resource has parts, the transfer ends with
  -- its bytes.
  pub get_resource_bytes-served :
      (now : ℕ) (vs : List Served)
      → All (Serves resource id) vs
      → let answer = get_resource_bytes id now (map round_of vs) in
        ((r : Result (List ℕ) TransferError)
          → answer ≡ some r
          → (r ≡ ok resource.bytes) ⊎ (r ≡ err timed_out))
        × (All (Punctual (now + resource_transfer_timeout)) vs
            → 0 < served_count id vs
            → length resource.bytes ≤ resource_chunk_bytes * served_count id vs
            → answer ≡ some (ok resource.bytes))
  unfolding get_resource_bytes
  get_resource_bytes-served now vs serves =
      let deadline = now + resource_transfer_timeout in
      let a = new_assembler id in
      rw named (
        Exact-cases (transfer_from deadline (map round_of vs) a 0)
            (transfer_from-Exact deadline 0 vs a serves (new_assembler-Begun resource id)),
        λ punctual served enough.
            transfer_from-ends deadline 0 vs a serves punctual (served, omega (arith, enough))
              (new_assembler-Begun resource id),
      )
