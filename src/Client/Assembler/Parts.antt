-- ===== src/Client/Assembler/Parts.antt =====
-- weather-renderer/gui/src-tauri/src/lib.rs: what `push` and `finish` make of the parts that the engine gives.
use weather_app.Common.{
  Bool, true, false, not, false≢true, List, [], ◌∷◌, ◌++◌, Option, none, some, ℕ, zero, suc, ◌+◌,
  ◌-◌, ◌≤◌, ◌<◌, min, ◌≡◌, ◌⊎◌, inl, inr, refl, sym, ap, ◌∙◌, arith, length, take, drop,
  length-take, length-drop, length-append, All, if◌then◌else◌, eqb, eqb_iff, ltb, ==_refl, ==_iff,
  bool_same, list_eq, nat_eq, saturating_add, ok,
}
use weather_app.Common.Text.{Text, is_empty}
use weather_app.Schema.Messages.{GetResourceResponse, TransferState}
use weather_app.Engine.ResourceCache.{ProviderResource}
use weather_app.Engine.Transfer.{
  answer_ok, resource_chunk, pending_resource_response, chunk_answer, async_resource_retry_after_ms,
}
use weather_app.Client.Assembler.{
  TransferError, size_differs, type_differs, ResourceAssembler, incomplete, all_received, waits,
  new_assembler, assembled, first_error, push_pending, chunk_checks, push_chunk, push_response,
  finish_bytes, part_request, resource_chunk_bytes, max_resource_bytes,
}

pub same_some : {A : Type 0} {a b : A} → Path (Option A) (some a) (some b) → a ≡ b
same_some e = cc

first_error-none :
    (checks : List (Bool × TransferError))
    → All (λ check. check.0 ≡ false) checks
    → first_error checks ≡ none
first_error-none [] h = refl
first_error-none ((true, e) ∷ checks) h = absurd (false≢true (sym h.0))
first_error-none ((false, e) ∷ checks) h = first_error-none checks h.1

is_empty-length : {A : Type 0} (xs : List A) → is_empty xs ≡ eqb (length xs) 0
is_empty-length [] = refl
is_empty-length (x ∷ xs) = ground arith

same_as_itself : (b : Bool) → not (bool_same b b) ≡ false
same_as_itself true = refl
same_as_itself false = refl

take-none : {A : Type 0} (k : ℕ) → let xs : List A = [] in take k xs ≡ xs
take-none zero = refl
take-none (suc k) = refl

take-append-take :
    {A : Type 0} (n k : ℕ) (xs : List A) → take n xs ++ take k (drop n xs) ≡ take (n + k) xs
take-append-take zero k xs = ap (λ m. take m xs) (omega arith)
take-append-take (suc n) k [] = take-none k ∙ sym (take-none (suc n + k))
take-append-take (suc n) k (x ∷ xs) =
    ap (λ ys. x ∷ ys) (take-append-take n k xs)
    ∙ ap (λ m. take m (x ∷ xs)) {x = suc (n + k)} {y = suc n + k} (omega arith)

take-length : {A : Type 0} (xs : List A) → take (length xs) xs ≡ xs
take-length [] = refl
take-length (x ∷ xs) = ap (λ ys. x ∷ ys) (take-length xs)

eqb_refl : (n : ℕ) → eqb n n ≡ true
eqb_refl n = ground arith

module _ (resource : ProviderResource) (id : Text) where
  abbrev pub total : ℕ
  total = length resource.bytes

  -- What was received is the beginning of the resource, and not all of it.
  pub record Begun (a : ResourceAssembler) : Type 0 where
    pub same_id : a.resource_id ≡ id
    unfinished : a.complete ≡ false
    size : (a.total_size ≡ none) ⊎ (a.total_size ≡ some total)
    content : (a.content_type ≡ none) ⊎ (a.content_type ≡ some resource.content_type)
    received : a.bytes ≡ take (assembled a) resource.bytes
    pub within : assembled a ≤ total
    pub more : (assembled a < total) ⊎ (total ≡ 0)

  abbrev pub part_end : ResourceAssembler → ℕ
  part_end a = min (assembled a + resource_chunk_bytes) total

  abbrev pub part : ResourceAssembler → GetResourceResponse
  part a = record {
    resource_id = a.resource_id;
    content_type = resource.content_type;
    chunk = take (part_end a - assembled a) (drop (assembled a) resource.bytes);
    total_size = total;
    next_offset = part_end a;
    complete = eqb (part_end a) total;
    cache_hit = true;
    transfer_state = TransferState.ready;
    retry_after_ms = 0;
  }

  abbrev pub after_part : ResourceAssembler → ResourceAssembler
  after_part a = record a {
    total_size = some total;
    content_type = some resource.content_type;
    bytes = a.bytes ++ (part a).chunk;
    complete = eqb (part_end a) total;
  }

  module _ (small : length resource.bytes ≤ max_resource_bytes) where
    pub chunk_answer-part :
        (a : ResourceAssembler)
        → Begun a
        → chunk_answer (
            resource_chunk
              (part_request a)
              resource.content_type
              resource.bytes
              resource_chunk_bytes)
          ≡ answer_ok (part a)
    unfolding resource_chunk
    chunk_answer-part a b =
        let same_end : min (saturating_add (assembled a) resource_chunk_bytes) total ≡ part_end a =
          omega (arith, small, b.within) in
        let within : ltb total (assembled a) ≡ false = ground (arith, b.within) in
        rw (within, same_end) refl

    length-part :
        (a : ResourceAssembler) → Begun a → length (part a).chunk ≡ part_end a - assembled a
    length-part a b =
        length-take (part_end a - assembled a) (drop (assembled a) resource.bytes)
        ∙ omega (arith, length-drop (assembled a) resource.bytes, b.within)

    size_differs-same :
        (o : Option ℕ) → (o ≡ none) ⊎ (o ≡ some total) → size_differs o total ≡ false
    size_differs-same none h = refl
    size_differs-same (some n) (inl h) = cc
    size_differs-same (some n) (inr h) = ground (arith, same_some h)

    type_differs-same :
        (o : Option Text)
        → (o ≡ none) ⊎ (o ≡ some resource.content_type)
        → type_differs o resource.content_type ≡ false
    type_differs-same none h = refl
    type_differs-same (some t) (inl h) = cc
    type_differs-same (some t) (inr h) =
        ap not ((==_iff resource.content_type t).1 (sym (same_some h)))

    part_end-lem :
        (a : ResourceAssembler) → Begun a → assembled a + length (part a).chunk ≡ part_end a
    part_end-lem a b = omega (arith, length-part a b, b.within)

    checks_pass :
        (a : ResourceAssembler) → Begun a → All (λ check. check.0 ≡ false) (chunk_checks a (part a))
    checks_pass a b =
        let next = part_end-lem a b in
        (
          ground (arith, small),
          (
            size_differs-same a.total_size b.size,
            (
              type_differs-same a.content_type b.content,
              (
                ground (arith, small, next),
                (
                  ground (arith, next),
                  (
                    ground (arith, next),
                    (
                      ground (arith, is_empty-length (part a).chunk, next, b.more, b.within),
                      (
                        ap (λ m. not (bool_same (eqb (part_end a) total) (eqb m total))) next
                            ∙ same_as_itself (eqb (part_end a) total),
                        tt,
                      ),
                    ),
                  ),
                ),
              ),
            ),
          ),
        )

    pub push_response-part :
        (a : ResourceAssembler)
        → Begun a
        → push_response a (part a)
          ≡ ok (
            record a {
              total_size = some total;
              content_type = some resource.content_type;
              bytes = a.bytes ++ (part a).chunk;
              complete = eqb (part_end a) total;
            },
            if eqb (part_end a) total then all_received else incomplete,
          )
    unfolding push_response push_chunk
    push_response-part a b =
        rw
          (
            b.unfinished,
            ==_refl a.resource_id,
            first_error-none (chunk_checks a (part a)) (checks_pass a b),
          )
          refl

    pub after_part-assembled :
        (a : ResourceAssembler) → Begun a → assembled (after_part a) ≡ part_end a
    after_part-assembled a b = length-append a.bytes (part a).chunk ∙ part_end-lem a b

    after_part-bytes :
        (a : ResourceAssembler) → Begun a → (after_part a).bytes ≡ take (part_end a) resource.bytes
    after_part-bytes a b =
        ap (λ bytes. bytes ++ (part a).chunk) b.received
        ∙ take-append-take (assembled a) (part_end a - assembled a) resource.bytes
        ∙ ap (λ m. take m resource.bytes) (omega (arith, b.within))

    pub after_part-Begun :
        (a : ResourceAssembler)
        → Begun a
        → eqb (part_end a) total ≡ false
        → Begun (record (after_part a) { complete = false })
    after_part-Begun a b short = record {
      same_id = b.same_id;
      unfinished = refl;
      size = inr refl;
      content = inr refl;
      received =
          after_part-bytes a b ∙ ap (λ m. take m resource.bytes) (sym (after_part-assembled a b));
      within = omega (arith, after_part-assembled a b);
      more = inl (ground (arith, after_part-assembled a b, short));
    }

    pub finish_bytes-after_part :
        (a : ResourceAssembler)
        → Begun a
        → eqb (part_end a) total ≡ true
        → finish_bytes (record (after_part a) { complete = true }) ≡ ok resource.bytes
    unfolding finish_bytes
    finish_bytes-after_part a b all = rw has_all (
        ap ok (
          after_part-bytes a b
          ∙ ap (λ m. take m resource.bytes) ((eqb_iff (part_end a) total).0 all)
          ∙ take-length resource.bytes))
      where
        has_all : eqb total (assembled (after_part a)) ≡ true
        has_all = ground (arith, after_part-assembled a b, all)

  pub new_assembler-Begun : Begun (new_assembler id)
  new_assembler-Begun = record {
    same_id = refl;
    unfinished = refl;
    size = inl refl;
    content = inl refl;
    received = refl;
    within = omega arith;
    more = ground arith;
  }

  pub push_response-pending :
      (a : ResourceAssembler)
      → Begun a
      → push_response a (pending_resource_response (part_request a) async_resource_retry_after_ms)
        ≡ ok (a, waits async_resource_retry_after_ms)
  unfolding push_response push_pending pending_resource_response
  push_response-pending a b = rw (b.unfinished, ==_refl a.resource_id, eqb_refl (assembled a)) refl
