-- ===== src/Engine/Limits/Pages.antt =====
-- weather-core/engine/src/limits.rs, weather-core/engine/src/handlers/response.rs: which requests
-- are accepted, and that following the offsets reads the whole list.
use native.Mathlib.Nat.{zero-add, suc-add}
use weather_app.Common.{
  true, false, List, [], ◌∷◌, ◌++◌, ℕ, zero, suc, ◌+◌, ◌-◌, ◌%◌, ◌^◌, ◌≤◌, ◌<◌, ◌≡◌, refl, ◌↔◌, ◌⊎◌,
  inl, inr, ap, ◌∙◌, sym, min, arith, length, take, drop, if◌then◌else◌, eqb, saturating_add, ok,
}
use weather_app.Schema.Constants.{max_rpc_page_size, max_rpc_page_offset}
use weather_app.Engine.Limits.{normalize_pagination, paginate}

-- A request is accepted exactly if its offset and its page size, the default where it is 0, are
-- within the bounds; the accepted numbers are those of the request, with the default put in.
normalize_pagination_iff :
    (offset page_size default_size o p : ℕ)
    → (normalize_pagination offset page_size default_size ≡ ok (o, p)) ↔ (
        (o ≡ offset)
        × (offset ≤ max_rpc_page_offset)
        × (p ≡ (if eqb page_size 0 then default_size else page_size))
        × (p ≤ max_rpc_page_size))
unfolding normalize_pagination
normalize_pagination_iff offset page_size default_size o p = ground arith

take-all {ℓ} : {A : Type ℓ} (n : ℕ) (xs : List A) → length xs ≤ n → take n xs ≡ xs
take-all zero [] h = refl
take-all zero (x ∷ xs) h = absurd (omega arith)
take-all (suc n) [] h = refl
take-all (suc n) (x ∷ xs) h = ap (◌∷◌ x) (take-all n xs (omega arith))

take-append-drop {ℓ} : {A : Type ℓ} (n : ℕ) (xs : List A) → take n xs ++ drop n xs ≡ xs
take-append-drop zero xs = refl
take-append-drop (suc n) [] = refl
take-append-drop (suc n) (x ∷ xs) = ap (◌∷◌ x) (take-append-drop n xs)

drop-nil {ℓ} : {A : Type ℓ} (n : ℕ) → drop {A = A} n [] ≡ []
drop-nil zero = refl
drop-nil (suc n) = refl

drop-drop {ℓ} : {A : Type ℓ} (n m : ℕ) (xs : List A) → drop n (drop m xs) ≡ drop (m + n) xs
drop-drop n zero xs = rw zero-add
drop-drop n (suc m) [] = drop-nil n ∙ sym (drop-nil (suc m + n))
drop-drop n (suc m) (x ∷ xs) = rw suc-add (drop-drop n m xs)

take-append-drop-drop {ℓ} :
    {A : Type ℓ} (n m : ℕ) (xs : List A) → take n (drop m xs) ++ drop (m + n) xs ≡ drop m xs
take-append-drop-drop n m xs =
    ap (λ l. take n (drop m xs) ++ l) (sym (drop-drop n m xs)) ∙ take-append-drop n (drop m xs)

-- What a client gathers that asks for page after page, from `offset` on, for as long as there is
-- more; `fuel` bounds the requests.
unfoldable pub gather {ℓ} : {A : Type ℓ} → ℕ → List A → ℕ → ℕ → List A
gather zero all offset size = []
gather (suc fuel) all offset size =
    let page = paginate all offset size in
    page.items ++ elim page.has_more [ true ↦ gather fuel all page.next_offset size | false ↦ [] ]

drop-all {ℓ} : {A : Type ℓ} (n : ℕ) (xs : List A) → length xs ≤ n → drop n xs ≡ []
drop-all zero [] h = refl
drop-all zero (x ∷ xs) h = absurd (omega arith)
drop-all (suc n) [] h = refl
drop-all (suc n) (x ∷ xs) h = drop-all n xs (omega arith)

module _ {ℓ} {A : Type ℓ} (all : List A) (size : ℕ) (small : length all < 2 ^ 32) where
  page_items :
      (offset : ℕ)
      → offset ≤ length all
      → (paginate all offset size).items ++ drop (paginate all offset size).next_offset all
        ≡ drop offset all
  unfolding paginate
  page_items offset h =
      let end : ℕ = min (saturating_add offset size) (length all) in
      let start_lem : min offset (length all) ≡ offset = omega arith in
      let end_lem : end % 4294967296 ≡ offset + (end - offset) = omega arith in
      rw start_lem (rw end_lem (take-append-drop-drop (end - offset) offset all))

  page_more :
      (offset : ℕ)
      → offset ≤ length all
      → 0 < size
      → ((paginate all offset size).has_more ≡ true)
          × (offset < (paginate all offset size).next_offset)
          × ((paginate all offset size).next_offset ≤ length all)
        ⊎ ((paginate all offset size).has_more ≡ false)
          × ((paginate all offset size).next_offset ≡ length all)
  unfolding paginate
  page_more offset h pos = ground arith

  gather_from :
      (fuel offset : ℕ)
      → offset ≤ length all
      → 0 < size
      → length all - offset < fuel
      → gather fuel all offset size ≡ drop offset all
  unfolding gather
  gather_from zero offset h pos f = absurd (omega arith)
  gather_from (suc fuel) offset h pos f = elim (page_more offset h pos) [
    | inl (more, up, within) ↦
        rw (more, gather)
          (ap (λ l. (paginate all offset size).items ++ l)
              (gather_from fuel (paginate all offset size).next_offset within pos (omega arith))
            ∙ page_items offset h)
    | inr (last, end) ↦
        rw (last, gather)
          (ap (λ l. (paginate all offset size).items ++ l)
              (sym (drop-all (paginate all offset size).next_offset all (omega arith)))
            ∙ page_items offset h)
  ]

-- A client that follows `next_offset` for as long as there is more reads the whole list once, in
-- order, with any page size but 0, if the list has fewer than 2^32 elements; one request more than
-- there are elements is enough.
pub gather_all {ℓ} :
    {A : Type ℓ} (all : List A) (size fuel : ℕ)
    → length all < 2 ^ 32
    → 0 < size
    → length all < fuel
    → gather fuel all 0 size ≡ all
gather_all all size fuel small pos f =
    gather_from all size small fuel 0 (omega arith) pos (omega arith)
