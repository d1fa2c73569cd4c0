-- ===== src/Engine/Compatibility/Batch.antt =====
-- weather-core/engine/src/handlers/compatibility.rs: which requests for several provinces are served.
use weather_app.Common.{
  Bool, true, false, ◌&&◌, List, [], ◌∷◌, map, ℕ, ◌≤◌, ◌≡◌, ◌⊎◌, inl, inr, refl, ap, ◌∙◌, arith,
  min, length, length-take, drop, all, All, leb, ltb, Bool-cases, Result, ok, err, if◌then◌else◌,
  eqb,
}
use weather_app.Common.Text.{Text}
use weather_app.Schema.Constants.{max_rpc_page_size, max_rpc_page_offset}
use weather_app.Engine.Limits.{
  LimitError, offset_exceeds, page_size_exceeds, batch_exceeds, max_batch_queries,
  default_page_size, normalize_pagination, validate_batch_size, paginate,
}
use weather_app.Engine.Compatibility.{
  RegionQuery, BatchRegionPage, BadRequest, out_of_bounds, normalize_queries, region_page,
  fetch_legacy_region_page, fetch_pages, handle_batch_list_regions,
}

abbrev pub in_bounds : RegionQuery → Bool
in_bounds q = leb q.page_offset max_rpc_page_offset && leb q.page_size max_rpc_page_size

abbrev pub served : List RegionQuery → Bool
served queries = leb (length queries) max_batch_queries && all in_bounds queries

-- What becomes of the numbers of a query.
normalize_pagination-in_bounds :
    (q : RegionQuery)
    → ((in_bounds q ≡ true)
        × (size : ℕ) × (normalize_pagination q.page_offset q.page_size default_page_size
            ≡ ok (q.page_offset, size))
        × (size ≤ max_rpc_page_size))
      ⊎ ((in_bounds q ≡ false)
          × (e : LimitError) × (normalize_pagination q.page_offset q.page_size default_page_size
              ≡ err e))
unfolding normalize_pagination
normalize_pagination-in_bounds q =
    let size = if eqb q.page_size 0 then default_page_size else q.page_size in
    elim (Bool-cases (in_bounds q)) [
      | inl good ↦ inl (good, size, ground (arith, good), ground (arith, good))
      | inr bad ↦ elim (Bool-cases (ltb max_rpc_page_offset q.page_offset)) [
        | inl far ↦ inr (bad, offset_exceeds q.page_offset, ground (arith, far))
        | inr near ↦ inr (bad, page_size_exceeds size, ground (arith, near, bad))
      ]
    ]

-- The queries that the first loop makes.
record Normalized (queries : List RegionQuery) (out : List (Text × ℕ × ℕ)) : Type 0 where
  provinces : map (λ q. q.0) out ≡ map (λ q. q.province) queries
  sizes : All (λ q. q.2 ≤ max_rpc_page_size) out

normalize_queries_lem :
    (queries : List RegionQuery)
    → ((all in_bounds queries ≡ true)
        × (out : List (Text × ℕ × ℕ)) × (normalize_queries queries ≡ ok out)
        × Normalized queries out)
      ⊎ ((all in_bounds queries ≡ false) × (e : LimitError) × (normalize_queries queries ≡ err e))
unfolding normalize_queries
normalize_queries_lem [] = inl (refl, [], refl, record { provinces = refl; sizes = tt })
normalize_queries_lem (q ∷ queries) = elim (normalize_pagination-in_bounds q) [
  | inr (bad, e, h) ↦ inr (rw bad refl, e, rw h refl)
  | inl (good, size, h, small) ↦ elim (normalize_queries_lem queries) [
    | inr (bad, e, rest) ↦ inr (rw (good, bad) refl, e, rw (h, rest) refl)
    | inl (fine, out, rest, v) ↦ inl (
      rw (good, fine) refl,
      (q.province, q.page_offset, size) ∷ out,
      rw (h, rest) refl,
      record { provinces = ap (λ l. q.province ∷ l) v.provinces; sizes = (small, v.sizes) },
    )
  ]
]

length-paginate :
    {A : Type 0} (l : List A) (offset size : ℕ) → length (paginate l offset size).items ≤ size
unfolding paginate
length-paginate l offset size =
    let start = min offset (length l) in omega (arith, length-take _ (drop start l))

module _ {S A : Type 0} (list_cities : Text → S → S × Result (List A) Text) where
  region_page-cities :
      (province : Text) (offset size : ℕ) (answer : Result (List A) Text)
      → length (region_page province offset size answer).cities ≤ size
  unfolding region_page
  region_page-cities province offset size (ok l) = length-paginate l offset size
  region_page-cities province offset size (err e) = omega arith

  region_page-province :
      (province : Text) (offset size : ℕ) (answer : Result (List A) Text)
      → (region_page province offset size answer).province ≡ province
  unfolding region_page
  region_page-province province offset size (ok l) = refl
  region_page-province province offset size (err e) = refl

  fetch_pages-provinces :
      (queries : List (Text × ℕ × ℕ)) (s : S)
      → map (λ p. p.province) (fetch_pages list_cities queries s).1 ≡ map (λ q. q.0) queries
  unfolding fetch_pages fetch_legacy_region_page
  fetch_pages-provinces [] s = refl
  fetch_pages-provinces ((province, offset, size) ∷ queries) s =
      let (s', answer) = list_cities province s in
      rw (region_page-province province offset size answer)
        (ap (λ l. province ∷ l) (fetch_pages-provinces queries s'))

  fetch_pages-sizes :
      (queries : List (Text × ℕ × ℕ)) (s : S)
      → All (λ q. q.2 ≤ max_rpc_page_size) queries
      → All (λ p. length p.cities ≤ max_rpc_page_size) (fetch_pages list_cities queries s).1
  unfolding fetch_pages fetch_legacy_region_page
  fetch_pages-sizes [] s small = tt
  fetch_pages-sizes ((province, offset, size) ∷ queries) s (here, later) =
      let (s', answer) = list_cities province s in
      (
        omega (arith, region_page-cities province offset size answer, here),
        fetch_pages-sizes queries s' later,
      )

  -- A decoded request is served exactly if it has at most 64 queries and the offsets and page sizes
  -- of all are within the bounds. It then has a page for each query, in their order, with at most
  -- as many cities as a page may have. Otherwise it is refused before any cities are listed.
  pub handle_batch_list_regions-served :
      (queries : List RegionQuery) (s : S)
      → ((served queries ≡ true)
          × (pages : List (BatchRegionPage A)) × ((handle_batch_list_regions list_cities
                (ok queries)
                s).1
              ≡ ok pages)
          × (map (λ p. p.province) pages ≡ map (λ q. q.province) queries)
          × All (λ p. length p.cities ≤ max_rpc_page_size) pages)
        ⊎ ((served queries ≡ false)
            × (e : BadRequest) × (handle_batch_list_regions list_cities (ok queries) s
                ≡ (s, err e)))
  unfolding handle_batch_list_regions validate_batch_size
  handle_batch_list_regions-served queries s =
      elim (Bool-cases (ltb max_batch_queries (length queries))) [
        | inl many ↦
            inr (ground (arith, many), out_of_bounds (batch_exceeds (length queries)), rw many refl)
        | inr few ↦ elim (normalize_queries_lem queries) [
          | inr (bad, e, h) ↦ inr (ground (arith, bad), out_of_bounds e, rw (few, h) refl)
          | inl (good, out, h, v) ↦ inl (
            ground (arith, few, good),
            (fetch_pages list_cities out s).1,
            rw (few, h) refl,
            fetch_pages-provinces out s ∙ v.provinces,
            fetch_pages-sizes out s v.sizes,
          )
        ]
      ]
