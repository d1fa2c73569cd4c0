-- ===== src/Engine/Catalog/Source/Valid.antt =====
-- weather-core/engine/src/handlers/catalog.rs: what a refresh answers is a valid catalog.
use weather_app.Common.{
  List, map, Option, none, some, ℕ, ◌≡◌, refl, ap, ◌∙◌, arith, ◌==◌, list_eq, nat_eq, Result, ok,
  err, err≢ok,
}
use weather_app.Common.Order.{all-sort_by, distinct-sort_by, all-map}
use weather_app.Common.Text.{Text}
use weather_app.Db.Catalog.{ProviderCity}
use weather_app.Db.Validation.{
  CatalogError, validate_provider_city_catalog, validate_provider_city_catalog_iff, not_blank,
}
use weather_app.Engine.Task.{AnyError, Await, World, Task, await, reads, on_ok, ◌>>?◌}
use weather_app.Engine.Task.Yields.{
  OnOk, OnSome, Yields, return-Yields, >>=-Yields, then_Yields, >>-Yields, if_Yields,
}
use weather_app.Engine.Catalog.{CatalogCache, sort_provider_cities, compare_cities}
use weather_app.Engine.Catalog.Source.{
  CatalogServices, Source, valid_only, refused, validated, reread, drop_permit, after_write,
  persist, permitted, settle_refresh, refetch, unless_fresh, refresh_catalog, city_source,
  refresh_provider_cities,
}

await-Yields :
    {F S A : Type 0} {R : A → Type 0} (call : Await S A)
    → ((s : S) (a : A) → (call s).1 ≡ some a → R a)
    → Yields {F = F} R (await call)
unfolding await
await-Yields call h = record { yields = λ w a e. h w.services a e }

drop_permit-Yields :
    {F S A : Type 0} {R : A → Type 0} (v : CatalogServices S) (call : Task F S A)
    → Yields R call
    → Yields R (drop_permit v call)
unfolding drop_permit
drop_permit-Yields v call y = record { yields = y.yields }

valid_only-OnOk :
    {A : Type 0} (P : List A → Type 0) (rows : List A) (r : Result (Unit {0}) AnyError)
    → (r ≡ ok tt → P rows)
    → OnOk P (valid_only rows r)
valid_only-OnOk P rows (ok u) h = h refl
valid_only-OnOk P rows (err e) h = tt

abbrev Stored :
    {A : Type 0} → (List A → Type 0) → Result (Option (CatalogCache A)) AnyError → Type 0
Stored Good r = OnOk (OnSome (λ cache. Good cache.items)) r

reread-Good :
    {A : Type 0} (Good : List A → Type 0) (upstream : List A)
    (r : Result (Option (CatalogCache A)) AnyError)
    → Good upstream
    → Stored Good r
    → Good (reread upstream r).0
reread-Good Good upstream (ok (some cache)) u h = h
reread-Good Good upstream (ok none) u h = u
reread-Good Good upstream (err e) u h = u

Stored-of :
    {A : Type 0} (Good : List A → Type 0) (r : Result (Option (CatalogCache A)) AnyError)
    → ((cache : CatalogCache A) → r ≡ ok (some cache) → Good cache.items)
    → Stored Good r
Stored-of Good (ok none) h = tt
Stored-of Good (ok (some cache)) h = h cache refl
Stored-of Good (err e) h = tt

validated-OnOk :
    {S B A : Type 0} (source : Source S B A) (r : Result (List B) AnyError)
    → OnOk (λ rows. source.validate rows ≡ ok tt) (validated source r)
validated-OnOk source (ok fetched) =
    let rows = map source.row fetched in
    valid_only-OnOk (λ xs. source.validate xs ≡ ok tt) rows (source.validate rows) (λ h. h)
validated-OnOk source (err e) = tt

module _ {F S B A : Type 0} (v : CatalogServices S) (source : Source S B A) (Good : List A → Type 0)
    (stored : (s : S) (r : Result (Option (CatalogCache A)) AnyError)
      → (source.get_cached s).1 ≡ some r
      → Stored Good r)
    (upstream : (rows : List A) → source.validate rows ≡ ok tt → Good (source.sort rows)) where
  permitted-Yields :
      (permit : Result (Unit {0}) AnyError)
      → Yields {F = F} (OnOk (λ rows. source.validate rows ≡ ok tt)) (permitted v source permit)
  unfolding permitted
  permitted-Yields (ok permit) =
      then_Yields _ _ (λ result. return-Yields _ (validated-OnOk source result))
  permitted-Yields (err e) = return-Yields _ tt

  after_write-Yields :
      (rows : List A) (written : Result (Unit {0}) AnyError)
      → Good rows
      → Yields {F = F} (λ persisted. Good persisted.0) (after_write source rows written)
  unfolding after_write
  after_write-Yields rows (ok u) h =
      >>=-Yields (Stored Good) _ _ (await-Yields source.get_cached stored)
        (λ cached c. return-Yields _ (reread-Good Good rows cached h c))
  after_write-Yields rows (err e) h = return-Yields _ h

  persist-Yields :
      (rows : List A)
      → Good rows
      → Yields {F = F} (λ persisted. Good persisted.0) (persist source rows)
  unfolding persist
  persist-Yields rows h = then_Yields _ _ (λ written. after_write-Yields rows written h)

  settle_refresh-Yields :
      (stale : Option (List A)) (r : Result (List A) AnyError)
      → OnSome Good stale
      → OnOk (λ rows. source.validate rows ≡ ok tt) r
      → Yields {F = F} (OnOk Good) (settle_refresh v source stale r)
  unfolding settle_refresh
  settle_refresh-Yields stale (ok rows) h u =
      >>=-Yields (λ persisted. Good persisted.0) _ _
        (persist-Yields (source.sort rows) (upstream rows u))
        (λ persisted p. >>-Yields _ _ (return-Yields _ p))
  settle_refresh-Yields (some items) (err e) h u = >>-Yields _ _ (return-Yields _ h)
  settle_refresh-Yields none (err e) h u = >>-Yields _ _ (return-Yields _ tt)

  refetch-Yields :
      (stale : Option (List A))
      → OnSome Good stale
      → Yields {F = F} (OnOk Good) (refetch v source stale)
  unfolding refetch
  refetch-Yields stale h = then_Yields _ _ (λ permit.
      >>=-Yields (OnOk (λ rows. source.validate rows ≡ ok tt)) _ _ (permitted-Yields permit)
        (λ fetched u. settle_refresh-Yields stale fetched h u))

  unless_fresh-Yields :
      (ttl_seconds : ℕ) (r : Result (Option (CatalogCache A)) AnyError)
      → Stored Good r
      → Yields {F = F} (OnOk Good) (on_ok (unless_fresh v source ttl_seconds) r)
  unfolding unless_fresh on_ok
  unless_fresh-Yields ttl_seconds (ok none) h = refetch-Yields none tt
  unless_fresh-Yields ttl_seconds (ok (some cache)) h =
      then_Yields _ _
        (λ fresh. if_Yields fresh _ _ (return-Yields _ h) (refetch-Yields (some cache.items) h))
  unless_fresh-Yields ttl_seconds (err e) h = return-Yields _ tt

  refresh_catalog-Yields : Yields {F = F} (OnOk Good) (refresh_catalog v source)
  unfolding refresh_catalog ◌>>?◌
  refresh_catalog-Yields = then_Yields (reads v.province_ttl_seconds) _ (λ ttl_seconds.
      >>=-Yields (Stored Good) _ _ (await-Yields source.get_cached stored)
        (unless_fresh-Yields ttl_seconds))

refused-ok :
    (expected : Text) (r : Result (Unit {0}) CatalogError) → refused expected r ≡ ok tt → r ≡ ok tt
refused-ok expected (ok tt) h = refl
refused-ok expected (err e) h = absurd (err≢ok h)

sort_provider_cities-valid :
    (code : Text) (cities : List ProviderCity)
    → validate_provider_city_catalog code cities ≡ ok tt
    → validate_provider_city_catalog code (sort_provider_cities cities) ≡ ok tt
unfolding sort_provider_cities
sort_provider_cities-valid code cities h =
    let key : ProviderCity → Text = λ c. c.provider_code in
    ground (
      arith,
      validate_provider_city_catalog_iff code cities,
      validate_provider_city_catalog_iff code (sort_provider_cities cities),
      all-map key not_blank cities,
      all-map key not_blank (sort_provider_cities cities),
      all-sort_by compare_cities (λ c. not_blank (key c)) cities,
      all-sort_by compare_cities (λ (c : ProviderCity). c.provider_province_code == code) cities,
      distinct-sort_by compare_cities key cities,
      h,
    )

-- If the database stores valid catalogs of cities only, a refresh answers a valid catalog of its
-- province or an error, whatever the provider answers and whatever fails.
pub refresh_provider_cities-valid :
    {F S : Type 0} (v : CatalogServices S) (provider code : Text)
    (stored : (s : S) (cache : CatalogCache ProviderCity)
      → (v.get_provider_cities provider code s).1 ≡ some (ok (some cache))
      → validate_provider_city_catalog code cache.items ≡ ok tt)
    (w : World F S) (cities : List ProviderCity)
    → (refresh_provider_cities v provider code w).1 ≡ some (ok cities)
    → validate_provider_city_catalog code cities ≡ ok tt
unfolding refresh_provider_cities
refresh_provider_cities-valid v provider code stored w cities h =
    (refresh_catalog-Yields v (city_source v provider code)
        (λ items. validate_provider_city_catalog code items ≡ ok tt)
        (λ s r e.
          Stored-of (λ items. validate_provider_city_catalog code items ≡ ok tt) r
            (λ cache k. stored s cache (e ∙ ap some k)))
        (λ rows e. sort_provider_cities-valid code rows (refused-ok code _ e))).yields
      w (ok cities) h
