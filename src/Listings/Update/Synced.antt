-- ===== src/Listings/Update/Synced.antt =====
-- apps/core/src/modules/listings/listings.service.ts: the rows that belong to a listing after
-- `updateListing` has synced them.
use heidi_microservices.Common.{ℕ, Option, List, ◌≡◌, refl, ap, sym, ◌∙◌, String}
use heidi_microservices.Common.Outcome.{Outcome, returned, thrown, unfinished}
use heidi_microservices.Common.Action.{bind_returned}
use heidi_microservices.Listings.Patches.{UpdateDto}
use heidi_microservices.Listings.{CategoryReference, CityReference, ListingCategory, ListingCity}
use heidi_microservices.Listings.Sync.Keyed.{IsAsked, sync_keyed-IsAsked}
use heidi_microservices.Listings.Sync.{
  sync_listing_categories, sync_listing_cities, sync_listing_time_intervals,
  sync_listing_time_interval_exceptions,
}
use heidi_microservices.Listings.Update.{
  Related, Store, NewIds, sync_related, written, sync_keyed_rows, sync_intervals, sync_exceptions,
}

-- The rows of the four tables after an update are those that the four syncs give for the request: the
-- listing has exactly the categories and the cities that the request names, if it names any, and the
-- categories and cities of other listings are as they were.
pub record Synced (ids : NewIds) (id : String) (dto : UpdateDto) (r q : Related) : Type 0 where
  pub categories :
      q.categories ≡ sync_listing_categories ids.categories id dto.categories r.categories
  pub cities : q.cities ≡ sync_listing_cities ids.cities id dto.cities r.cities
  pub asked_categories :
      IsAsked ListingCategory.listing_id ListingCategory.category_id CategoryReference.category_id
        id dto.categories r.categories q.categories
  pub asked_cities :
      IsAsked ListingCity.listing_id ListingCity.city_id CityReference.city_id id dto.cities
        r.cities q.cities
  pub time_intervals :
      sync_listing_time_intervals ids.time_intervals id dto.time_intervals r.time_intervals
      ≡ returned q.time_intervals
  pub time_interval_exceptions :
      sync_listing_time_interval_exceptions ids.time_interval_exceptions id
        dto.time_interval_exceptions r.time_interval_exceptions
      ≡ returned q.time_interval_exceptions

categories-IsAsked :
    (ids : ℕ → String) (id : String) (asked : Option (List CategoryReference))
    (rows : List ListingCategory)
    → IsAsked ListingCategory.listing_id ListingCategory.category_id CategoryReference.category_id
        id asked rows
        (sync_listing_categories ids id asked rows)
unfolding sync_listing_categories
categories-IsAsked ids id =
    sync_keyed-IsAsked ListingCategory.listing_id ListingCategory.category_id
      CategoryReference.category_id _ _ id (λ n i r. refl) (λ n i r. refl) (λ n i. refl)
      (λ n i. refl)

cities-IsAsked :
    (ids : ℕ → String) (id : String) (asked : Option (List CityReference)) (rows : List ListingCity)
    → IsAsked ListingCity.listing_id ListingCity.city_id CityReference.city_id id asked rows
        (sync_listing_cities ids id asked rows)
unfolding sync_listing_cities
cities-IsAsked ids id =
    sync_keyed-IsAsked ListingCity.listing_id ListingCity.city_id CityReference.city_id _ _ id
      (λ n i r. refl) (λ n i r. refl) (λ n i. refl) (λ n i. refl)

module _ {S : Type 0} where
  written-eq-returned :
      {A : Type 0} (f : A → Store S) (o : Outcome A) (s : Store S)
      → (written f o s).0 ≡ returned tt
      → (rows : A) × (o ≡ returned rows) × ((written f o s).1 ≡ f rows)
  written-eq-returned f (returned rows) s h = (rows, refl, refl)
  written-eq-returned f (thrown e) s h = cc
  written-eq-returned f unfinished s h = cc

  pub sync_related-Synced :
      (ids : NewIds) (id : String) (dto : UpdateDto) (s : Store S)
      → (sync_related ids id dto s).0 ≡ returned tt
      → Synced ids id dto s.related (sync_related ids id dto s).1.related
  unfolding sync_related
  sync_related-Synced ids id dto s h =
      let s1 = (sync_keyed_rows ids id dto s).1 in
      let (_, k, e, l) =
        bind_returned (sync_intervals ids id dto) (λ _. sync_exceptions ids id dto) s1 h in
      let (intervals, i, f) = written-eq-returned _ _ s1 k in
      let s2 = (sync_intervals ids id dto s1).1 in
      let (exceptions, x, g) = written-eq-returned _ _ s2 l in
      rw (e, g)
        (record {
          categories = ap (λ (w : Store S). w.related.categories) f;
          cities = ap (λ (w : Store S). w.related.cities) f;
          asked_categories =
              rw (ap (λ (w : Store S). w.related.categories) f)
                (categories-IsAsked ids.categories id dto.categories s.related.categories);
          asked_cities =
              rw (ap (λ (w : Store S). w.related.cities) f)
                (cities-IsAsked ids.cities id dto.cities s.related.cities);
          time_intervals = i ∙ ap (λ (w : Store S). returned w.related.time_intervals) (sym f);
          time_interval_exceptions =
              rw (ap (λ (w : Store S). w.related.time_interval_exceptions) f) at x;
        })
