-- ===== src/Listings/Update.antt =====
-- apps/core/src/modules/listings/listings.service.ts: `updateListing`.
pub mod Synced
pub mod Laws
pub mod Restrained
use heidi_microservices.Common.{
  set_or_keep, ℕ, Bool, true, false, not, ◌&&◌, ◌||◌, Option, none, some, List, [], ◌∷◌, ◌++◌,
  String, str_eq, truthy, or_else, is_some, if◌then◌else◌,
}
use heidi_microservices.Common.Outcome.{Outcome, returned, thrown, unfinished, not_found, forbidden}
use heidi_microservices.Common.Action.{
  Action, ◌>>=◌, ◌>>◌, pure, throw, throw_when, query, continue,
}
use heidi_microservices.Rbac.Roles.{UserRole}
use heidi_microservices.Database.{Table}
use heidi_microservices.Slugs.{slugify, ensure_unique_slug}
use heidi_microservices.Listings.{
  Listing, ListingStatus, ModerationStatus, Visibility, SourceType, Content, Promotion, Review,
  Origin, Archive, CityReference, CategoryReference, ListingCity, ListingCategory, is_admin,
  with_id, primary_city, transaction,
}
use heidi_microservices.Listings.Patches.{
  ContentPatch, PromotionPatch, OriginPatch, ArchivePatch, UpdateDto, restricted_fields,
  first_restricted, patched_content, patched_promotion, patched_origin, edited_review,
  patched_archive, patched_city, edited,
}
use heidi_microservices.Listings.Sync.{
  TimeInterval, TimeIntervalInput, IntervalException, IntervalExceptionInput,
  sync_listing_categories, sync_listing_cities, sync_listing_time_intervals,
  sync_listing_time_interval_exceptions,
}
use heidi_microservices.Listings.Moderation.{is_author}

-- The tables of the rows that belong to listings.
pub record Related : Type 0 where
  pub categories : List ListingCategory
  pub cities : List ListingCity
  pub time_intervals : List TimeInterval
  pub time_interval_exceptions : List IntervalException

-- The database: the table of listings is in `db`.
pub record Store (S : Type 0) : Type 0 where
  pub db : S
  pub related : Related

-- The new identifiers of the four tables, by the place in the request.
pub record NewIds : Type 0 where
  pub categories : ℕ → String
  pub cities : ℕ → String
  pub time_intervals : ℕ → String
  pub time_interval_exceptions : ℕ → String

module _ {S : Type 0} where
  abbrev pub on_listings : {A : Type 0} → Action S A → Action (Store S) A
  on_listings m s = ((m s.db).0, record s { db = (m s.db).1 })

  -- The end of a call that computes rows, or throws.
  abbrev pub written :
      {A : Type 0} → (A → Store S) → Outcome A → Store S → Outcome (Unit {0}) × Store S
  written f (returned rows) s = (returned tt, f rows)
  written f (thrown e) s = (thrown e, s)
  written f unfinished s = (unfinished, s)

  abbrev sync_keyed_rows : NewIds → String → UpdateDto → Action (Store S) (Unit {0})
  sync_keyed_rows ids id dto s = (
    returned tt,
    record s {
      related = record s.related {
        categories = sync_listing_categories ids.categories id dto.categories s.related.categories;
        cities = sync_listing_cities ids.cities id dto.cities s.related.cities;
      };
    },
  )

  abbrev sync_intervals : NewIds → String → UpdateDto → Action (Store S) (Unit {0})
  sync_intervals ids id dto s =
      written (λ rows. record s { related = record s.related { time_intervals = rows } })
        (sync_listing_time_intervals ids.time_intervals id dto.time_intervals
          s.related.time_intervals)
        s

  abbrev sync_exceptions : NewIds → String → UpdateDto → Action (Store S) (Unit {0})
  sync_exceptions ids id dto s =
      written (λ rows. record s { related = record s.related { time_interval_exceptions = rows } })
        (sync_listing_time_interval_exceptions ids.time_interval_exceptions id
          dto.time_interval_exceptions s.related.time_interval_exceptions)
        s

  -- The four calls that replace the rows of a listing.
  unfoldable pub sync_related : NewIds → String → UpdateDto → Action (Store S) (Unit {0})
  sync_related ids id dto =
      sync_keyed_rows ids id dto >> (sync_intervals ids id dto >> sync_exceptions ids id dto)

module _ {S : Type 0} (table : Table S Listing) where
  abbrev find_listing : String → Action (Store S) (Option Listing)
  find_listing id = query (λ s. table.find (with_id id) s.db)

  unfoldable pub refreshed : Option Listing → Action (Store S) Listing
  refreshed none = throw (not_found "Listing not found after update")
  refreshed (some listing) = pure listing

  -- What is written, once the request is found to be allowed.
  unfoldable pub write_update :
      NewIds → String → String → Bool → ℕ → Option String → UpdateDto → Action (Store S) Listing
  write_update ids id user admin now slug dto = do
    on_listings (table.update (with_id id) (edited admin user now slug dto))
    sync_related ids id dto
    find_listing id >>= refreshed

  unfoldable pub restrict :
      Bool → Option String → Action (Store S) Listing → Action (Store S) Listing
  restrict true field m = m
  restrict false none m = m
  restrict false (some message) m = throw (forbidden message)

  unfoldable pub update_found :
      NewIds
      → String
      → String
      → Bool
      → ℕ
      → Option String
      → UpdateDto
      → Option Listing
      → Action (Store S) Listing
  update_found ids id user admin now slug dto none = throw (not_found "Listing not found")
  update_found ids id user admin now slug dto (some existing) =
      if not admin && not (is_author user existing)
      then throw (forbidden "You can only update listings you created")
      else restrict admin (first_restricted (restricted_fields dto))
          (write_update ids id user admin now slug dto)

  -- `dto.slug ? await this.ensureUniqueSlug(this.slugify(dto.slug), listingId) : undefined`
  unfoldable pub chosen_slug : ℕ → String → Option String → Action (Store S) (Option String)
  chosen_slug fuel id none = pure none
  chosen_slug fuel id (some slug) =
      if truthy (some slug)
      then (query (λ s.
            ensure_unique_slug table Listing.slug Listing.id fuel (slugify slug) (some id) s.db)
          >>= λ free. pure (some free))
      else pure none

  unfoldable pub update_listing :
      ℕ → NewIds → String → String → List UserRole → ℕ → UpdateDto → Action (Store S) Listing
  update_listing fuel ids id user roles now dto = chosen_slug fuel id dto.slug >>= λ slug.
      transaction (find_listing id >>= update_found ids id user (is_admin roles) now slug dto)
