-- ===== src/Listings/Create.antt =====
-- apps/core/src/modules/listings/listings.service.ts: `createListing`.
pub mod Laws
use heidi_microservices.Common.{
  ℕ, zero, suc, ◌==◌, Bool, true, false, ◌&&◌, ◌||◌, Option, none, some, List, [], ◌∷◌, ◌++◌, map,
  String, text_append, truthy, or_else, includes, if◌then◌else◌,
}
use heidi_microservices.Common.Decimals.{decimal}
use heidi_microservices.Common.Outcome.{Outcome, returned, thrown, unfinished, failure}
use heidi_microservices.Common.Action.{Action, ◌>>=◌, throw, query, continue}
use heidi_microservices.Rbac.Roles.{UserRole}
use heidi_microservices.Database.{has_twice, Table}
use heidi_microservices.Slugs.{slugify, ensure_unique_slug}
use heidi_microservices.Listings.{
  Listing, ListingStatus, ModerationStatus, Visibility, SourceType, Content, Promotion, Review,
  Origin, Archive, CityReference, CategoryReference, ListingCity, ListingCategory, is_admin,
  primary_city,
}
use heidi_microservices.Listings.Sync.{
  TimeInterval, TimeIntervalInput, IntervalException, IntervalExceptionInput, interval_row,
  exception_row,
}
use heidi_microservices.Listings.Update.{Related, Store, NewIds, on_listings}

-- The request. Its `content` has the optional columns of a listing as they are, and a value of
-- `is_all_day` that is not used.
pub record CreateDto : Type 0 where
  pub content : Content
  pub is_all_day : Option Bool
  pub visibility : Option Visibility
  pub is_featured : Option Bool
  pub featured_until : Option ℕ
  pub publish_at : Option ℕ
  pub expire_at : Option ℕ
  pub source_type : Option SourceType
  pub external_source : Option String
  pub external_id : Option String
  pub sync_hash : Option String
  pub content_checksum : Option String
  pub last_synced_at : Option ℕ
  pub ingested_at : Option ℕ
  pub ingested_by_service : Option String
  pub ingest_notes : Option String
  pub cities : Option (List CityReference)
  pub categories : Option (List CategoryReference)
  pub time_intervals : Option (List TimeIntervalInput)
  pub time_interval_exceptions : Option (List IntervalExceptionInput)

-- `isAdmin ? value : undefined`
abbrev for_admin {ℓ} : {A : Type ℓ} → Bool → Option A → Option A
for_admin admin value = if admin then value else none

-- The row that is created.
unfoldable pub created : Bool → String → String → String → CreateDto → Listing
created admin id user slug dto = record {
  id = id;
  slug = slug;
  content = record dto.content { is_all_day = or_else dto.is_all_day false };
  promotion = record {
    visibility = if admin then or_else dto.visibility Visibility.public else Visibility.public;
    is_featured = if admin then or_else dto.is_featured false else false;
    featured_until = for_admin admin dto.featured_until;
    publish_at = for_admin admin dto.publish_at;
    expire_at = for_admin admin dto.expire_at;
  };
  review = record {
    status = ListingStatus.pending;
    moderation_status = ModerationStatus.pending;
    reviewed_by = none;
    reviewed_at = none;
    review_notes = none;
  };
  origin = record {
    source_type = or_else dto.source_type SourceType.manual;
    external_source = for_admin admin dto.external_source;
    external_id = for_admin admin dto.external_id;
    sync_hash = for_admin admin dto.sync_hash;
    content_checksum = for_admin admin dto.content_checksum;
    last_synced_at = for_admin admin dto.last_synced_at;
    ingested_at = for_admin admin dto.ingested_at;
    ingested_by_service = for_admin admin dto.ingested_by_service;
    ingest_notes = for_admin admin dto.ingest_notes;
  };
  archive = record { is_archived = false; archived_at = none; archived_by = none };
  created_by_user_id = some user;
  last_edited_by_user_id = some user;
  primary_city_id = primary_city dto.cities;
}

-- A row for each of a list, by its place.
abbrev rows_from {ℓ κ} : {A : Type ℓ} {B : Type κ} → (ℕ → A → B) → ℕ → List A → List B
rows_from make index [] = []
rows_from make index (a ∷ rest) = make index a ∷ rows_from make (suc index) rest

abbrev with_rows_of : NewIds → String → CreateDto → Related → Related
with_rows_of ids listing dto related = record {
  categories =
      related.categories
      ++ rows_from
          (λ index (c : CategoryReference). record {
            id = ids.categories index;
            listing_id = listing;
            category_id = c.category_id;
          })
          0 (or_else dto.categories []);
  cities =
      related.cities
      ++ rows_from
          (λ index (c : CityReference). record {
            id = ids.cities index;
            listing_id = listing;
            city_id = c.city_id;
            is_primary = or_else c.is_primary (index == 0);
            display_order = or_else c.display_order index;
          })
          0 (or_else dto.cities []);
  time_intervals =
      related.time_intervals
      ++ rows_from
          (λ index input.
            interval_row ids.time_intervals listing (ids.time_intervals index) listing input)
          0 (or_else dto.time_intervals []);
  time_interval_exceptions =
      related.time_interval_exceptions
      ++ rows_from
          (λ index input.
            exception_row ids.time_interval_exceptions listing (ids.time_interval_exceptions index)
              listing input)
          0 (or_else dto.time_interval_exceptions []);
}

-- The schema's unique keys: a listing has a city, and a category, once.
abbrev violates_keys : CreateDto → Bool
violates_keys dto =
    has_twice (map CategoryReference.category_id (or_else dto.categories []))
    || has_twice (map CityReference.city_id (or_else dto.cities []))

-- `this.slugify(dto.title) || this.slugify(...)`
abbrev base_slug : String → ℕ → String
base_slug title now =
    if truthy (some (slugify title))
    then slugify title
    else slugify (text_append "listing-" (decimal now))

module _ {S : Type 0} (table : Table S Listing) where
  unfoldable pub add_related : NewIds → CreateDto → Listing → Action (Store S) Listing
  add_related ids dto listing s =
      (returned listing, record s { related = with_rows_of ids listing.id dto s.related })

  -- `prisma.listing.create` with the nested rows: all of them, or none.
  unfoldable pub insert_listing : NewIds → CreateDto → Listing → Action (Store S) Listing
  insert_listing ids dto row =
      if violates_keys dto
      then throw (failure "P2002")
      else on_listings (table.create row) >>= add_related ids dto

  unfoldable pub create_listing :
      ℕ → NewIds → String → String → List UserRole → ℕ → CreateDto → Action (Store S) Listing
  create_listing fuel ids id user roles now dto =
      query (λ s.
        ensure_unique_slug table Listing.slug Listing.id fuel (base_slug dto.content.title now) none
          s.db)
      >>= λ slug. insert_listing ids dto (created (is_admin roles) id user slug dto)
