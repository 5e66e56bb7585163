-- ===== src/Listings/Pages/Filter.antt =====
-- apps/core/src/modules/listings/listings.service.ts: `buildListingWhere`, as the test that the
-- database makes of a listing and the rows that belong to it.
use heidi_microservices.Common.{
  ◌≡◌, refl, ℕ, Bool, true, false, ◌&&◌, ◌||◌, Option, none, some, List, String, str_eq, any,
  includes, truthy, or_else, leb, if◌then◌else◌,
}
use heidi_microservices.Paging.Conditions.{
  flag_eq, asked, asked_any, in_list, in_range, asked_range,
}
use heidi_microservices.Slugs.{strip, space}
use heidi_microservices.Listings.{Listing, ListingStatus, ModerationStatus, Visibility, SourceType}
use heidi_microservices.Listings.Sync.{TimeInterval}
use heidi_microservices.Listings.Update.{Related}

pub record ListingFilter : Type 0 where
  pub search : Option String
  pub city_ids : Option (List String)
  pub category_ids : Option (List String)
  pub status : Option ListingStatus
  pub moderation_status : Option ModerationStatus
  pub visibility : Option Visibility
  pub source_type : Option SourceType
  pub is_featured : Option Bool
  pub language_codes : Option (List String)
  pub publish_after : Option ℕ
  pub publish_before : Option ℕ
  pub upcoming_after : Option ℕ
  pub upcoming_before : Option ℕ
  pub sort_by : Option String
  pub sort_direction : Option String
  pub page : Option ℕ
  pub page_size : Option ℕ

-- The request for the page of a number.
abbrev pub on_page : ListingFilter → ℕ → ListingFilter
on_page filter n = record filter { page = some n }

abbrev status_eq : ListingStatus → ListingStatus → Bool
status_eq ListingStatus.pending ListingStatus.pending = true
status_eq ListingStatus.approved ListingStatus.approved = true
status_eq ListingStatus.rejected ListingStatus.rejected = true
status_eq ListingStatus.deleted ListingStatus.deleted = true
status_eq _ _ = false

abbrev moderation_eq : ModerationStatus → ModerationStatus → Bool
moderation_eq ModerationStatus.pending ModerationStatus.pending = true
moderation_eq ModerationStatus.approved ModerationStatus.approved = true
moderation_eq ModerationStatus.changes_requested ModerationStatus.changes_requested = true
moderation_eq ModerationStatus.rejected ModerationStatus.rejected = true
moderation_eq ModerationStatus.archived ModerationStatus.archived = true
moderation_eq _ _ = false

abbrev visibility_eq : Visibility → Visibility → Bool
visibility_eq Visibility.public Visibility.public = true
visibility_eq Visibility.city_only Visibility.city_only = true
visibility_eq Visibility.private_only Visibility.private_only = true
visibility_eq _ _ = false

abbrev source_eq : SourceType → SourceType → Bool
source_eq SourceType.manual SourceType.manual = true
source_eq SourceType.scraper SourceType.scraper = true
source_eq SourceType.integration SourceType.integration = true
source_eq SourceType.api_import SourceType.api_import = true
source_eq _ _ = false

module _ (contains : String → String → Bool) where
  -- `mode: 'insensitive'` on three columns.
  abbrev found_in : String → Listing → Bool
  found_in term r =
      contains term r.content.title
      || (elim r.content.summary [ none ↦ false | some text ↦ contains term text ]
          || contains term r.content.content)

  abbrev matches_search : Option String → Listing → Bool
  matches_search search r =
      if truthy search then found_in (strip space (or_else search "")) r else true

  -- One interval of the listing that has not ended before the range, nor starts after it.
  abbrev has_interval : Option ℕ → Option ℕ → Listing → List TimeInterval → Bool
  has_interval after before r intervals =
      any
        (λ i.
          str_eq i.listing_id r.id
          && (asked after (λ t. leb t i.end) && asked before (λ t. leb i.start t)))
        intervals

  abbrev is_upcoming : Related → Listing → Option ℕ → Option ℕ → Bool
  is_upcoming related r after before =
      in_range after before r.content.event_start
      || has_interval after before r related.time_intervals

  abbrev in_cities : Related → Listing → List String → Bool
  in_cities related r ids =
      any (λ c. str_eq c.listing_id r.id && includes ids c.city_id) related.cities

  abbrev in_categories : Related → Listing → List String → Bool
  in_categories related r ids =
      any (λ c. str_eq c.listing_id r.id && includes ids c.category_id) related.categories

  unfoldable pub build_listing_where : ListingFilter → Related → Listing → Bool
  build_listing_where f related r =
      matches_search f.search r
      && (asked f.status (status_eq r.review.status)
          && (asked f.moderation_status (moderation_eq r.review.moderation_status)
              && (asked f.visibility (visibility_eq r.promotion.visibility)
                  && (asked f.source_type (source_eq r.origin.source_type)
                      && (asked f.is_featured (flag_eq r.promotion.is_featured)
                          && (asked_any f.language_codes (in_list r.content.language_code)
                              && (asked_any f.city_ids (in_cities related r)
                                  && (asked_any f.category_ids (in_categories related r)
                                      && (asked_range f.publish_after f.publish_before
                                            (λ after before.
                                              in_range after before r.promotion.publish_at)
                                          && asked_range f.upcoming_after f.upcoming_before
                                              (is_upcoming related r))))))))))

  pub build_listing_where-on_page :
      (f : ListingFilter) (n : ℕ) (related : Related)
      → build_listing_where (on_page f n) related ≡ build_listing_where f related
  unfolding build_listing_where
  build_listing_where-on_page f n related = refl
