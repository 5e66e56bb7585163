-- ===== src/Listings/Pages.antt =====
-- apps/core/src/modules/listings/listings.service.ts: `listListings`.
pub mod Filter
pub mod Joined
use heidi_microservices.Common.{
  ℕ, zero, suc, ◌+◌, ◌-◌, ◌*◌, ◌/◌, Bool, true, false, ◌&&◌, Option, none, some, List, [], ◌∷◌, map,
  String, truthy, or_else, includes, select, length, take, leb, if◌then◌else◌,
}
use heidi_microservices.Paging.{positive_or, page_size, pages_of, page_rows, sort_field}
use heidi_microservices.Listings.{Listing}
use heidi_microservices.Listings.Update.{Related}
use heidi_microservices.Listings.Favorites.{UserFavorite, get_favorite_listing_ids}
use heidi_microservices.Listings.Pages.Filter.{ListingFilter, build_listing_where}

abbrev pub sort_fields : List String
sort_fields = "createdAt" ∷ "publishAt" ∷ "eventStart" ∷ "updatedAt" ∷ "featuredUntil" ∷ []

pub record ListingPage : Type 0 where
  pub items : List (Listing × Bool)
  pub page : ℕ
  pub page_size : ℕ
  pub total : ℕ
  pub total_pages : ℕ

-- The listings of a page with the mark of the user's favourites.
abbrev pub with_favorites : Option String → List UserFavorite → List Listing → List (Listing × Bool)
with_favorites user favorites rows =
    let ids = get_favorite_listing_ids (or_else user "") (map Listing.id rows) favorites in
    map (λ (r : Listing). (r, truthy user && includes ids r.id)) rows

-- The order that the database puts rows in for one query with `orderBy` a field and a direction, where rows
-- with the same value may come in another order in the next query, and its `contains` in the mode
-- `insensitive`.
module _ (order_by : String → String → List Listing → List Listing)
    (contains : String → String → Bool) where
  -- The listings that the filter selects, in the order asked.
  abbrev pub sorted : ListingFilter → Related → List Listing → List Listing
  sorted filter related rows =
      order_by (sort_field sort_fields "createdAt" filter.sort_by)
        (or_else filter.sort_direction "desc")
        (select (build_listing_where contains filter related) rows)

  pub list_listings :
      ListingFilter → Option String → List UserFavorite → Related → List Listing → ListingPage
  list_listings filter user favorites related rows =
      let total = length (select (build_listing_where contains filter related) rows) in
      record {
        items =
            with_favorites user favorites
              (page_rows filter.page filter.page_size (sorted filter related rows));
        page = positive_or 1 filter.page;
        page_size = page_size filter.page_size;
        total = total;
        total_pages = pages_of total (page_size filter.page_size);
      }
