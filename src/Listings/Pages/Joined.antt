-- ===== src/Listings/Pages/Joined.antt =====
-- apps/core/src/modules/listings/listings.service.ts: the bounds of a page of `listListings`, and what
-- all the pages hold together.
use heidi_microservices.Common.{
  ℕ, ◌≡◌, Bool, Option, List, map, String, length, length-map, select, or_else, truthy, includes,
  ◌&&◌,
}
use heidi_microservices.Paging.{page_rows, sort_field}
use heidi_microservices.Paging.Joined.{IsBounded, page_rows-IsBounded}
use heidi_microservices.Paging.Ordered.{earlier}
use heidi_microservices.Listings.{Listing}
use heidi_microservices.Listings.Update.{Related}
use heidi_microservices.Listings.Favorites.{UserFavorite, get_favorite_listing_ids}
use heidi_microservices.Listings.Pages.Filter.{ListingFilter, build_listing_where}
use heidi_microservices.Listings.Pages.{
  sort_fields, ListingPage, sorted, with_favorites, list_listings,
}

length-with_favorites :
    (user : Option String) (favorites : List UserFavorite) (rows : List Listing)
    → length (with_favorites user favorites rows) ≡ length rows
length-with_favorites user favorites rows =
    length-map
      (λ r. (
        r,
        truthy user
            && includes (get_favorite_listing_ids (or_else user "") (map Listing.id rows) favorites)
                r.id,
      ))
      rows

module _ (order_by : String → String → List Listing → List Listing)
    (contains : String → String → Bool) where
  abbrev pub listings_of : ListingPage → List Listing
  listings_of p = map (λ i. i.0) p.items

  -- Whatever page and size a request asks for, the page has a number from 1, a size from 1 to 100 and no
  -- more items than that, and there are enough pages for all the listings, at least one.
  pub list_listings-IsBounded :
      (filter : ListingFilter) (user : Option String) (favorites : List UserFavorite)
      (related : Related) (rows : List Listing)
      → let p = list_listings order_by contains filter user favorites related rows in
        IsBounded p.page p.page_size (length p.items) p.total p.total_pages
  unfolding list_listings
  list_listings-IsBounded filter user favorites related rows =
      let all = sorted order_by contains filter related rows in
      rw (length-with_favorites user favorites (page_rows filter.page filter.page_size all)) (
        page_rows-IsBounded filter.page filter.page_size all
          (length (select (build_listing_where contains filter related) rows)))

-- The listings that the filter selects.
abbrev pub selected :
    (String → String → Bool) → ListingFilter → Related → List Listing → List Listing
selected contains filter related rows = select (build_listing_where contains filter related) rows

-- A listing stands before another in the order that the filter asks for, with the values of the columns.
abbrev pub asked_order : (String → Listing → Option ℕ) → ListingFilter → Listing → Listing → Bool
asked_order column filter =
    earlier (column (sort_field sort_fields "createdAt" filter.sort_by))
      (or_else filter.sort_direction "desc")
