-- ===== src/Listings/Favorites.antt =====
-- apps/core/src/modules/listings/listings.service.ts: the listings that a user keeps as favourites.
-- The table of favourites is the list of its rows, in the order in which they were made.
pub mod Kept
pub mod Laws
use heidi_microservices.Common.{
  ℕ, Bool, true, false, ◌&&◌, not, Option, none, some, List, [], ◌∷◌, ◌++◌, map, String, str_eq,
  any, select, includes, truthy, or_else, if◌then◌else◌,
}
use heidi_microservices.Common.Outcome.{
  Outcome, returned, thrown, unfinished, Exception, failure, not_found, bad_request,
}
use heidi_microservices.Common.Action.{Action, ◌>>=◌, ◌>>◌, pure, throw, query, continue}
use heidi_microservices.Database.{Table}
use heidi_microservices.Listings.{Listing, with_id}

pub record UserFavorite : Type 0 where
  pub id : String
  pub user_id : String
  pub listing_id : String
  pub created_at : ℕ

-- `where: { userId_listingId: { userId, listingId } }`
abbrev pub is_favorite_of : String → String → UserFavorite → Bool
is_favorite_of user listing f = str_eq f.user_id user && str_eq f.listing_id listing

abbrev pub find_favorite : String → String → List UserFavorite → Option UserFavorite
find_favorite user listing [] = none
find_favorite user listing (f ∷ rest) =
    if is_favorite_of user listing f then some f else find_favorite user listing rest

-- The identifiers of those of the listings that the user keeps.
abbrev pub get_favorite_listing_ids : String → List String → List UserFavorite → List String
get_favorite_listing_ids user [] rows = []
get_favorite_listing_ids user (id ∷ ids) rows =
    map UserFavorite.listing_id
      (select (λ f. str_eq f.user_id user && includes (id ∷ ids) f.listing_id) rows)

-- What the methods answer: the favourite with its listing, or that it is gone.
pub data FavoriteAnswer : Type 0 where
  added : UserFavorite → Listing → FavoriteAnswer
  removed : FavoriteAnswer

pub record Shelf (S : Type 0) : Type 0 where
  pub db : S
  pub favorites : List UserFavorite

-- `if (error.code === 'P2002')` of the `catch`.
abbrev as_refusal : Exception → Exception
as_refusal (failure code) =
    if str_eq code "P2002" then bad_request "Listing already in favorites" else failure code
as_refusal e = e

abbrev pub refused : {S A : Type 0} → Outcome A × S → Outcome A × S
refused (returned a, s) = (returned a, s)
refused (thrown e, s) = (thrown (as_refusal e), s)
refused (unfinished, s) = (unfinished, s)

module _ {S : Type 0} (table : Table S Listing) where
  unfoldable pub required : Option Listing → Action (Shelf S) Listing
  required none = throw (not_found "Listing not found")
  required (some listing) = pure listing

  abbrev pub require_listing : (Listing → Bool) → Action (Shelf S) Listing
  unfolding required
  require_listing p = query (λ s. table.find p s.db) >>= required

  -- `upsert` with an empty update.
  kept_or_made : ℕ → String → String → String → Option UserFavorite → Action (Shelf S) UserFavorite
  kept_or_made now fresh user listing (some f) s = (returned f, s)
  kept_or_made now fresh user listing none s =
      let row : UserFavorite = record {
        id = fresh;
        user_id = user;
        listing_id = listing;
        created_at = now;
      } in
      (returned row, record s { favorites = s.favorites ++ row ∷ [] })

  upsert_favorite : ℕ → String → String → String → Action (Shelf S) UserFavorite
  upsert_favorite now fresh user listing s =
      kept_or_made now fresh user listing (find_favorite user listing s.favorites) s

  unfoldable pub delete_found :
      String → String → Option UserFavorite → Action (Shelf S) FavoriteAnswer
  delete_found user listing none s = (thrown (not_found "Favorite not found"), s)
  delete_found user listing (some f) s = (
    returned removed,
    record s { favorites = select (λ g. not (is_favorite_of user listing g)) s.favorites },
  )

  unfoldable pub remove_favorite : String → String → Action (Shelf S) FavoriteAnswer
  remove_favorite user listing s =
      delete_found user listing (find_favorite user listing s.favorites) s

  pub add_to : ℕ → String → String → String → Listing → Action (Shelf S) FavoriteAnswer
  add_to now fresh user id listing =
      upsert_favorite now fresh user id >>= λ f. pure (added f listing)

  pub add_favorite : ℕ → String → String → String → Action (Shelf S) FavoriteAnswer
  add_favorite now fresh user id s =
      refused ((require_listing (with_id id) >>= add_to now fresh user id) s)

  unfoldable pub toggle_found :
      ℕ → String → String → String → Bool → Listing → Action (Shelf S) FavoriteAnswer
  toggle_found now fresh user id true listing = add_to now fresh user id listing
  toggle_found now fresh user id false listing = remove_favorite user id

  unfoldable pub toggle_favorite :
      ℕ → String → String → String → Bool → Action (Shelf S) FavoriteAnswer
  toggle_favorite now fresh user id is_favorite s =
      refused ((require_listing (with_id id) >>= toggle_found now fresh user id is_favorite) s)

  -- Whether the listing is a favourite of the user who asks, if one asks.
  abbrev with_favorite : Option String → Listing → Action (Shelf S) (Listing × Bool)
  with_favorite user listing s = (
    returned (
      listing,
      truthy user
          && includes (get_favorite_listing_ids (or_else user "") (listing.id ∷ []) s.favorites)
              listing.id,
    ),
    s,
  )

  pub get_listing_by_id : String → Option String → Action (Shelf S) (Listing × Bool)
  get_listing_by_id id user = require_listing (with_id id) >>= with_favorite user

  pub get_listing_by_slug : String → Option String → Action (Shelf S) (Listing × Bool)
  get_listing_by_slug slug user = require_listing (λ r. str_eq r.slug slug) >>= with_favorite user
