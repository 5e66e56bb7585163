-- ===== src/Listings/Sync.antt =====
-- apps/core/src/modules/listings/listings.service.ts: the rows that belong to a listing, which an
-- update replaces. A new row has the identifier that `ids` gives for its place in the request.
pub mod Keyed
use heidi_microservices.Common.{
  set_or_keep, ℕ, suc, ◌==◌, Bool, false, not, ◌&&◌, ◌||◌, Option, none, some, List, [], ◌∷◌, ◌++◌,
  map, String, str_eq, any, select, includes, truthy, or_else, if◌then◌else◌,
}
use heidi_microservices.Common.Outcome.{Outcome, returned, thrown, failure, ◌>>=◌}
use heidi_microservices.Listings.{CityReference, CategoryReference, ListingCity, ListingCategory}

pub data Frequency : Type 0 where
  once daily weekly monthly yearly : Frequency

pub record TimeInterval : Type 0 where
  pub id : String
  pub listing_id : String
  pub weekdays : List String
  pub start : ℕ
  pub end : ℕ
  pub tz : String
  pub freq : Frequency
  pub interval : ℕ
  pub repeat_until : Option ℕ
  pub metadata : Option String

pub record TimeIntervalInput : Type 0 where
  pub id : Option String
  pub weekdays : Option (List String)
  pub start : ℕ
  pub end : ℕ
  pub tz : String
  pub freq : Option Frequency
  pub interval : Option ℕ
  pub repeat_until : Option ℕ
  pub metadata : Option String

pub record IntervalException : Type 0 where
  pub id : String
  pub listing_id : String
  pub date : ℕ
  pub opens_at : Option String
  pub closes_at : Option String
  pub is_closed : Bool
  pub metadata : Option String

pub record IntervalExceptionInput : Type 0 where
  pub id : Option String
  pub date : ℕ
  pub opens_at : Option String
  pub closes_at : Option String
  pub is_closed : Option Bool
  pub metadata : Option String

-- `id: category.id ?? undefined` of a new row: an empty one is left out.
abbrev pub given_or : Option String → String → String
given_or given fresh = if truthy given then or_else given fresh else fresh

-- Rows that are known by the listing and a key: an upsert for each of the request, after the others
-- are deleted.
module _ {Row Input : Type 0} (listing_of key_of : Row → String) (asked_key : Input → String)
    (change : ℕ → Input → Row → Row) (make : ℕ → Input → Row) (listing : String) where
  abbrev pub is_keyed : String → Row → Bool
  is_keyed key r = str_eq (listing_of r) listing && str_eq (key_of r) key

  abbrev pub upsert_row : ℕ → Input → List Row → List Row
  upsert_row index input rows =
      if any (is_keyed (asked_key input)) rows
      then map (λ r. if is_keyed (asked_key input) r then change index input r else r) rows
      else rows ++ make index input ∷ []

  pub upsert_rows : ℕ → List Input → List Row → List Row
  upsert_rows index [] rows = rows
  upsert_rows index (input ∷ rest) rows = upsert_rows (suc index) rest (upsert_row index input rows)

  abbrev pub stays_keyed : List String → Row → Bool
  stays_keyed keys r = not (str_eq (listing_of r) listing) || includes keys (key_of r)

  unfoldable pub sync_keyed : Option (List Input) → List Row → List Row
  unfolding upsert_rows
  sync_keyed none rows = rows
  sync_keyed (some []) rows = select (λ r. not (str_eq (listing_of r) listing)) rows
  sync_keyed (some (input ∷ rest)) rows =
      upsert_rows 0 (input ∷ rest) (select (stays_keyed (map asked_key (input ∷ rest))) rows)

-- Rows that are known by their identifier: an input with one updates that row, whatever listing it
-- belongs to, and an update of no row throws; an input without one makes a row.
module _ {Row Input : Type 0} (id_of listing_of : Row → String) (given_id : Input → Option String)
    (change : ℕ → Input → Row → Row) (make : ℕ → Input → Row) (listing : String) where
  abbrev pub given_ids : List Input → List String
  given_ids [] = []
  given_ids (input ∷ rest) =
      if truthy (given_id input)
      then or_else (given_id input) "" ∷ given_ids rest
      else given_ids rest

  abbrev pub has_id : String → Row → Bool
  has_id id r = str_eq (id_of r) id

  abbrev pub write_row : ℕ → Input → List Row → Outcome (List Row)
  write_row index input rows =
      if truthy (given_id input)
      then (if any (has_id (or_else (given_id input) "")) rows
          then returned (
              map (λ r. if has_id (or_else (given_id input) "") r then change index input r else r)
                rows)
          else thrown (failure "P2025"))
      else returned (rows ++ make index input ∷ [])

  pub write_rows : ℕ → List Input → List Row → Outcome (List Row)
  write_rows index [] rows = returned rows
  write_rows index (input ∷ rest) rows = write_row index input rows >>= write_rows (suc index) rest

  -- `deleteMany`: the rows of the listing that the request does not name.
  abbrev pub stays_named : List String → Row → Bool
  stays_named ids r = not (str_eq (listing_of r) listing) || includes ids (id_of r)

  unfoldable pub sync_named : Option (List Input) → List Row → Outcome (List Row)
  unfolding write_rows
  sync_named none rows = returned rows
  sync_named (some []) rows = returned (select (λ r. not (str_eq (listing_of r) listing)) rows)
  sync_named (some (input ∷ rest)) rows =
      write_rows 0 (input ∷ rest) (select (stays_named (given_ids (input ∷ rest))) rows)

module _ (ids : ℕ → String) (listing : String) where
  unfoldable pub sync_listing_categories :
      Option (List CategoryReference) → List ListingCategory → List ListingCategory
  unfolding sync_keyed
  sync_listing_categories =
      sync_keyed ListingCategory.listing_id ListingCategory.category_id
        CategoryReference.category_id (λ index input r. r)
        (λ index input. record {
          id = given_or input.id (ids index);
          listing_id = listing;
          category_id = input.category_id;
        })
        listing

  unfoldable pub sync_listing_cities :
      Option (List CityReference) → List ListingCity → List ListingCity
  unfolding sync_keyed
  sync_listing_cities =
      sync_keyed ListingCity.listing_id ListingCity.city_id CityReference.city_id
        (λ index input r. record r {
          is_primary = or_else input.is_primary (index == 0);
          display_order = or_else input.display_order index;
        })
        (λ index input. record {
          id = given_or input.id (ids index);
          listing_id = listing;
          city_id = input.city_id;
          is_primary = or_else input.is_primary (index == 0);
          display_order = or_else input.display_order index;
        })
        listing

  abbrev pub interval_row : String → String → TimeIntervalInput → TimeInterval
  interval_row id owner input = record {
    id = id;
    listing_id = owner;
    weekdays = or_else input.weekdays [];
    start = input.start;
    end = input.end;
    tz = input.tz;
    freq = or_else input.freq once;
    interval = or_else input.interval 1;
    repeat_until = input.repeat_until;
    metadata = input.metadata;
  }

  unfoldable pub sync_listing_time_intervals :
      Option (List TimeIntervalInput) → List TimeInterval → Outcome (List TimeInterval)
  unfolding sync_named
  sync_listing_time_intervals =
      sync_named TimeInterval.id TimeInterval.listing_id TimeIntervalInput.id
        (λ index input r. record (interval_row r.id r.listing_id input) {
          metadata = set_or_keep input.metadata r.metadata;
        })
        (λ index input. interval_row (ids index) listing input) listing

  abbrev pub exception_row : String → String → IntervalExceptionInput → IntervalException
  exception_row id owner input = record {
    id = id;
    listing_id = owner;
    date = input.date;
    opens_at = input.opens_at;
    closes_at = input.closes_at;
    is_closed = or_else input.is_closed false;
    metadata = input.metadata;
  }

  unfoldable pub sync_listing_time_interval_exceptions :
      Option (List IntervalExceptionInput)
      → List IntervalException
      → Outcome (List IntervalException)
  unfolding sync_named
  sync_listing_time_interval_exceptions =
      sync_named IntervalException.id IntervalException.listing_id IntervalExceptionInput.id
        (λ index input r. record (exception_row r.id r.listing_id input) {
          opens_at = set_or_keep input.opens_at r.opens_at;
          closes_at = set_or_keep input.closes_at r.closes_at;
          metadata = set_or_keep input.metadata r.metadata;
        })
        (λ index input. exception_row (ids index) listing input) listing
