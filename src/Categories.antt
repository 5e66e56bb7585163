-- ===== src/Categories.antt =====
-- apps/core/src/modules/categories/categories.service.ts: the rows, and the categories that towns offer
-- or ask for. A table is the list of its rows; `fresh` is the identifier of a new one. The type of a
-- category is its text; the files of its image and its icon are left out.
pub mod Editing
pub mod Hierarchy
pub mod Offers
pub mod Removal
mod Tests
use heidi_microservices.Common.{
  set_or_keep, ℕ, Bool, true, false, ◌&&◌, ◌||◌, not, Option, none, some, List, [], ◌∷◌, ◌++◌, map,
  String, str_eq, any, select, or_else, truthy, if◌then◌else◌,
}
use heidi_microservices.Common.Outcome.{Outcome, returned, thrown, unfinished, failure, not_found}
use heidi_microservices.Common.Action.{Action, ◌>>=◌, ◌>>◌, pure, throw, continue}
pub use heidi_microservices.Database.{find_row, update_rows}
use heidi_microservices.Listings.{ListingCategory}

pub record Category : Type 0 where
  pub id : String
  pub name : String
  pub slug : String
  pub description : Option String
  pub subtitle : Option String
  pub type : Option String
  pub parent_id : Option String
  pub is_active : Bool
  pub header_background_color : Option String
  pub content_background_color : Option String

pub record CityCategory : Type 0 where
  pub id : String
  pub city_id : String
  pub category_id : String
  pub display_name : Option String
  pub display_order : ℕ
  pub header_background_color : Option String
  pub content_background_color : Option String
  pub is_active : Bool
  pub added_by : Option String
  pub added_at : ℕ

pub data RequestStatus : Type 0 where
  pending approved rejected : RequestStatus

pub record CategoryRequest : Type 0 where
  pub id : String
  pub city_id : String
  pub category_id : String
  pub status : RequestStatus
  pub requested_by : String
  pub requested_at : ℕ
  pub handled_by : Option String
  pub handled_at : Option ℕ
  pub notes : Option String

pub record CategoryStore : Type 0 where
  pub categories : List Category
  pub city_categories : List CityCategory
  pub requests : List CategoryRequest
  pub listing_categories : List ListingCategory

abbrev pub status_is : RequestStatus → RequestStatus → Bool
status_is RequestStatus.pending RequestStatus.pending = true
status_is RequestStatus.approved RequestStatus.approved = true
status_is RequestStatus.rejected RequestStatus.rejected = true
status_is _ _ = false

-- `where: { cityId_categoryId: { cityId, categoryId } }`
abbrev pub is_mapping : String → String → CityCategory → Bool
is_mapping city category r = str_eq r.city_id city && str_eq r.category_id category

abbrev pub reassigned : String → ℕ → Option String → CityCategory → CityCategory
reassigned by now display_name r = record r {
  is_active = true;
  added_by = some by;
  added_at = now;
  display_name = set_or_keep display_name r.display_name;
}

abbrev pub new_mapping : String → ℕ → String → String → String → Option String → CityCategory
new_mapping fresh now city category by display_name = record {
  id = fresh;
  city_id = city;
  category_id = category;
  display_name = display_name;
  display_order = 0;
  header_background_color = none;
  content_background_color = none;
  is_active = true;
  added_by = some by;
  added_at = now;
}

-- The rows after the upsert of `assignCategoryToCity`.
abbrev pub assigned_rows :
    String → ℕ → String → String → String → Option String → List CityCategory → List CityCategory
assigned_rows fresh now city category by display_name rows =
    if any (is_mapping city category) rows
    then update_rows (is_mapping city category) (reassigned by now display_name) rows
    else rows ++ new_mapping fresh now city category by display_name ∷ []

abbrev pub has_category : String → CategoryStore → Bool
has_category id s = any (λ c. str_eq c.id id) s.categories

-- A row of a category that does not exist violates the foreign key.
unfoldable pub assign_category_to_city :
    String → ℕ → String → String → String → Option String → Action CategoryStore (Unit {0})
assign_category_to_city fresh now city category by display_name s =
    if any (is_mapping city category) s.city_categories || has_category category s
    then (
      returned tt,
      record s {
        city_categories = assigned_rows fresh now city category by display_name s.city_categories;
      },
    )
    else (thrown (failure "P2003"), s)

abbrev pub inactive : CityCategory → CityCategory
inactive r = record r { is_active = false }

remove_found : String → String → Option CityCategory → Action CategoryStore CityCategory
remove_found city category none s = (thrown (not_found "CITY_CATEGORY_MAPPING_NOT_FOUND"), s)
remove_found city category (some existing) s =
    if not existing.is_active then (returned existing, s) else (
      returned (inactive existing),
      record s {
        city_categories = update_rows (is_mapping city category) inactive s.city_categories;
      },
    )

pub remove_category_from_city : String → String → Action CategoryStore CityCategory
remove_category_from_city city category s =
    remove_found city category (find_row (is_mapping city category) s.city_categories) s

-- The schema's key of a request: city, category, who asks, and the status.
abbrev pub has_key : String → String → String → RequestStatus → CategoryRequest → Bool
has_key city category by status r =
    str_eq r.city_id city
    && (str_eq r.category_id category && (str_eq r.requested_by by && status_is r.status status))

request_found :
    String
    → ℕ
    → String
    → String
    → String
    → Option String
    → Option CategoryRequest
    → Action CategoryStore CategoryRequest
request_found fresh now city category by notes (some r) s =
    let noted : CategoryRequest = record r { notes = set_or_keep notes r.notes } in
    (
      returned noted,
      record s {
        requests =
            update_rows (has_key city category by RequestStatus.pending)
              (λ q. record q { notes = set_or_keep notes q.notes }) s.requests;
      },
    )
request_found fresh now city category by notes none s =
    let row : CategoryRequest = record {
      id = fresh;
      city_id = city;
      category_id = category;
      status = RequestStatus.pending;
      requested_by = by;
      requested_at = now;
      handled_by = none;
      handled_at = none;
      notes = notes;
    } in
    if has_category category s
    then (returned row, record s { requests = s.requests ++ row ∷ [] })
    else (thrown (failure "P2003"), s)

pub request_city_category :
    String → ℕ → String → String → String → Option String → Action CategoryStore CategoryRequest
request_city_category fresh now city category by notes s =
    request_found fresh now city category by notes
      (find_row (has_key city category by RequestStatus.pending) s.requests) s

abbrev pub handled : RequestStatus → String → ℕ → Option String → CategoryRequest → CategoryRequest
handled status by now notes r = record r {
  status = status;
  handled_by = some by;
  handled_at = some now;
  notes = set_or_keep notes r.notes;
}

-- Another request that has the key which this one is to get.
abbrev pub is_rival : CategoryRequest → RequestStatus → CategoryRequest → Bool
is_rival r status q =
    not (str_eq q.id r.id) && has_key r.city_id r.category_id r.requested_by status q

unfoldable pub update_request :
    RequestStatus
    → String
    → ℕ
    → Option String
    → Option CategoryRequest
    → Action CategoryStore CategoryRequest
update_request status by now notes none s = (thrown (failure "P2025"), s)
update_request status by now notes (some r) s =
    if any (is_rival r status) s.requests then (thrown (failure "P2002"), s) else (
      returned (handled status by now notes r),
      record s {
        requests = update_rows (λ q. str_eq q.id r.id) (handled status by now notes) s.requests;
      },
    )

unfoldable pub offer_if_approved :
    String → ℕ → RequestStatus → String → CategoryRequest → Action CategoryStore CategoryRequest
offer_if_approved fresh now RequestStatus.approved by r =
    assign_category_to_city fresh now r.city_id r.category_id by none >> pure r
offer_if_approved fresh now RequestStatus.pending by r = pure r
offer_if_approved fresh now RequestStatus.rejected by r = pure r

unfoldable pub handle_category_request :
    String
    → ℕ
    → String
    → RequestStatus
    → String
    → Option String
    → Action CategoryStore CategoryRequest
handle_category_request fresh now id status by notes =
    (λ s. update_request status by now notes (find_row (λ q. str_eq q.id id) s.requests) s)
    >>= offer_if_approved fresh now status by

-- `listCategoryRequests`, before its order.
abbrev pub list_category_requests :
    Option String → Option RequestStatus → CategoryStore → List CategoryRequest
list_category_requests city status s =
    select
      (λ r.
        (if truthy city then str_eq r.city_id (or_else city "") else true)
        && (elim status [ none ↦ true | some wanted ↦ status_is r.status wanted ]))
      s.requests
