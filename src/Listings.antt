-- ===== src/Listings.antt =====
-- apps/core/src/modules/listings/listings.service.ts: the rows and the requests. The columns of a
-- listing stand in groups, by who may set them; its counters and its picture, which the modelled
-- methods do not write, are left out. Dates are milliseconds since the epoch, JSON and decimals texts.
pub mod Sync
pub mod Patches
pub mod Update
pub mod Moderation
pub mod Create
pub mod Favorites
pub mod Pages
mod Samples
mod Tests
use heidi_microservices.Common.{
  ℕ, Bool, true, false, ◌||◌, Option, none, some, List, [], ◌∷◌, String, str_eq, any, if◌then◌else◌,
}
use heidi_microservices.Common.Outcome.{Outcome, returned, thrown, unfinished}
pub use heidi_microservices.Common.Action.{Action, settled, transaction}
use heidi_microservices.Rbac.Roles.{UserRole, super_admin, city_admin, role_eq}
use heidi_microservices.Database.{Table}

pub data ListingStatus : Type 0 where
  pending approved rejected deleted : ListingStatus

pub data ModerationStatus : Type 0 where
  pending approved changes_requested rejected archived : ModerationStatus

pub data Visibility : Type 0 where
  public city_only private_only : Visibility

pub data SourceType : Type 0 where
  manual scraper integration api_import : SourceType

-- What the author of a listing may write.
pub record Content : Type 0 where
  pub title : String
  pub summary : Option String
  pub content : String
  pub language_code : Option String
  pub source_url : Option String
  pub metadata : Option String
  pub venue_name : Option String
  pub address : Option String
  pub geo_lat : Option String
  pub geo_lng : Option String
  pub timezone : Option String
  pub contact_phone : Option String
  pub contact_email : Option String
  pub website : Option String
  pub event_start : Option ℕ
  pub event_end : Option ℕ
  pub is_all_day : Bool
  pub organizer_name : Option String
  pub organizer_contact : Option String
  pub registration_url : Option String

pub record Promotion : Type 0 where
  pub visibility : Visibility
  pub is_featured : Bool
  pub featured_until : Option ℕ
  pub publish_at : Option ℕ
  pub expire_at : Option ℕ

pub record Review : Type 0 where
  pub status : ListingStatus
  pub moderation_status : ModerationStatus
  pub reviewed_by : Option String
  pub reviewed_at : Option ℕ
  pub review_notes : Option String

pub record Origin : Type 0 where
  pub source_type : SourceType
  pub external_source : Option String
  pub external_id : Option String
  pub sync_hash : Option String
  pub content_checksum : Option String
  pub last_synced_at : Option ℕ
  pub ingested_at : Option ℕ
  pub ingested_by_service : Option String
  pub ingest_notes : Option String

pub record Archive : Type 0 where
  pub is_archived : Bool
  pub archived_at : Option ℕ
  pub archived_by : Option String

pub record Listing : Type 0 where
  pub id : String
  pub slug : String
  pub content : Content
  pub promotion : Promotion
  pub review : Review
  pub origin : Origin
  pub archive : Archive
  pub created_by_user_id : Option String
  pub last_edited_by_user_id : Option String
  pub primary_city_id : Option String

pub record CityReference : Type 0 where
  pub id : Option String
  pub city_id : String
  pub is_primary : Option Bool
  pub display_order : Option ℕ

pub record CategoryReference : Type 0 where
  pub id : Option String
  pub category_id : String

pub record ListingCity : Type 0 where
  pub id : String
  pub listing_id : String
  pub city_id : String
  pub is_primary : Bool
  pub display_order : ℕ

pub record ListingCategory : Type 0 where
  pub id : String
  pub listing_id : String
  pub category_id : String

abbrev pub is_admin : List UserRole → Bool
is_admin roles = any (role_eq super_admin) roles || any (role_eq city_admin) roles

abbrev pub with_id : String → Listing → Bool
with_id id r = str_eq r.id id

-- `dto.cities?.find((city) => city.isPrimary)`
abbrev pub marked_city : List CityReference → Option CityReference
marked_city [] = none
marked_city (c ∷ rest) = elim c.is_primary [
  | none ↦ marked_city rest
  | some b ↦ if b then some c else marked_city rest
]

-- `primaryCity?.cityId`: the marked city, or else the first.
abbrev pub primary_city : Option (List CityReference) → Option String
primary_city none = none
primary_city (some []) = none
primary_city (some (c ∷ rest)) = elim (marked_city (c ∷ rest)) [
  | none ↦ some c.city_id
  | some m ↦ some m.city_id
]
