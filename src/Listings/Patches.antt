-- ===== src/Listings/Patches.antt =====
-- apps/core/src/modules/listings/listings.service.ts: the request of `updateListing`, the refusals that
-- it meets, and the row that it leaves.
use heidi_microservices.Common.{
  set_or_keep, ℕ, Bool, true, false, ◌||◌, Option, none, some, List, [], ◌∷◌, String, truthy,
  or_else, is_some, if◌then◌else◌,
}
use heidi_microservices.Listings.{
  Listing, ListingStatus, ModerationStatus, Visibility, SourceType, Content, Promotion, Review,
  Origin, Archive, CityReference, CategoryReference, primary_city,
}
use heidi_microservices.Listings.Sync.{TimeIntervalInput, IntervalExceptionInput}

-- A field that is absent is `none`; one that may be null is an option in it.
pub record ContentPatch : Type 0 where
  pub title : Option String
  pub summary : Option (Option String)
  pub content : Option String
  pub language_code : Option (Option String)
  pub source_url : Option (Option String)
  pub metadata : Option (Option String)
  pub venue_name : Option (Option String)
  pub address : Option (Option String)
  pub geo_lat : Option String
  pub geo_lng : Option String
  pub timezone : Option (Option String)
  pub contact_phone : Option (Option String)
  pub contact_email : Option (Option String)
  pub website : Option (Option String)
  pub event_start : Option (Option ℕ)
  pub event_end : Option (Option ℕ)
  pub is_all_day : Option Bool
  pub organizer_name : Option (Option String)
  pub organizer_contact : Option (Option String)
  pub registration_url : Option (Option String)

pub record PromotionPatch : Type 0 where
  pub is_featured : Option Bool
  pub featured_until : Option (Option ℕ)
  pub publish_at : Option (Option ℕ)
  pub expire_at : Option (Option ℕ)
  pub visibility : Option Visibility

pub record OriginPatch : Type 0 where
  pub external_source : Option (Option String)
  pub external_id : Option (Option String)
  pub sync_hash : Option (Option String)
  pub content_checksum : Option (Option String)
  pub last_synced_at : Option (Option ℕ)
  pub ingested_at : Option (Option ℕ)
  pub ingested_by_service : Option (Option String)
  pub ingest_notes : Option (Option String)
  pub source_type : Option SourceType

pub record ArchivePatch : Type 0 where
  pub is_archived : Option Bool
  pub archived_at : Option (Option ℕ)
  pub archived_by : Option (Option String)

pub record UpdateDto : Type 0 where
  pub slug : Option String
  pub content : ContentPatch
  pub promotion : PromotionPatch
  pub status : Option ListingStatus
  pub moderation_status : Option ModerationStatus
  pub review_notes : Option (Option String)
  pub origin : OriginPatch
  pub archive : ArchivePatch
  pub cities : Option (List CityReference)
  pub categories : Option (List CategoryReference)
  pub time_intervals : Option (List TimeIntervalInput)
  pub time_interval_exceptions : Option (List IntervalExceptionInput)

-- Whether a field that only admins may set is there, and the text of the refusal, in the order of the
-- tests.
abbrev pub restricted_fields : UpdateDto → List (Bool × String)
restricted_fields dto =
    (is_some dto.promotion.is_featured, "Only admins can update featured listings")
    ∷ (is_some dto.promotion.featured_until, "Only admins can set featured until date")
    ∷ (is_some dto.promotion.publish_at, "Only admins can set publishAt")
    ∷ (is_some dto.promotion.expire_at, "Only admins can set expireAt")
    ∷ (is_some dto.promotion.visibility, "Only admins can change visibility")
    ∷ (is_some dto.status, "Only admins can change status")
    ∷ (is_some dto.moderation_status, "Only admins can change moderation status")
    ∷ (is_some dto.origin.external_source, "Only admins can update external metadata")
    ∷ (is_some dto.origin.external_id, "Only admins can update external metadata")
    ∷ (is_some dto.origin.sync_hash, "Only admins can update sync hash")
    ∷ (is_some dto.origin.content_checksum, "Only admins can update content checksum")
    ∷ (is_some dto.origin.last_synced_at, "Only admins can update sync timestamps")
    ∷ (is_some dto.origin.ingested_at, "Only admins can update ingestion metadata")
    ∷ (is_some dto.origin.ingested_by_service, "Only admins can update ingestion metadata")
    ∷ (is_some dto.origin.ingest_notes, "Only admins can update ingestion metadata")
    ∷ (is_some dto.origin.source_type, "Only admins can update source type")
    ∷ (is_some dto.archive.is_archived, "Only admins can archive listings")
    ∷ (
      is_some dto.archive.archived_at || is_some dto.archive.archived_by,
      "Only admins can update archive metadata",
    )
    ∷ []

-- The text of the first field that is there.
unfoldable pub first_restricted : List (Bool × String) → Option String
first_restricted [] = none
first_restricted (field ∷ rest) =
    let later = first_restricted rest in if field.0 then some field.1 else later

abbrev pub patched_content : ContentPatch → Content → Content
patched_content p c = record {
  title = or_else p.title c.title;
  summary = or_else p.summary c.summary;
  content = or_else p.content c.content;
  language_code = or_else p.language_code c.language_code;
  source_url = or_else p.source_url c.source_url;
  metadata = or_else p.metadata c.metadata;
  venue_name = or_else p.venue_name c.venue_name;
  address = or_else p.address c.address;
  geo_lat = set_or_keep p.geo_lat c.geo_lat;
  geo_lng = set_or_keep p.geo_lng c.geo_lng;
  timezone = or_else p.timezone c.timezone;
  contact_phone = or_else p.contact_phone c.contact_phone;
  contact_email = or_else p.contact_email c.contact_email;
  website = or_else p.website c.website;
  event_start = or_else p.event_start c.event_start;
  event_end = or_else p.event_end c.event_end;
  is_all_day = or_else p.is_all_day c.is_all_day;
  organizer_name = or_else p.organizer_name c.organizer_name;
  organizer_contact = or_else p.organizer_contact c.organizer_contact;
  registration_url = or_else p.registration_url c.registration_url;
}

abbrev pub patched_promotion : PromotionPatch → Promotion → Promotion
patched_promotion p c = record {
  visibility = or_else p.visibility c.visibility;
  is_featured = or_else p.is_featured c.is_featured;
  featured_until = or_else p.featured_until c.featured_until;
  publish_at = or_else p.publish_at c.publish_at;
  expire_at = or_else p.expire_at c.expire_at;
}

abbrev pub patched_origin : OriginPatch → Origin → Origin
patched_origin p c = record {
  source_type = or_else p.source_type c.source_type;
  external_source = or_else p.external_source c.external_source;
  external_id = or_else p.external_id c.external_id;
  sync_hash = or_else p.sync_hash c.sync_hash;
  content_checksum = or_else p.content_checksum c.content_checksum;
  last_synced_at = or_else p.last_synced_at c.last_synced_at;
  ingested_at = or_else p.ingested_at c.ingested_at;
  ingested_by_service = or_else p.ingested_by_service c.ingested_by_service;
  ingest_notes = or_else p.ingest_notes c.ingest_notes;
}

-- The review after an edit: an author's edit asks for a new one.
abbrev pub edited_review : Bool → UpdateDto → Review → Review
edited_review false dto r = record {
  status = ListingStatus.pending;
  moderation_status = ModerationStatus.pending;
  reviewed_by = none;
  reviewed_at = none;
  review_notes = none;
}
edited_review true dto r = record r {
  status = or_else dto.status r.status;
  moderation_status = or_else dto.moderation_status r.moderation_status;
  review_notes = or_else dto.review_notes r.review_notes;
}

-- `dto.archivedAt ? new Date(dto.archivedAt) : new Date()` and `dto.archivedBy ?? userId`
abbrev or_now : Option (Option ℕ) → ℕ → ℕ
or_now (some (some at)) now = at
or_now _ now = now

abbrev or_user : Option (Option String) → String → String
or_user (some (some by)) user = by
or_user _ user = user

abbrev pub patched_archive : ArchivePatch → String → ℕ → Archive → Archive
patched_archive p user now a = elim p.is_archived [
  | some b ↦ record {
    is_archived = b;
    archived_at = if b then some (or_now p.archived_at now) else none;
    archived_by = if b then some (or_user p.archived_by user) else none;
  }
  | none ↦ record a {
    archived_at = or_else p.archived_at a.archived_at;
    archived_by = or_else p.archived_by a.archived_by;
  }
]

-- The column of the primary city: the new one, none if the cities are emptied, or as it was.
abbrev pub patched_city : Option (List CityReference) → Option String → Option String
patched_city none old = old
patched_city (some []) old = none
patched_city (some (c ∷ rest)) old = primary_city (some (c ∷ rest))

-- The row after the update; a slug that is empty is not set.
unfoldable pub edited : Bool → String → ℕ → Option String → UpdateDto → Listing → Listing
edited admin user now slug dto r = record r {
  slug = if truthy slug then or_else slug r.slug else r.slug;
  last_edited_by_user_id = some user;
  content = patched_content dto.content r.content;
  promotion = patched_promotion dto.promotion r.promotion;
  review = edited_review admin dto r.review;
  origin = patched_origin dto.origin r.origin;
  archive = patched_archive dto.archive user now r.archive;
  primary_city_id = patched_city dto.cities r.primary_city_id;
}
