-- ===== src/Listings/Samples.antt =====
-- A listing, requests about it, and a table of listings kept in memory.
use heidi_microservices.Common.{refl, true, false, none, some, List, [], ◌∷◌}
use heidi_microservices.Database.{Table, IsTable}
use heidi_microservices.Database.Memory.{memory, memory-IsTable}
use heidi_microservices.Listings.{Listing, ListingStatus, ModerationStatus, Visibility, SourceType}
use heidi_microservices.Listings.Moderation.{ModerationActionDto}
use heidi_microservices.Listings.Patches.{UpdateDto}
use heidi_microservices.Listings.Update.{Store, NewIds}
use heidi_microservices.Listings.Favorites.{Shelf}
use heidi_microservices.Listings.Create.{CreateDto}
use heidi_microservices.Listings.Pages.Filter.{ListingFilter}

abbrev pub fair : Listing
fair = record {
  id = "l1";
  slug = "summer-fair";
  content = record {
    title = "Summer fair";
    summary = none;
    content = "At the lake";
    language_code = some "en";
    source_url = none;
    metadata = none;
    venue_name = none;
    address = none;
    geo_lat = none;
    geo_lng = none;
    timezone = none;
    contact_phone = none;
    contact_email = none;
    website = none;
    event_start = some 100;
    event_end = none;
    is_all_day = false;
    organizer_name = none;
    organizer_contact = none;
    registration_url = none;
  };
  promotion = record {
    visibility = Visibility.public;
    is_featured = false;
    featured_until = none;
    publish_at = none;
    expire_at = none;
  };
  review = record {
    status = ListingStatus.pending;
    moderation_status = ModerationStatus.pending;
    reviewed_by = none;
    reviewed_at = none;
    review_notes = none;
  };
  origin = record {
    source_type = SourceType.manual;
    external_source = none;
    external_id = none;
    sync_hash = none;
    content_checksum = none;
    last_synced_at = none;
    ingested_at = none;
    ingested_by_service = none;
    ingest_notes = none;
  };
  archive = record { is_archived = false; archived_at = none; archived_by = none };
  created_by_user_id = some "ann";
  last_edited_by_user_id = some "ann";
  primary_city_id = none;
}

abbrev pub Rows : Type 0
Rows = List Listing

abbrev pub table : Table Rows Listing
table = memory (λ (s : Rows). s) (λ rs s. rs) (λ rs s. refl)

pub table-IsTable : IsTable table
table-IsTable = memory-IsTable (λ (s : Rows). s) (λ rs s. rs) (λ rs s. refl)

abbrev pub approval : ModerationActionDto
approval = record { review_notes = none; publish_status = none }

-- A new title, and nothing else.
abbrev pub retitle : UpdateDto
retitle = record {
  slug = none;
  content = record {
    title = some "Autumn fair";
    summary = none;
    content = none;
    language_code = none;
    source_url = none;
    metadata = none;
    venue_name = none;
    address = none;
    geo_lat = none;
    geo_lng = none;
    timezone = none;
    contact_phone = none;
    contact_email = none;
    website = none;
    event_start = none;
    event_end = none;
    is_all_day = none;
    organizer_name = none;
    organizer_contact = none;
    registration_url = none;
  };
  promotion = record {
    is_featured = none;
    featured_until = none;
    publish_at = none;
    expire_at = none;
    visibility = none;
  };
  status = none;
  moderation_status = none;
  review_notes = none;
  origin = record {
    external_source = none;
    external_id = none;
    sync_hash = none;
    content_checksum = none;
    last_synced_at = none;
    ingested_at = none;
    ingested_by_service = none;
    ingest_notes = none;
    source_type = none;
  };
  archive = record { is_archived = none; archived_at = none; archived_by = none };
  cities = none;
  categories = none;
  time_intervals = none;
  time_interval_exceptions = none;
}

abbrev pub ids : NewIds
ids = record {
  categories = λ n. "";
  cities = λ n. "";
  time_intervals = λ n. "";
  time_interval_exceptions = λ n. "";
}

abbrev pub start : Store Rows
start = record {
  db = fair ∷ [];
  related = record {
    categories = [];
    cities = [];
    time_intervals = [];
    time_interval_exceptions = [];
  };
}

-- The fair in the table, as a favourite of one user.
abbrev pub shelf : Shelf Rows
shelf = record {
  db = fair ∷ [];
  favorites = record { id = "f1"; user_id = "bob"; listing_id = "l1"; created_at = 1 } ∷ [];
}

abbrev pub any_listing : ListingFilter
any_listing = record {
  search = none;
  city_ids = none;
  category_ids = none;
  status = none;
  moderation_status = none;
  visibility = none;
  source_type = none;
  is_featured = none;
  language_codes = some ("en" ∷ []);
  publish_after = none;
  publish_before = none;
  upcoming_after = some 50;
  upcoming_before = none;
  sort_by = some "title";
  sort_direction = none;
  page = none;
  page_size = some 1;
}

-- A second fair, with a title that gives the slug of the first.
abbrev pub create_fair : CreateDto
create_fair = record {
  content = fair.content;
  is_all_day = none;
  visibility = some Visibility.city_only;
  is_featured = some true;
  featured_until = none;
  publish_at = some 9;
  expire_at = none;
  source_type = none;
  external_source = none;
  external_id = none;
  sync_hash = none;
  content_checksum = none;
  last_synced_at = none;
  ingested_at = none;
  ingested_by_service = none;
  ingest_notes = none;
  cities =
      some (record { id = none; city_id = "c1"; is_primary = none; display_order = none } ∷ []);
  categories = none;
  time_intervals = none;
  time_interval_exceptions = none;
}
