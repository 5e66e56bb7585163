-- ===== src/Listings/Moderation.antt =====
-- apps/core/src/modules/listings/listings.service.ts: how listings are submitted and moderated.
pub mod States
use heidi_microservices.Common.{
  set_or_keep, ℕ, Bool, true, false, not, Option, none, some, String, str_eq, or_else,
  if◌then◌else◌,
}
use heidi_microservices.Common.Outcome.{Outcome, returned, thrown, not_found, forbidden}
use heidi_microservices.Common.Action.{Action, ◌>>=◌, ◌>>◌, pure, throw, query, continue}
use heidi_microservices.Database.{Table}
use heidi_microservices.Listings.{
  Listing, ListingStatus, ModerationStatus, Review, Archive, with_id,
}

pub record ModerationDto : Type 0 where
  pub moderation_status : ModerationStatus
  pub publish_status : Option ListingStatus
  pub review_notes : Option String

pub record ModerationActionDto : Type 0 where
  pub review_notes : Option String
  pub publish_status : Option ListingStatus

-- `updateData.status` by the verdict.
abbrev pub moderated_status : ModerationDto → ListingStatus
moderated_status dto = elim dto.moderation_status [
  | ModerationStatus.approved ↦ or_else dto.publish_status ListingStatus.approved
  | ModerationStatus.rejected ↦ ListingStatus.rejected
  | ModerationStatus.changes_requested ↦ ListingStatus.pending
  | ModerationStatus.archived ↦ ListingStatus.deleted
  | ModerationStatus.pending ↦ or_else dto.publish_status ListingStatus.pending
]

abbrev pub is_approved : ListingStatus → Bool
is_approved ListingStatus.approved = true
is_approved _ = false

-- `publishAt` in the update, if it is set: the first approval sets it.
abbrev pub first_publish_at : ModerationDto → ℕ → Option ℕ → Option ℕ
first_publish_at dto now (some at) = none
first_publish_at dto now none = elim dto.moderation_status [
  | ModerationStatus.approved ↦
      if is_approved (or_else dto.publish_status ListingStatus.approved) then some now else none
  | _ ↦ none
]

abbrev pub moderated_archive : ModerationDto → String → ℕ → Archive → Archive
moderated_archive dto moderator now a = elim dto.moderation_status [
  | ModerationStatus.approved ↦ record a { is_archived = false }
  | ModerationStatus.archived ↦ record {
    is_archived = true;
    archived_at = some now;
    archived_by = some moderator;
  }
  | _ ↦ a
]

-- The row after `moderateListing`; `existing` is the date of publication that was read before.
pub moderated : ModerationDto → String → ℕ → Option ℕ → Listing → Listing
moderated dto moderator now existing r = record r {
  last_edited_by_user_id = some moderator;
  promotion = record r.promotion {
    publish_at = set_or_keep (first_publish_at dto now existing) r.promotion.publish_at;
  };
  review = record {
    status = moderated_status dto;
    moderation_status = dto.moderation_status;
    reviewed_by = some moderator;
    reviewed_at = some now;
    review_notes = dto.review_notes;
  };
  archive = moderated_archive dto moderator now r.archive;
}

abbrev pub submitted : String → Listing → Listing
submitted user r = record r {
  last_edited_by_user_id = some user;
  review = record {
    status = ListingStatus.pending;
    moderation_status = ModerationStatus.pending;
    reviewed_by = none;
    reviewed_at = none;
    review_notes = none;
  };
}

-- `listing.createdByUserId !== userId`
abbrev pub is_author : String → Listing → Bool
is_author user r = elim r.created_by_user_id [ none ↦ false | some id ↦ str_eq id user ]

module _ {S : Type 0} (table : Table S Listing) where
  moderate_found : String → String → ModerationDto → ℕ → Option Listing → Action S Listing
  moderate_found id moderator dto now none = throw (not_found "Listing not found")
  moderate_found id moderator dto now (some existing) =
      table.update (with_id id) (moderated dto moderator now existing.promotion.publish_at)

  pub moderate_listing : String → String → ModerationDto → ℕ → Action S Listing
  moderate_listing id moderator dto now =
      query (table.find (with_id id)) >>= moderate_found id moderator dto now

  submit_found : String → String → Option Listing → Action S Listing
  submit_found id user none = throw (not_found "Listing not found")
  submit_found id user (some listing) =
      if not (is_author user listing)
      then throw (forbidden "You can only submit your own listings")
      else table.update (with_id id) (submitted user)

  pub submit_listing_for_review : String → String → Action S Listing
  submit_listing_for_review id user = query (table.find (with_id id)) >>= submit_found id user

  pub approve_listing : String → String → ModerationActionDto → ℕ → Action S Listing
  approve_listing id moderator body now =
      moderate_listing id moderator
        (record {
          moderation_status = ModerationStatus.approved;
          publish_status = some (or_else body.publish_status ListingStatus.approved);
          review_notes = body.review_notes;
        })
        now

  pub request_listing_changes : String → String → ModerationActionDto → ℕ → Action S Listing
  request_listing_changes id moderator body now =
      moderate_listing id moderator
        (record {
          moderation_status = ModerationStatus.changes_requested;
          publish_status = some (or_else body.publish_status ListingStatus.pending);
          review_notes = body.review_notes;
        })
        now

  pub reject_listing : String → String → Option String → ℕ → Action S Listing
  reject_listing id moderator notes now =
      moderate_listing id moderator
        (record {
          moderation_status = ModerationStatus.rejected;
          publish_status = some ListingStatus.rejected;
          review_notes = notes;
        })
        now

  pub archive_listing : String → String → Option String → ℕ → Action S Listing
  archive_listing id moderator notes now =
      moderate_listing id moderator
        (record {
          moderation_status = ModerationStatus.archived;
          publish_status = some ListingStatus.deleted;
          review_notes = notes;
        })
        now
