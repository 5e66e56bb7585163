-- ===== src/Listings/Update/Restrained.antt =====
-- apps/core/src/modules/listings/listings.service.ts: what `updateListing` may change for authors.
use heidi_microservices.Common.{
  ℕ, ◌≡◌, refl, Bool, true, false, ◌||◌, Option, none, some, List, [], ◌∷◌, String, or_else,
  is_some,
}
use heidi_microservices.Listings.{Listing, ListingStatus, ModerationStatus, Archive}
use heidi_microservices.Listings.Patches.{
  UpdateDto, ArchivePatch, patched_archive, restricted_fields, first_restricted, edited,
}

-- The row asks for a review, and what only admins may set is what it was.
pub record IsRestrained (r q : Listing) : Type 0 where
  pub promotion : q.promotion ≡ r.promotion
  pub origin : q.origin ≡ r.origin
  pub archive : q.archive ≡ r.archive
  pub status : q.review.status ≡ ListingStatus.pending
  pub moderation : q.review.moderation_status ≡ ModerationStatus.pending
  pub author : q.created_by_user_id ≡ r.created_by_user_id

-- No field of the list is there.
abbrev AllAbsent : List (Bool × String) → Type 0
AllAbsent [] = Unit {0}
AllAbsent (field ∷ rest) = (field.0 ≡ false) × AllAbsent rest

first_restricted-AllAbsent :
    (fields : List (Bool × String)) → first_restricted fields ≡ none → AllAbsent fields
unfolding first_restricted
first_restricted-AllAbsent [] h = tt
first_restricted-AllAbsent ((true, message) ∷ rest) h = cc
first_restricted-AllAbsent ((false, message) ∷ rest) h = (refl, first_restricted-AllAbsent rest h)

absent : {A : Type 0} (o : Option A) (d : A) → is_some o ≡ false → or_else o d ≡ d
absent none d h = refl
absent (some a) d h = cc

neither : (a b : Bool) → (a || b) ≡ false → (a ≡ false) × (b ≡ false)
neither true b h = cc
neither false b h = (refl, h)

restrained_archive :
    (p : ArchivePatch) (user : String) (now : ℕ) (c : Archive)
    → is_some p.is_archived ≡ false
    → (is_some p.archived_at || is_some p.archived_by) ≡ false
    → patched_archive p user now c ≡ c
restrained_archive p user now c h k =
    let (a, b) = neither (is_some p.archived_at) (is_some p.archived_by) k in
    go p.is_archived h (absent p.archived_at c.archived_at a) (absent p.archived_by c.archived_by b)
  where
    go :
        (o : Option Bool)
        → is_some o ≡ false
        → or_else p.archived_at c.archived_at ≡ c.archived_at
        → or_else p.archived_by c.archived_by ≡ c.archived_by
        → patched_archive (record p { is_archived = o }) user now c ≡ c
    go (some b) h a d = cc
    go none h a d = rw (a, d)

-- An update that the refusals let pass for one who is not an admin leaves promotion, origin, archive
-- and author of the row as they were, and puts the row up for review as pending.
pub edited-IsRestrained :
    (user : String) (now : ℕ) (slug : Option String) (dto : UpdateDto) (r : Listing)
    → first_restricted (restricted_fields dto) ≡ none
    → IsRestrained r (edited false user now slug dto r)
unfolding edited
edited-IsRestrained user now slug dto r h =
    let (
      featured,
      (
        until,
        (
          publish,
          (
            expire,
            (
              visibility,
              (
                status,
                (
                  moderation,
                  (
                    source,
                    (
                      external,
                      (
                        hash,
                        (
                          checksum,
                          (
                            synced,
                            (ingested, (service, (notes, (type, (archived, (archiver, _)))))),
                          ),
                        ),
                      ),
                    ),
                  ),
                ),
              ),
            ),
          ),
        ),
      ),
    ) =
      first_restricted-AllAbsent (restricted_fields dto) h in
    let p = r.promotion in
    let o = r.origin in
    record {
      promotion = rw (
        absent dto.promotion.visibility p.visibility visibility,
        absent dto.promotion.is_featured p.is_featured featured,
        absent dto.promotion.featured_until p.featured_until until,
        absent dto.promotion.publish_at p.publish_at publish,
        absent dto.promotion.expire_at p.expire_at expire,
      );
      origin = rw (
        absent dto.origin.source_type o.source_type type,
        absent dto.origin.external_source o.external_source source,
        absent dto.origin.external_id o.external_id external,
        absent dto.origin.sync_hash o.sync_hash hash,
        absent dto.origin.content_checksum o.content_checksum checksum,
        absent dto.origin.last_synced_at o.last_synced_at synced,
        absent dto.origin.ingested_at o.ingested_at ingested,
        absent dto.origin.ingested_by_service o.ingested_by_service service,
        absent dto.origin.ingest_notes o.ingest_notes notes,
      );
      archive = restrained_archive dto.archive user now r.archive archived archiver;
      status = refl;
      moderation = refl;
      author = refl;
    }
