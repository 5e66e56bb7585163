-- ===== src/Listings/Create/Laws.antt =====
-- apps/core/src/modules/listings/listings.service.ts: what `createListing` adds.
use heidi_microservices.Common.{
  ℕ, ◌≡◌, refl, ap, ◌∙◌, Bool, true, false, none, some, List, [], ◌∷◌, ◌++◌, String, if◌then◌else◌,
}
use heidi_microservices.Common.Outcome.{returned, failure}
use heidi_microservices.Common.Action.{◌>>=◌, throw, query, bind_returned}
use heidi_microservices.Rbac.Roles.{UserRole}
use heidi_microservices.Database.{Table, IsTable, Effect-returned}
use heidi_microservices.Slugs.{ensure_unique_slug}
use heidi_microservices.Slugs.Unique.{IsFreeFor, ensure_unique_slug-IsFreeFor}
use heidi_microservices.Listings.{Listing, ListingStatus, ModerationStatus, Visibility, is_admin}
use heidi_microservices.Listings.Update.{Store, NewIds, on_listings}
use heidi_microservices.Listings.Create.{
  CreateDto, created, violates_keys, base_slug, add_related, insert_listing, create_listing,
}

-- The row waits for a review, and one who is not an admin has set nothing that only admins may set.
pub record IsNew (user : String) (admin : Bool) (r : Listing) : Type 0 where
  pub status : r.review.status ≡ ListingStatus.pending
  pub moderation : r.review.moderation_status ≡ ModerationStatus.pending
  pub unreviewed : r.review.reviewed_by ≡ none
  pub unarchived : r.archive.is_archived ≡ false
  pub author : r.created_by_user_id ≡ some user
  pub restrained :
      admin ≡ false
      → (r.promotion.visibility ≡ Visibility.public)
        × (r.promotion.is_featured ≡ false)
        × (r.promotion.featured_until ≡ none)
        × (r.promotion.publish_at ≡ none)
        × (r.promotion.expire_at ≡ none)
        × (r.origin.external_id ≡ none)

created-IsNew :
    (admin : Bool) (id user slug : String) (dto : CreateDto)
    → IsNew user admin (created admin id user slug dto)
unfolding created
created-IsNew true id user slug dto = record {
  status = refl;
  moderation = refl;
  unreviewed = refl;
  unarchived = refl;
  author = refl;
  restrained = λ h. cc;
}
created-IsNew false id user slug dto = record {
  status = refl;
  moderation = refl;
  unreviewed = refl;
  unarchived = refl;
  author = refl;
  restrained = λ h. (refl, refl, refl, refl, refl, refl);
}

created-slug :
    (admin : Bool) (id user slug : String) (dto : CreateDto)
    → (created admin id user slug dto).slug ≡ slug
unfolding created
created-slug admin id user slug dto = refl

module _ {S : Type 0} (table : Table S Listing) (laws : IsTable table) where
  -- What a call that returned has added to the table of listings.
  pub record Created (user : String) (admin : Bool) (s t : Store S) : Type 0 where
    pub row : Listing
    pub is_new : IsNew user admin row
    pub is_free : IsFreeFor table laws Listing.slug Listing.id none row.slug s.db
    pub rows : table.rows t.db ≡ table.rows s.db ++ row ∷ []

  insert_listing-rows :
      (ids : NewIds) (dto : CreateDto) (row : Listing) (s : Store S) (a : Listing)
      → (insert_listing table ids dto row s).0 ≡ returned a
      → table.rows (insert_listing table ids dto row s).1.db ≡ table.rows s.db ++ row ∷ []
  unfolding insert_listing add_related
  insert_listing-rows ids dto row s a h = by_keys (violates_keys dto) h
    where
      by_keys :
          (b : Bool)
          → ((if b
                then throw (failure "P2002")
                else on_listings (table.create row) >>= add_related table ids dto)
              s).0
            ≡ returned a
          → table.rows
              ((if b
                  then throw (failure "P2002")
                  else on_listings (table.create row) >>= add_related table ids dto)
                s).1.db
            ≡ table.rows s.db ++ row ∷ []
      by_keys true h = cc
      by_keys false h =
          let (_, k, e, _) =
            bind_returned (on_listings (table.create row)) (add_related table ids dto) s h in
          ap (λ x. table.rows x.1.db) e
          ∙ Effect-returned table.rows _ s.db (table.create row s.db) k
              (laws.create_effect row s.db)

  -- `createListing` returns only if it has added one listing, whose slug none had before. The listing
  -- waits for a review; if its author is not an admin, it is public, not featured and without dates of
  -- publication.
  pub create_listing-Created :
      (fuel : ℕ) (ids : NewIds) (id user : String) (roles : List UserRole) (now : ℕ)
      (dto : CreateDto) (s : Store S) (a : Listing)
      → (create_listing table fuel ids id user roles now dto s).0 ≡ returned a
      → Created user (is_admin roles) s (create_listing table fuel ids id user roles now dto s).1
  unfolding create_listing
  create_listing-Created fuel ids id user roles now dto s a h =
      let free = query (λ (s : Store S).
        ensure_unique_slug table Listing.slug Listing.id fuel (base_slug dto.content.title now) none
          s.db) in
      let (slug, k, e, r) = bind_returned free _ s h in
      let row = created (is_admin roles) id user slug dto in
      record {
        row = row;
        is_new = created-IsNew (is_admin roles) id user slug dto;
        is_free = rw (created-slug (is_admin roles) id user slug dto) (
            ensure_unique_slug-IsFreeFor table laws Listing.slug Listing.id fuel
              (base_slug dto.content.title now) none s.db slug k);
        rows = ap (λ x. table.rows x.1.db) e ∙ insert_listing-rows ids dto row s a r;
      }
