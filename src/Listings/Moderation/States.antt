-- ===== src/Listings/Moderation/States.antt =====
-- apps/core/src/modules/listings/listings.service.ts: the states that listings come to by submission
-- and moderation.
use heidi_microservices.Common.{
  ℕ, ◌≡◌, refl, inl, inr, Bool, true, false, not, Option, none, some, List, String, In, In-map,
  is_some, either, if◌then◌else◌,
}
use heidi_microservices.Common.Action.{Action, Keeps, >>=-Keeps, query}
use heidi_microservices.Database.{Table, IsTable, apply_where}
use heidi_microservices.Listings.{Listing, ListingStatus, ModerationStatus, with_id}
use heidi_microservices.Listings.Moderation.{
  ModerationDto, ModerationActionDto, is_approved, is_author, moderated, submitted, moderate_found,
  moderate_listing, submit_found, submit_listing_for_review, approve_listing,
  request_listing_changes, reject_listing, archive_listing,
}

-- A listing that is open to the public has been approved, by someone, at some time, and is not in the
-- archive.
abbrev pub IsReviewed : Listing → Type 0
IsReviewed r =
    is_approved r.review.status ≡ true
    → (r.review.moderation_status ≡ ModerationStatus.approved)
      × (is_some r.review.reviewed_by ≡ true)
      × (is_some r.review.reviewed_at ≡ true)
      × (r.archive.is_archived ≡ false)

abbrev pub AllReviewed : List Listing → Type 0
AllReviewed rows = (r : Listing) → In r rows → IsReviewed r

abbrev is_pending : ModerationStatus → Bool
is_pending ModerationStatus.pending = true
is_pending _ = false

-- Every verdict but `PENDING` leaves a reviewed listing.
moderated-IsReviewed :
    (v : ModerationStatus) (p : Option ListingStatus) (n : Option String) (moderator : String)
    (now : ℕ) (existing : Option ℕ) (r : Listing)
    → is_pending v ≡ false
    → IsReviewed (
        moderated
          (record { moderation_status = v; publish_status = p; review_notes = n })
          moderator
          now
          existing
          r)
unfolding moderated
moderated-IsReviewed ModerationStatus.pending p n moderator now existing r h = cc
moderated-IsReviewed ModerationStatus.approved p n moderator now existing r h =
    λ _. (refl, refl, refl, refl)
moderated-IsReviewed ModerationStatus.changes_requested p n moderator now existing r h = λ k. cc
moderated-IsReviewed ModerationStatus.rejected p n moderator now existing r h = λ k. cc
moderated-IsReviewed ModerationStatus.archived p n moderator now existing r h = λ k. cc

apply_where-AllReviewed :
    (p : Listing → Bool) (f : Listing → Listing) (rows : List Listing)
    → ((r : Listing) → IsReviewed (f r))
    → AllReviewed rows
    → AllReviewed (apply_where p f rows)
apply_where-AllReviewed p f rows good all q m =
    let (r, i, e) = (In-map (λ r. if p r then f r else r) rows q).0 m in
    rw e (either IsReviewed (p r) (λ _. good r) (λ _. all r i))

module _ {S : Type 0} (table : Table S Listing) (laws : IsTable table) where
  abbrev pub Sound : S → Type 0
  Sound s = AllReviewed (table.rows s)

  update-Sound :
      (p : Listing → Bool) (f : Listing → Listing)
      → ((r : Listing) → IsReviewed (f r))
      → Keeps Sound (table.update p f)
  update-Sound p f good s h = elim (laws.update_effect p f s) [
    | inl (_, _, e) ↦ rw e (apply_where-AllReviewed p f (table.rows s) good h)
    | inr (_, e) ↦ rw e h
  ]

  moderate_listing-Sound :
      (id moderator : String) (v : ModerationStatus) (p : Option ListingStatus) (n : Option String)
      (now : ℕ)
      → is_pending v ≡ false
      → Keeps Sound (
          moderate_listing table id moderator
            (record { moderation_status = v; publish_status = p; review_notes = n })
            now)
  unfolding moderate_listing moderate_found
  moderate_listing-Sound id moderator v p n now h =
      >>=-Keeps Sound (query (table.find (with_id id))) _ (λ s k. k) found
    where
      dto : ModerationDto
      dto = record { moderation_status = v; publish_status = p; review_notes = n }

      found : (o : Option Listing) → Keeps Sound (moderate_found table id moderator dto now o)
      found none s k = k
      found (some existing) s k =
          update-Sound (with_id id) (moderated dto moderator now existing.promotion.publish_at)
            (λ r. moderated-IsReviewed v p n moderator now existing.promotion.publish_at r h) s k

  submit_listing_for_review-Sound :
      (id user : String) → Keeps Sound (submit_listing_for_review table id user)
  unfolding submit_listing_for_review submit_found
  submit_listing_for_review-Sound id user =
      >>=-Keeps Sound (query (table.find (with_id id))) _ (λ s k. k) found
    where
      found : (o : Option Listing) → Keeps Sound (submit_found table id user o)
      found none s k = k
      found (some listing) s k =
          either (λ (m : Action S Listing). Sound (m s).1) (not (is_author user listing)) (λ _. k)
            (λ _. update-Sound (with_id id) (submitted user) (λ r e. cc) s k)

  -- A call of one of the methods, whatever it answers.
  pub data Step : S → S → Type 0 where
    submit : {s : S} (id user : String) → Step s (submit_listing_for_review table id user s).1
    approve :
        {s : S} (id moderator : String) (body : ModerationActionDto) (now : ℕ)
        → Step s (approve_listing table id moderator body now s).1
    request :
        {s : S} (id moderator : String) (body : ModerationActionDto) (now : ℕ)
        → Step s (request_listing_changes table id moderator body now s).1
    reject :
        {s : S} (id moderator : String) (notes : Option String) (now : ℕ)
        → Step s (reject_listing table id moderator notes now s).1
    archive :
        {s : S} (id moderator : String) (notes : Option String) (now : ℕ)
        → Step s (archive_listing table id moderator notes now s).1

  pub data Run : S → S → Type 0 where
    stop : {s : S} → Run s s
    step : {s t u : S} → Step s t → Run t u → Run s u

  Step-Sound : {s t : S} → Step s t → Sound s → Sound t
  unfolding approve_listing request_listing_changes reject_listing archive_listing
  Step-Sound (submit id user) h = submit_listing_for_review-Sound id user _ h
  Step-Sound (approve id moderator body now) h =
      moderate_listing-Sound id moderator ModerationStatus.approved _ _ now refl _ h
  Step-Sound (request id moderator body now) h =
      moderate_listing-Sound id moderator ModerationStatus.changes_requested _ _ now refl _ h
  Step-Sound (reject id moderator notes now) h =
      moderate_listing-Sound id moderator ModerationStatus.rejected _ _ now refl _ h
  Step-Sound (archive id moderator notes now) h =
      moderate_listing-Sound id moderator ModerationStatus.archived _ _ now refl _ h

  -- Whatever submissions, approvals, requests for changes, rejections and archivings follow each
  -- other, with whatever answers, every listing that is open to the public has been approved, with its
  -- reviewer and the time of the review on record, and is not in the archive, if that held before.
  pub Run-Sound : {s t : S} → Run s t → Sound s → Sound t
  Run-Sound stop h = h
  Run-Sound (step first rest) h = Run-Sound rest (Step-Sound first h)
