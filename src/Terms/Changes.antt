-- ===== src/Terms/Changes.antt =====
-- The methods of apps/users/src/modules/terms/terms.service.ts that write.
use heidi_microservices.Common.{
  ℕ, Bool, true, false, Option, none, some, String, or_else, if◌then◌else◌,
}
use heidi_microservices.Common.Outcome.{bad_request, not_found}
use heidi_microservices.Common.Action.{Action, ◌>>=◌, ◌>>◌, pure, throw, query}
use heidi_microservices.Database.{Table}
use heidi_microservices.Terms.{
  Terms, UserTermsAcceptance, CreateTermsDto, UpdateTermsDto, AcceptTermsDto, version_for,
  with_terms_id, accepted_by, new_acceptance, new_terms, unmark, latest_of, other_latest, edited,
  exists_message,
}

module _ {S : Type 0} (terms : Table S Terms) (acceptances : Table S UserTermsAcceptance)
    (default_days : ℕ) where
  -- `acceptTerms` once the terms are found and active.
  unfoldable pub accept_new :
      String
      → ℕ
      → String
      → AcceptTermsDto
      → Option String
      → Option String
      → Terms
      → Option UserTermsAcceptance
      → Action S UserTermsAcceptance
  accept_new id now user dto ip agent t (some existing) = pure existing
  accept_new id now user dto ip agent t none =
      acceptances.create (new_acceptance id now user dto ip agent t)

  unfoldable pub accept_found :
      String
      → ℕ
      → String
      → AcceptTermsDto
      → Option String
      → Option String
      → Option Terms
      → Action S UserTermsAcceptance
  accept_found id now user dto ip agent none = throw (not_found "Terms of use not found")
  accept_found id now user dto ip agent (some t) =
      if t.is_active
      then (query (acceptances.find (accepted_by user t.id))
          >>= accept_new id now user dto ip agent t)
      else throw (bad_request "These terms are no longer active")

  unfoldable pub accept_terms :
      String
      → ℕ
      → String
      → AcceptTermsDto
      → Option String
      → Option String
      → Action S UserTermsAcceptance
  accept_terms id now user dto ip agent =
      query (terms.find (with_terms_id dto.terms_id)) >>= accept_found id now user dto ip agent

  -- `if (…) await updateMany(…)`
  unfoldable pub update_when : Bool → (Terms → Bool) → (Terms → Terms) → Action S ℕ
  update_when true p f = terms.update_many p f
  update_when false p f = pure 0

  unfoldable pub create_unless :
      String → ℕ → CreateTermsDto → Option String → Option Terms → Action S Terms
  create_unless id now dto created_by (some existing) = throw (bad_request (exists_message dto))
  create_unless id now dto created_by none =
      update_when (or_else dto.is_latest false) (latest_of dto.locale dto.city_id) unmark
      >> terms.create (new_terms default_days id now dto created_by)

  unfoldable pub create_terms : String → ℕ → CreateTermsDto → Option String → Action S Terms
  create_terms id now dto created_by =
      query (terms.find (version_for dto.version dto.locale dto.city_id))
      >>= create_unless id now dto created_by

  unfoldable pub update_found : UpdateTermsDto → Option Terms → Action S Terms
  update_found dto none = throw (not_found "Terms of use not found")
  update_found dto (some t) =
      update_when (or_else dto.is_latest false) (other_latest t) unmark
      >> terms.update (with_terms_id t.id) (edited dto)

  unfoldable pub update_terms : String → UpdateTermsDto → Action S Terms
  update_terms id dto = query (terms.find (with_terms_id id)) >>= update_found dto
