-- ===== src/Terms/Acceptance.antt =====
-- What accepting terms changes.
use heidi_microservices.Common.{
  ℕ, ◌≡◌, refl, inl, inr, true, Option, none, some, [], ◌∷◌, String, eq_iff, In-append, Bool-cases,
}
use heidi_microservices.Common.Outcome.{Outcome, returned, thrown, unfinished}
use heidi_microservices.Common.Action.{continue}
use heidi_microservices.Database.{Table, IsTable}
use heidi_microservices.Terms.{
  Terms, UserTermsAcceptance, AcceptTermsDto, AcceptanceCheck, accepted_by, with_terms_id,
  new_acceptance, target_locale,
}
use heidi_microservices.Terms.Queries.{get_latest_terms, has_user_accepted_latest_terms}
use heidi_microservices.Terms.Changes.{accept_new, accept_found, accept_terms}
use heidi_microservices.Terms.Required.{
  HasAccepted, accepted_by_iff, has_user_accepted_latest_terms_iff,
}

module _ {S : Type 0} (terms : Table S Terms) (acceptances : Table S UserTermsAcceptance)
    (default_locale : String) (default_days : ℕ) (laws : IsTable terms)
    (accepted_laws : IsTable acceptances) where
  abbrev Accepted : S → String → String → Type 0
  Accepted s user id = HasAccepted terms acceptances default_locale laws accepted_laws s user id

  accept_new-HasAccepted :
      (id : String) (now : ℕ) (user : String) (dto : AcceptTermsDto) (ip agent : Option String)
      (t : Terms) (s : S) (o : Outcome (Option UserTermsAcceptance)) {a : UserTermsAcceptance}
      → acceptances.find (accepted_by user t.id) s ≡ o
      → (continue (accept_new terms acceptances default_days id now user dto ip agent t) (o, s)).0
        ≡ returned a
      → Accepted
          (continue (accept_new terms acceptances default_days id now user dto ip agent t) (o, s)).1
          user
          t.id
  unfolding accept_new
  accept_new-HasAccepted id now user dto ip agent t s (returned none) f h =
      let n = new_acceptance id now user dto ip agent t in
      elim (accepted_laws.create_effect n s) [
        | inl (b, _, e) ↦
            (n, rw e ((In-append n (acceptances.rows s) (n ∷ [])).1 (inr (inl refl))), refl, refl)
        | inr (none_returned, _) ↦ absurd (none_returned _ h)
      ]
  accept_new-HasAccepted id now user dto ip agent t s (returned (some a)) f h =
      let (m, k) = accepted_laws.find_some (accepted_by user t.id) s a f in
      let (u, i) =
        (accepted_by_iff terms acceptances default_locale laws accepted_laws user t.id a).0 k in
      (a, m, u, i)
  accept_new-HasAccepted id now user dto ip agent t s (thrown e) f h = cc
  accept_new-HasAccepted id now user dto ip agent t s unfinished f h = cc

  -- A call of `acceptTerms` that returns leaves an acceptance of the terms by the user stored.
  accept_terms-HasAccepted :
      (id : String) (now : ℕ) (user : String) (dto : AcceptTermsDto) (ip agent : Option String)
      (s : S) {a : UserTermsAcceptance}
      → (accept_terms terms acceptances default_days id now user dto ip agent s).0 ≡ returned a
      → Accepted
          (accept_terms terms acceptances default_days id now user dto ip agent s).1
          user
          dto.terms_id
  unfolding accept_terms accept_found accept_new
  accept_terms-HasAccepted id now user dto ip agent s {a} =
      go (terms.find (with_terms_id dto.terms_id) s) refl
    where
      rest : Option Terms → S → Outcome UserTermsAcceptance × S
      rest = accept_found terms acceptances default_days id now user dto ip agent

      go :
          (o : Outcome (Option Terms))
          → terms.find (with_terms_id dto.terms_id) s ≡ o
          → (continue rest (o, s)).0 ≡ returned a
          → Accepted (continue rest (o, s)).1 user dto.terms_id
      go (returned none) e h = cc
      go (returned (some t)) e h =
          let (_, k) = laws.find_some (with_terms_id dto.terms_id) s t e in
          let same : t.id ≡ dto.terms_id = (eq_iff t.id dto.terms_id).0 k in
          elim (Bool-cases t.is_active) [
            | inl b ↦
                rw (b, ← same)
                  (accept_new-HasAccepted id now user dto ip agent t s _ refl (rw b at h))
            | inr b ↦ let x = (rw b at h) in cc
          ]
      go (thrown x) e h = cc
      go unfinished e h = cc

  -- When `acceptTerms` has returned and the terms are the latest ones for a locale and a city, the
  -- check for that locale and city says that the user has accepted, if the acceptances can be read.
  pub accepted_then_checked :
      (id : String) (now later : ℕ) (user : String) (dto : AcceptTermsDto)
      (ip agent locale city : Option String) (s : S) (t : Terms) (a : UserTermsAcceptance)
      (found : Option UserTermsAcceptance)
      → (accept_terms terms acceptances default_days id now user dto ip agent s).0 ≡ returned a
      → get_latest_terms terms acceptances default_locale
          (some (target_locale default_locale locale))
          city
          (accept_terms terms acceptances default_days id now user dto ip agent s).1
        ≡ returned t
      → t.id ≡ dto.terms_id
      → acceptances.find
          (accepted_by user t.id)
          (accept_terms terms acceptances default_days id now user dto ip agent s).1
        ≡ returned found
      → (check : AcceptanceCheck) × (has_user_accepted_latest_terms terms acceptances default_locale
            user locale city later
            (accept_terms terms acceptances default_days id now user dto ip agent s).1
          ≡ returned check)
        × (check.terms_id ≡ some t.id)
        × (check.has_accepted ≡ true)
  accepted_then_checked id now later user dto ip agent locale city s t a found h l same f =
      let after = (accept_terms terms acceptances default_days id now user dto ip agent s).1 in
      let (check, e, i, x) =
        has_user_accepted_latest_terms_iff terms acceptances default_locale laws accepted_laws user
          locale city later after t found l f in
      let stored = accept_terms-HasAccepted id now user dto ip agent s h in
      (check, e, i, x.1 (rw same stored))
