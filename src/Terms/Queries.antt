-- ===== src/Terms/Queries.antt =====
-- The queries of apps/users/src/modules/terms/terms.service.ts.
use heidi_microservices.Common.{
  List, [], ◌∷◌, length, or_else, ℕ, true, false, not, Option, none, some, String, str_eq, truthy,
  if◌then◌else◌,
}
use heidi_microservices.Common.Outcome.{
  Outcome, returned, thrown, not_found, failure, catch_with, map_returned, ◌>>=◌,
}
use heidi_microservices.Database.{Table}
use heidi_microservices.Terms.{
  Terms, UserTermsAcceptance, AcceptanceCheck, AcceptanceStatus, same_city, target_locale,
  latest_for, version_for, with_terms_id, accepted_by, grace_period_end, is_within_grace_period,
  non_empty, no_latest, no_version, found_or,
}

module _ {S : Type 0} (terms : Table S Terms) (acceptances : Table S UserTermsAcceptance)
    (default_locale : String) where
  unfoldable pub newest : String → Option String → S → Outcome (Option Terms)
  newest locale city s = terms.find_newest (latest_for locale city) Terms.created_at s

  unfoldable pub general_terms : String → S → Outcome Terms
  general_terms target s = newest target none s >>= found_or (thrown (not_found (no_latest target)))

  unfoldable pub get_latest_terms : Option String → Option String → S → Outcome Terms
  get_latest_terms locale city s =
      let target = target_locale default_locale locale in
      if truthy city
      then (newest target city s >>= found_or (general_terms target s))
      else general_terms target s

  pub get_terms_by_version : String → Option String → Option String → S → Outcome Terms
  get_terms_by_version version locale city s =
      let target = target_locale default_locale locale in
      let general =
        terms.find (version_for version target none) s
        >>= found_or (thrown (not_found (no_version version target city))) in
      if truthy city
      then (terms.find (version_for version target city) s >>= found_or general)
      else general

  -- `getLatestTerms(…).catch(() => null)`
  unfoldable pub latest_or_null : Option String → Option String → S → Outcome (Option Terms)
  latest_or_null locale city s =
      catch_with none (get_latest_terms locale city s >>= λ t. returned (some t))

  -- The answer for the latest terms, by the acceptance found.
  unfoldable pub check_found : ℕ → Terms → Option UserTermsAcceptance → AcceptanceCheck
  check_found now t (some a) = record {
    has_accepted = true;
    terms_id = some t.id;
    grace_period_ends_at = none;
  }
  check_found now t none = record {
    has_accepted = false;
    terms_id = some t.id;
    grace_period_ends_at = if is_within_grace_period now t then some (grace_period_end t) else none;
  }

  unfoldable pub check_latest : String → ℕ → S → Option Terms → Outcome AcceptanceCheck
  check_latest user now s none =
      returned (record { has_accepted = true; terms_id = none; grace_period_ends_at = none })
  check_latest user now s (some t) =
      acceptances.find (accepted_by user t.id) s >>= λ found. returned (check_found now t found)

  unfoldable pub has_user_accepted_latest_terms :
      String → Option String → Option String → ℕ → S → Outcome AcceptanceCheck
  has_user_accepted_latest_terms user locale city now s =
      latest_or_null (some (target_locale default_locale locale)) city s >>= check_latest user now s

  -- `acceptance?.terms.version || null`; the relation is read with the acceptance, and required.
  version_of : S → Option UserTermsAcceptance → Outcome (Option String)
  version_of s none = returned none
  version_of s (some a) = terms.find (with_terms_id a.terms_id) s >>= λ found. elim found [
    | none ↦ thrown (failure "Inconsistent query result: Field terms is required")
    | some t ↦ returned (non_empty (some t.version))
  ]

  pub get_user_accepted_version : String → S → Outcome (Option String)
  get_user_accepted_version user s =
      acceptances.find_newest (λ r. str_eq r.user_id user) UserTermsAcceptance.accepted_at s
      >>= version_of s

  -- `getAcceptanceStatus` for a user who is no guest.
  registered_status : String → Option String → ℕ → S → Outcome AcceptanceStatus
  registered_status user locale now s =
      let target = some (target_locale default_locale locale) in
      has_user_accepted_latest_terms user target none now s >>= λ check.
      get_user_accepted_version user s >>= λ accepted. latest_or_null target none s >>= λ latest.
      returned (record {
        has_accepted = check.has_accepted;
        accepted_version = accepted;
        latest_version = elim latest [ none ↦ none | some t ↦ non_empty (some t.version) ];
        needs_acceptance = not check.has_accepted;
        terms_id = elim latest [ none ↦ none | some t ↦ non_empty (some t.id) ];
        grace_period_ends_at = check.grace_period_ends_at;
      })

  -- `user_type` is the query for the user's type.
  pub get_acceptance_status :
      (String → S → Outcome (Option String))
      → String
      → Option String
      → ℕ
      → S
      → Outcome AcceptanceStatus
  get_acceptance_status user_type user locale now s = user_type user s >>= λ kind.
      if same_city kind (some "GUEST")
      then returned (record {
        has_accepted = true;
        accepted_version = none;
        latest_version = none;
        needs_acceptance = false;
        terms_id = none;
        grace_period_ends_at = none;
      })
      else registered_status user locale now s

  -- `include: { _count: { select: { acceptances: true } } }`, read with the terms.
  counted : List Terms → S → Outcome (List (Terms × ℕ))
  counted [] s = returned []
  counted (t ∷ rows) s =
      let rest = counted rows s in
      acceptances.find_many (λ a. str_eq a.terms_id t.id) s >>= λ found.
      map_returned (λ others. (t, length found) ∷ others) rest

  -- `newest_first` is the database's order by `createdAt`, descending.
  pub get_all_terms : (List Terms → List Terms) → Option String → S → Outcome (List (Terms × ℕ))
  get_all_terms newest_first locale s =
      terms.find_many (λ t. if truthy locale then str_eq t.locale (or_else locale "") else true) s
      >>= λ rows. counted (newest_first rows) s
