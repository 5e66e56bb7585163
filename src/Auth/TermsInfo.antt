-- ===== src/Auth/TermsInfo.antt =====
-- apps/auth/src/modules/auth/auth.service.ts: the part of a login's answer that is about the terms.
use heidi_microservices.Common.{
  ℕ, ◌≡◌, ◌≢◌, ◌↔◌, refl, ap, inl, inr, Bool, true, false, Option, none, some, String, or_text,
  truthy, Bool-cases, if◌then◌else◌,
}
use heidi_microservices.Common.Outcome.{Outcome, returned, thrown, unfinished, ◌>>=◌, catch_with}
use heidi_microservices.Rbac.TermsGuard.{Acceptance}
use heidi_microservices.Auth.{LatestTerms, Remote}

pub record TermsInfo : Type 0 where
  pub requires_terms_acceptance : Bool
  pub terms_id : Option String
  pub latest_version : Option String
  pub grace_period_ends_at : Option ℕ

abbrev pub default_terms_info : TermsInfo
default_terms_info = record {
  requires_terms_acceptance = false;
  terms_id = none;
  latest_version = none;
  grace_period_ends_at = none;
}

abbrev latest_id : Option LatestTerms → Option String
latest_id none = none
latest_id (some latest) = latest.id

abbrev latest_version : Option LatestTerms → Option String
latest_version none = none
latest_version (some latest) = if truthy latest.version then latest.version else none

-- The answer for a user who has not accepted; `none` stands for terms that could not be fetched too.
abbrev required : Option LatestTerms → Acceptance → TermsInfo
required latest answer = record {
  requires_terms_acceptance = true;
  terms_id = or_text (latest_id latest) answer.terms_id;
  latest_version = latest_version latest;
  grace_period_ends_at = answer.grace_period_ends_at;
}

abbrev accepted_by : Outcome Acceptance → Bool
accepted_by (returned answer) = answer.has_accepted
accepted_by _ = true

module _ {D : Type 0} (remote : Remote D) where
  unfoldable pub terms_info : Option String → Acceptance → D → Outcome TermsInfo
  terms_info city answer d =
      if answer.has_accepted
      then returned default_terms_info
      else catch_with (required none answer)
          (do latest ← remote.get_latest city d; returned (required latest answer))

  unfoldable pub check_terms_acceptance : String → Option String → D → Outcome TermsInfo
  check_terms_acceptance user city d =
      catch_with default_terms_info
        (do answer ← remote.check_acceptance user city d; terms_info city answer d)

  -- The terms do not stand in the way of a login: if both queries end, be it with an exception, the
  -- check returns, and it asks for an acceptance exactly if the users service says that the user has
  -- not accepted.
  pub check_terms_acceptance_returns :
      (user : String) (city : Option String) (d : D)
      → remote.check_acceptance user city d ≢ unfinished
      → remote.get_latest city d ≢ unfinished
      → (info : TermsInfo) × (check_terms_acceptance user city d ≡ returned info)
        × ((info.requires_terms_acceptance ≡ true) ↔ (
            (answer : Acceptance) × (remote.check_acceptance user city d ≡ returned answer)
            × (answer.has_accepted ≡ false)))
  unfolding check_terms_acceptance terms_info
  check_terms_acceptance_returns user city d h k = by_answer (remote.check_acceptance user city d) h
    where
      latest_returns :
          (answer : Acceptance) (m : Outcome (Option LatestTerms))
          → m ≢ unfinished
          → (info : TermsInfo) × (catch_with
                (required none answer)
                (m >>= λ latest. returned (required latest answer))
              ≡ returned info)
            × (info.requires_terms_acceptance ≡ true)
      latest_returns answer (returned latest) e = (required latest answer, refl, refl)
      latest_returns answer (thrown e') e = (required none answer, refl, refl)
      latest_returns answer unfinished e = absurd (e refl)

      by_answer :
          (m : Outcome Acceptance)
          → m ≢ unfinished
          → (info : TermsInfo) × (catch_with default_terms_info (
                m >>= λ answer.
                if answer.has_accepted
                then returned default_terms_info
                else catch_with
                    (required none answer)
                    (remote.get_latest city d >>= λ latest. returned (required latest answer)))
              ≡ returned info)
            × ((info.requires_terms_acceptance ≡ true)
                ↔ ((answer : Acceptance) × (m ≡ returned answer) × (answer.has_accepted ≡ false)))
      by_answer (returned answer) e = elim (Bool-cases answer.has_accepted) [
        | inl a ↦ rw a (
          default_terms_info,
          refl,
          (λ x. cc, λ (b, p, q). let g : true ≡ b.has_accepted = ap accepted_by p in cc),
        )
        | inr a ↦
            let (info, p, q) = latest_returns answer (remote.get_latest city d) k in
            (info, rw (a, p), (λ x. (answer, refl, a), λ x. q))
      ]
      by_answer (thrown e') e = (default_terms_info, refl, (λ x. cc, λ (b, p, q). cc))
      by_answer unfinished e = absurd (e refl)
