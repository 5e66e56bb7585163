-- ===== src/Terms/Tests.antt =====
-- The terms service on tables in memory.
use heidi_microservices.Common.{◌≡◌, refl, true, none, some, List, [], ◌∷◌}
use heidi_microservices.Common.Outcome.{returned}
use heidi_microservices.Database.{Table, IsTable}
use heidi_microservices.Database.Memory.{memory, memory-IsTable}
use heidi_microservices.Terms.{
  Terms, UserTermsAcceptance, CreateTermsDto, UpdateTermsDto, AcceptTermsDto, AcceptanceCheck,
  new_acceptance,
}
use heidi_microservices.Terms.Queries.{
  newest, general_terms, get_latest_terms, has_user_accepted_latest_terms,
}
use heidi_microservices.Terms.Changes.{
  create_terms, update_terms, accept_terms, accept_found, accept_new,
}
use heidi_microservices.Terms.Latest.{IsOrderly}
use heidi_microservices.Terms.Latest.Runs.{create, update, start, call, Run-IsOrderly}
use heidi_microservices.Terms.Acceptance.{accepted_then_checked}

abbrev State : Type 0
State = List Terms × List UserTermsAcceptance

abbrev terms : Table State Terms
terms = memory (λ (s : State). s.0) (λ rs s. (rs, s.1)) (λ rs s. refl)

abbrev acceptances : Table State UserTermsAcceptance
acceptances = memory (λ (s : State). s.1) (λ rs s. (s.0, rs)) (λ rs s. refl)

terms-IsTable : IsTable terms
terms-IsTable = memory-IsTable (λ (s : State). s.0) (λ rs s. (rs, s.1)) (λ rs s. refl)

acceptances-IsTable : IsTable acceptances
acceptances-IsTable = memory-IsTable (λ (s : State). s.1) (λ rs s. (s.0, rs)) (λ rs s. refl)

abbrev general : Terms
general = record {
  id = "t1";
  version = "2024-01";
  title = "Terms";
  content = "…";
  locale = "de";
  city_id = none;
  is_active = true;
  is_latest = true;
  grace_period_days = 7;
  created_at = 1000;
  created_by = none;
}

abbrev accepting : AcceptTermsDto
accepting = record { terms_id = "t1"; locale = none }

abbrev anna_accepts : UserTermsAcceptance
anna_accepts = new_acceptance "a1" 2000 "anna" accepting none none general

abbrev published : State
published = (general ∷ [], [])

abbrev accepted : State
accepted = (general ∷ [], anna_accepts ∷ [])

abbrev publishing : CreateTermsDto
publishing = record {
  version = "2024-01";
  title = "Terms";
  content = "…";
  locale = "de";
  is_active = none;
  is_latest = some true;
  grace_period_days = none;
  city_id = none;
}

abbrev retitling : UpdateTermsDto
retitling = record {
  title = some "Terms of use";
  content = none;
  is_active = none;
  is_latest = some true;
  grace_period_days = none;
}

nothing-IsOrderly : IsOrderly []
nothing-IsOrderly = record { ids = λ q r m. absurd m; single = λ q r m. absurd m }

Run-IsOrderly_example :
    IsOrderly
      (update_terms terms acceptances 7 "t1" retitling
        (create_terms terms acceptances 7 "t1" 1000 publishing none ([], [])).1).1.0
Run-IsOrderly_example =
    Run-IsOrderly terms acceptances 7 terms-IsTable (λ r s. refl)
      (call (call start (create "t1" 1000 publishing none (λ r m. absurd m)))
        (update "t1" retitling))
      nothing-IsOrderly

latest_published :
    (s : State)
    → s.0 ≡ general ∷ []
    → get_latest_terms terms acceptances "en" (some "de") none s ≡ returned general
unfolding get_latest_terms general_terms newest
latest_published s h = rw h refl

accepted_then_checked_example :
    let after =
      (accept_terms terms acceptances 7 "a1" 2000 "anna" accepting none none published).1 in
    (check : AcceptanceCheck) × (has_user_accepted_latest_terms terms acceptances "en" "anna"
        (some "de")
        none
        3000
        after
      ≡ returned check)
    × (check.terms_id ≡ some "t1")
    × (check.has_accepted ≡ true)
unfolding accept_terms accept_found accept_new
accepted_then_checked_example =
    accepted_then_checked terms acceptances "en" 7 terms-IsTable acceptances-IsTable "a1" 2000 3000
      "anna" accepting none none (some "de") none published general anna_accepts (some anna_accepts)
      refl (latest_published _ refl) refl refl
