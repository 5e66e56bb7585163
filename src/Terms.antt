-- ===== src/Terms.antt =====
-- apps/users/src/modules/terms/terms.service.ts: versions of the terms of use and who accepted them.
-- The tables are parameters; the time and the identifiers of new rows are arguments. An optional
-- argument and a nullable column are both an `Option`.
pub mod Queries
pub mod Changes
pub mod Latest
pub mod Required
pub mod Acceptance
mod Tests
use heidi_microservices.Common.{
  ℕ, ◌+◌, ◌*◌, Bool, true, false, not, ◌&&◌, Option, none, some, String, str_eq, text_append,
  truthy, or_else, is_some, ltb, if◌then◌else◌,
}
use heidi_microservices.Common.Outcome.{Outcome, returned}

-- A row of `terms_of_use`; times are milliseconds since the epoch.
pub record Terms : Type 0 where
  pub id : String
  pub version : String
  pub title : String
  pub content : String
  pub locale : String
  pub city_id : Option String
  pub is_active : Bool
  pub is_latest : Bool
  pub grace_period_days : ℕ
  pub created_at : ℕ
  pub created_by : Option String

-- A row of `user_terms_acceptance`.
pub record UserTermsAcceptance : Type 0 where
  pub id : String
  pub user_id : String
  pub terms_id : String
  pub version : String
  pub locale : String
  pub ip_address : Option String
  pub user_agent : Option String
  pub accepted_at : ℕ

pub record CreateTermsDto : Type 0 where
  pub version : String
  pub title : String
  pub content : String
  pub locale : String
  pub is_active : Option Bool
  pub is_latest : Option Bool
  pub grace_period_days : Option ℕ
  pub city_id : Option String

pub record UpdateTermsDto : Type 0 where
  pub title : Option String
  pub content : Option String
  pub is_active : Option Bool
  pub is_latest : Option Bool
  pub grace_period_days : Option ℕ

pub record AcceptTermsDto : Type 0 where
  pub terms_id : String
  pub locale : Option String

-- The answer of `hasUserAcceptedLatestTerms`.
pub record AcceptanceCheck : Type 0 where
  pub has_accepted : Bool
  pub terms_id : Option String
  pub grace_period_ends_at : Option ℕ

pub record AcceptanceStatus : Type 0 where
  pub has_accepted : Bool
  pub accepted_version : Option String
  pub latest_version : Option String
  pub needs_acceptance : Bool
  pub terms_id : Option String
  pub grace_period_ends_at : Option ℕ

abbrev pub same_city : Option String → Option String → Bool
same_city none none = true
same_city (some a) (some b) = str_eq a b
same_city _ _ = false

-- `locale || this.defaultLocale`
abbrev pub target_locale : String → Option String → String
target_locale default_locale locale =
    if truthy locale then or_else locale default_locale else default_locale

abbrev pub for_city : String → Option String → Terms → Bool
for_city locale city r = str_eq r.locale locale && same_city r.city_id city

-- The `where` of `getLatestTerms`.
abbrev pub latest_for : String → Option String → Terms → Bool
latest_for locale city r = r.is_active && (r.is_latest && for_city locale city r)

abbrev pub version_for : String → String → Option String → Terms → Bool
version_for version locale city r = str_eq r.version version && for_city locale city r

abbrev pub with_terms_id : String → Terms → Bool
with_terms_id id r = str_eq r.id id

abbrev pub accepted_by : String → String → UserTermsAcceptance → Bool
accepted_by user terms r = str_eq r.user_id user && str_eq r.terms_id terms

abbrev pub grace_period_end : Terms → ℕ
grace_period_end t = t.created_at + t.grace_period_days * 86400000

abbrev pub is_within_grace_period : ℕ → Terms → Bool
is_within_grace_period now t = ltb now (grace_period_end t)

abbrev pub non_empty : Option String → Option String
non_empty t = if truthy t then t else none

-- The row that `acceptTerms` creates.
abbrev pub new_acceptance :
    String
    → ℕ
    → String
    → AcceptTermsDto
    → Option String
    → Option String
    → Terms
    → UserTermsAcceptance
new_acceptance id now user dto ip agent terms = record {
  id = id;
  user_id = user;
  terms_id = terms.id;
  version = terms.version;
  locale = target_locale terms.locale dto.locale;
  ip_address = ip;
  user_agent = agent;
  accepted_at = now;
}

-- The row that `createTerms` creates.
abbrev pub new_terms : ℕ → String → ℕ → CreateTermsDto → Option String → Terms
new_terms default_days id now dto created_by = record {
  id = id;
  version = dto.version;
  title = dto.title;
  content = dto.content;
  locale = dto.locale;
  city_id = dto.city_id;
  is_active = or_else dto.is_active true;
  is_latest = or_else dto.is_latest false;
  grace_period_days = or_else dto.grace_period_days default_days;
  created_at = now;
  created_by = created_by;
}

abbrev pub unmark : Terms → Terms
unmark r = record r { is_latest = false }

-- The `where` of the rows that new latest terms replace.
abbrev pub latest_of : String → Option String → Terms → Bool
latest_of locale city r = r.is_latest && for_city locale city r

abbrev pub other_latest : Terms → Terms → Bool
other_latest terms r = latest_of terms.locale terms.city_id r && not (with_terms_id terms.id r)

-- The `data` of `updateTerms`.
abbrev pub edited : UpdateTermsDto → Terms → Terms
edited dto r = record r {
  title = or_else (non_empty dto.title) r.title;
  content = or_else (non_empty dto.content) r.content;
  is_active = or_else dto.is_active r.is_active;
  is_latest = or_else dto.is_latest r.is_latest;
  grace_period_days = or_else dto.grace_period_days r.grace_period_days;
}

abbrev terms_type : Option String → String
terms_type city = if truthy city then text_append "city " (or_else city "") else "general"

abbrev pub exists_message : CreateTermsDto → String
exists_message dto = text_append "Terms version " (
    text_append dto.version (
      text_append " already exists for locale " (
        text_append dto.locale
          (text_append " (" (text_append (terms_type dto.city_id) " terms)")))))

abbrev pub no_latest : String → String
no_latest target = text_append "No active terms of use found for locale: " target

abbrev pub no_version : String → String → Option String → String
no_version version target city = text_append "Terms version " (
    text_append version (
      text_append " not found for locale: " (
        text_append target
          (if truthy city then text_append " and city: " (or_else city "") else ""))))

-- The terms that were found, or what follows when there are none.
abbrev pub found_or : Outcome Terms → Option Terms → Outcome Terms
found_or rest (some t) = returned t
found_or rest none = rest
