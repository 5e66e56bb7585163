-- ===== src/Rbac/TermsGuard.antt =====
-- libs/rbac/src/guards/terms-acceptance.guard.ts. The answers of the users service, which come over
-- RabbitMQ, are the parameter `TermsClient`; the time is an argument.
use Prim.Native.Char.{code}
use Prim.Native.String as NativeString
use heidi_microservices.Common.{
  ℕ, ◌≡◌, ◌≢◌, refl, ap, ◌∙◌, eq_iff, inl, inr, Bool, true, false, Option, none, some, String,
  arith, ltb, ◌==◌, str_eq, truthy, or_text, or_else, Bool-cases, if◌then◌else◌,
}
use heidi_microservices.Common.Outcome.{
  Outcome, returned, thrown, unfinished, ◌>>=◌, catch_with, forbidden, failure,
}
use heidi_microservices.Rbac.Request.{TokenUser, Request, user_key}

-- The reply to `TERMS_CHECK_ACCEPTANCE`; times are milliseconds since the epoch.
pub record Acceptance : Type 0 where
  pub has_accepted : Bool
  pub terms_id : Option String
  pub grace_period_ends_at : Option ℕ

pub record TermsClient : Type 0 where
  -- user, locale, city
  pub check_acceptance : String → String → Option String → Outcome Acceptance
  -- locale, city; the reply only fills in the exception
  pub get_latest : String → Option String → Outcome (Option String)

-- `text.split(sep)[0]`, at a separator of one character.
abbrev before : ℕ → String → String
before sep NativeString.[] = ""
before sep (NativeString.◌∷◌ c s) = if code c == sep then "" else NativeString.◌∷◌ c (before sep s)

abbrev header_locale : Option String → Option String
header_locale none = none
header_locale (some value) = some (before b'-' (before b',' value))

pub request_locale : String → Request → String
request_locale default_locale request =
    or_else
      (or_text (header_locale request.accept_language)
        (or_text request.query_locale (some default_locale)))
      default_locale

-- `user.selectedCityId || user.cityId || null`
abbrev user_city : TokenUser → Option String
user_city u =
    let chosen = or_text u.selected_city_id u.city_id in if truthy chosen then chosen else none

-- `catch (error)`: an exception that the guard itself made goes on, any other lets the request in.
rethrow_forbidden : Outcome Bool → Outcome Bool
rethrow_forbidden (returned b) = returned b
rethrow_forbidden (thrown (forbidden m)) = thrown (forbidden m)
rethrow_forbidden (thrown e) = returned true
rethrow_forbidden unfinished = unfinished

-- `gracePeriodEndsAt && new Date() < gracePeriodEnd`
abbrev pub in_grace : ℕ → Option ℕ → Bool
in_grace now none = false
in_grace now (some ends) = ltb now ends

module _ (client : TermsClient) (default_locale : String) (now : ℕ) where
  block : Request → TokenUser → Outcome Bool
  block request user =
      catch_with none (client.get_latest (request_locale default_locale request) (user_city user))
      >>= λ latest. thrown (forbidden "TERMS_NOT_ACCEPTED")

  decide : Request → TokenUser → Acceptance → Outcome Bool
  decide request user answer =
      if answer.has_accepted
      then returned true
      else if in_grace now answer.grace_period_ends_at
      then returned true
      else block request user

  check_user : Request → Option TokenUser → Outcome Bool
  check_user request none = returned true
  check_user request (some user) =
      if str_eq (user_key user) ""
      then returned true
      else rethrow_forbidden (
          client.check_acceptance (user_key user) (request_locale default_locale request)
            (user_city user)
          >>= decide request user)

  pub terms_acceptance_guard : Bool → Request → Outcome Bool
  terms_acceptance_guard true request = returned true
  terms_acceptance_guard false request = check_user request request.user

  -- On a route that is not exempt, a user who is known and for whom the users service answers is
  -- let in exactly if the terms are accepted or the grace period has not ended; otherwise, if the
  -- second query ends at all, the request is refused.
  pub terms_acceptance_guard_answered :
      (request : Request) (user : TokenUser) (answer : Acceptance)
      → request.user ≡ some user
      → user_key user ≢ ""
      → client.check_acceptance
          (user_key user)
          (request_locale default_locale request)
          (user_city user)
        ≡ returned answer
      → client.get_latest (request_locale default_locale request) (user_city user) ≢ unfinished
      → terms_acceptance_guard false request ≡ (
          if answer.has_accepted
          then returned true
          else if in_grace now answer.grace_period_ends_at
          then returned true
          else thrown (forbidden "TERMS_NOT_ACCEPTED"))
  unfolding terms_acceptance_guard check_user decide block rethrow_forbidden
  terms_acceptance_guard_answered request user answer u k a f =
      ap (check_user request) u
      ∙ rw (key, a)
          (elim (Bool-cases answer.has_accepted) [
            | inl e ↦ rw e
            | inr e ↦ elim (Bool-cases (in_grace now answer.grace_period_ends_at)) [
              | inl g ↦ rw (e, g)
              | inr g ↦ rw (e, g) (refused _ f)
            ]
          ])
    where
      key : str_eq (user_key user) "" ≡ false
      key = ground (arith, eq_iff (user_key user) "")

      refused :
          (m : Outcome (Option String))
          → m ≢ unfinished
          → rethrow_forbidden
              (catch_with none m >>= λ latest. thrown (forbidden "TERMS_NOT_ACCEPTED"))
            ≡ thrown (forbidden "TERMS_NOT_ACCEPTED")
      refused (returned a) h = refl
      refused (thrown e) h = refl
      refused unfinished h = absurd (h refl)

  -- If the check fails with an error that is no HTTP exception, such as a timeout, the request is
  -- let in.
  pub terms_acceptance_guard_open :
      (request : Request) (user : TokenUser) (m : String)
      → request.user ≡ some user
      → client.check_acceptance
          (user_key user)
          (request_locale default_locale request)
          (user_city user)
        ≡ thrown (failure m)
      → terms_acceptance_guard false request ≡ returned true
  unfolding terms_acceptance_guard check_user rethrow_forbidden
  terms_acceptance_guard_open request user m u a = elim (Bool-cases (str_eq (user_key user) "")) [
    | inl e ↦ ap (check_user request) u ∙ rw e
    | inr e ↦ ap (check_user request) u ∙ rw (e, a)
  ]
