-- ===== src/Auth/Login.antt =====
-- apps/auth/src/modules/auth/auth.service.ts: `login`.
pub mod Laws
pub mod Refusals
pub mod Stored
use heidi_microservices.Common.{
  ℕ, ◌+◌, ◌*◌, Bool, true, false, not, ◌&&◌, Option, none, some, List, map, String, text_append,
  truthy, if◌then◌else◌,
}
use heidi_microservices.Common.Outcome.{
  Outcome, returned, thrown, Exception, unauthorized, forbidden, not_found, bad_request,
  unprocessable, failure,
}
use heidi_microservices.Common.Action.{Action, ◌>>=◌, ◌>>◌, pure, throw, query, continue}
use heidi_microservices.Rbac.Roles.{claim_to_number}
use heidi_microservices.Rbac.Permissions.{Assignment}
use heidi_microservices.Jwt.{TokenPair}
use heidi_microservices.Auth.{
  World, User, Caller, Deps, AuditEntry, login as login_action, jwt, read_db, try_catch, cache_set,
  refresh_key, seven_days, thirty_days, city_assignment, first_city, unless_empty, create_audit_log,
  store_session, new_session,
}
use heidi_microservices.Auth.Tokens.{login_tokens}
use heidi_microservices.Auth.TermsInfo.{TermsInfo, check_terms_acceptance}

pub record LoginDto : Type 0 where
  pub email : String
  pub password : String
  pub remember_me : Bool

pub record LoginAnswer : Type 0 where
  pub user_id : String
  pub email : Option String
  pub role : ℕ
  pub tokens : TokenPair
  pub terms : TermsInfo

-- `error instanceof HttpException`
abbrev pub is_http : Exception → Bool
is_http (failure m) = false
is_http _ = true

-- `error.message`
abbrev message_of : Exception → String
message_of (unauthorized m) = m
message_of (forbidden m) = m
message_of (not_found m) = m
message_of (bad_request m) = m
message_of (unprocessable m) = m
message_of (failure m) = m

abbrev pub is_verified : Option Bool → Bool
is_verified none = false
is_verified (some b) = b

-- The e-mail address, if there is one, has to be verified.
abbrev pub needs_verification : User → Bool
needs_verification user = truthy user.email && not (is_verified user.email_verified)

abbrev pub login_expiry : LoginDto → ℕ
login_expiry dto = if dto.remember_me then thirty_days else seven_days

module _ {R D : Type 0} (deps : Deps R D) where
  abbrev log_login : Option String → Bool → Option String → Caller → Action (World R D) (Unit {0})
  log_login user success reason caller =
      create_audit_log deps.audit user login_action success reason caller

  -- The session, the log entry and the answer.
  unfoldable pub admit_rest :
      String
      → LoginDto
      → Caller
      → ℕ
      → User
      → List Assignment
      → TokenPair
      → Action (World R D) LoginAnswer
  admit_rest session dto caller now user assignments tokens = do
    store_session deps.sessions
        (new_session session user.id jwt (now + login_expiry dto * 1000) none none)
    log_login (some user.id) true none caller
    terms ← read_db (check_terms_acceptance deps.remote user.id (first_city assignments))
    pure (record {
      user_id = user.id;
      email = user.email;
      role = claim_to_number user.role;
      tokens = tokens;
      terms = terms;
    })

  -- The end of `login`, when the password is right.
  unfoldable pub admit : String → LoginDto → Caller → ℕ → User → Action (World R D) LoginAnswer
  admit session dto caller now user = do
    assignments ← read_db (deps.remote.assignments user.id)
    tokens ← query (λ _. login_tokens deps user assignments now)
    cache_set deps.cache (refresh_key user.id) tokens.refresh_token (login_expiry dto)
    admit_rest session dto caller now user assignments tokens

  -- An attempt that is refused is logged first.
  unfoldable pub refuse :
      {A : Type 0} → Option String → String → Exception → Caller → Action (World R D) A
  refuse user reason e caller = log_login user false (some reason) caller >> throw e

  unfoldable pub check_password :
      String → LoginDto → Caller → ℕ → User → Bool → Action (World R D) LoginAnswer
  check_password session dto caller now user valid =
      if valid
      then admit session dto caller now user
      else refuse (some user.id) (text_append "Invalid password for email: " dto.email)
          (unauthorized "INVALID_CREDENTIALS") caller

  unfoldable pub login_user : String → LoginDto → Caller → ℕ → User → Action (World R D) LoginAnswer
  login_user session dto caller now user =
      if not user.is_active
      then refuse (some user.id) (text_append "Account is inactive for email: " dto.email)
          (unauthorized "ACCOUNT_INACTIVE") caller
      else if needs_verification user
      then refuse (some user.id) "Email not verified" (forbidden "EMAIL_VERIFICATION_REQUIRED")
          caller
      else (query (λ _. deps.remote.compare dto.password user.password)
          >>= check_password session dto caller now user)

  unfoldable pub login_found :
      String → LoginDto → Caller → ℕ → Option User → Action (World R D) LoginAnswer
  login_found session dto caller now none =
      refuse none (text_append "Account not found with email: " dto.email)
        (unauthorized "ACCOUNT_NOT_FOUND") caller
  login_found session dto caller now (some user) = login_user session dto caller now user

  -- HTTP exceptions go on, any other error is logged and becomes one.
  unfoldable pub login_failed : {A : Type 0} → Caller → Exception → Action (World R D) A
  login_failed caller e =
      if is_http e then throw e else refuse none (message_of e) (unauthorized "LOGIN_ERROR") caller

  unfoldable pub login : String → LoginDto → Caller → ℕ → Action (World R D) LoginAnswer
  login session dto caller now =
      try_catch
        (read_db (deps.remote.find_by_email dto.email) >>= login_found session dto caller now)
        (login_failed caller)
