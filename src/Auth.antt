-- ===== src/Auth.antt =====
-- apps/auth/src/modules/auth/auth.service.ts: the state, the log and the rows that the methods of
-- the service share. The cache and the databases are two parts of the state. The replies of the
-- other services, which come over RabbitMQ, and bcrypt are parameters; the time and the identifiers
-- of new sessions are arguments. An exception carries its code or its text alone, and the `metadata`
-- of log entries and sessions, which nothing reads, is left out.
pub mod EffectiveRole
pub mod TermsInfo
pub mod Tokens
pub mod Steady
pub mod Login
pub mod Refresh
pub mod Sessions
pub mod CityAdmin
pub mod Guests
mod Tests
use heidi_microservices.Common.{
  ℕ, ◌*◌, Bool, true, false, not, ◌||◌, Option, none, some, List, [], ◌∷◌, map, String, str_eq,
  text_append, truthy, or_text, if◌then◌else◌,
}
use heidi_microservices.Common.Outcome.{
  Outcome, returned, thrown, unfinished, Exception, unauthorized, failure,
}
use heidi_microservices.Common.Action.{Action, ◌>>=◌, ◌>>◌, pure, throw, query, continue}
use heidi_microservices.Database.{Table}
use heidi_microservices.Redis
use heidi_microservices.Redis.{Client}
use heidi_microservices.Rbac.Roles.{RoleClaim, role_number, number}
use heidi_microservices.Rbac.Permissions.{Assignment, CoreDb}
use heidi_microservices.Rbac.TermsGuard.{Acceptance}
use heidi_microservices.Jwt.{Signer, JwtConfig, CityAssignment}

pub record World (R D : Type 0) : Type 0 where
  pub cache : R
  pub db : D

-- A user as the users service sends it: `USER_FIND_BY_EMAIL` sends the role as its text,
-- `USER_FIND_BY_ID` as its number.
pub record User : Type 0 where
  pub id : String
  pub email : Option String
  pub email_verified : Option Bool
  pub password : Option String
  pub is_active : Bool
  pub role : RoleClaim
  pub user_type : String
  pub device_id : Option String
  pub device_platform : Option String

pub data AuthAction : Type 0 where
  login logout token_refresh registration_attempt : AuthAction

pub data TokenType : Type 0 where
  jwt oauth bind_id refresh : TokenType

pub record AuditEntry : Type 0 where
  pub user_id : Option String
  pub action : AuthAction
  pub success : Bool
  pub failure_reason : Option String
  pub ip_address : Option String
  pub user_agent : Option String

-- A row of `sessions`; times are milliseconds since the epoch.
pub record Session : Type 0 where
  pub id : String
  pub user_id : String
  pub token_type : TokenType
  pub expires_at : ℕ
  pub device_id : Option String
  pub device_platform : Option String
  pub revoked_at : Option ℕ

-- The address and the agent of the caller.
pub record Caller : Type 0 where
  pub ip_address : Option String
  pub user_agent : Option String

abbrev pub no_caller : Caller
no_caller = record { ip_address = none; user_agent = none }

module _ {R D A : Type 0} where
  abbrev pub on_cache : Action R A → Action (World R D) A
  on_cache m s = ((m s.cache).0, record s { cache = (m s.cache).1 })

  abbrev pub on_db : Action D A → Action (World R D) A
  on_db m s = ((m s.db).0, record s { db = (m s.db).1 })

  abbrev pub read_db : (D → Outcome A) → Action (World R D) A
  read_db f = query (λ s. f s.db)

  -- A call whose exception is only logged.
  abbrev pub quiet : Outcome A × World R D → Outcome (Unit {0}) × World R D
  quiet (returned a, s) = (returned tt, s)
  quiet (thrown e, s) = (returned tt, s)
  quiet (unfinished, s) = (unfinished, s)

  abbrev pub swallowed : Action (World R D) A → Action (World R D) (Unit {0})
  swallowed m s = quiet (m s)

-- `try { m } catch (error) { handler }`
module _ {S A : Type 0} where
  abbrev pub handled : (Exception → Action S A) → Outcome A × S → Outcome A × S
  handled handler (returned a, s) = (returned a, s)
  handled handler (thrown e, s) = handler e s
  handled handler (unfinished, s) = (unfinished, s)

  abbrev pub try_catch : Action S A → (Exception → Action S A) → Action S A
  try_catch m handler s = handled handler (m s)

abbrev pub refresh_key : String → String
refresh_key user = text_append "refresh_token:" user

abbrev pub seven_days : ℕ
seven_days = 7 * 24 * 60 * 60

abbrev pub thirty_days : ℕ
thirty_days = 30 * 24 * 60 * 60

abbrev pub city_assignment : Assignment → CityAssignment
city_assignment a = record {
  city_id = a.city_id;
  role = number (role_number a.role);
  can_manage_admins = a.can_manage_admins;
}

abbrev pub is_unrevoked : Session → Bool
is_unrevoked r = elim r.revoked_at [ none ↦ true | some at ↦ false ]

-- `cityAssignments.length > 0 ? cityAssignments[0].cityId : undefined`
abbrev pub first_city : List Assignment → Option String
first_city [] = none
first_city (a ∷ rest) = some a.city_id

-- `xs.length > 0 ? xs : undefined`
abbrev pub unless_empty {ℓ} : {A : Type ℓ} → List A → Option (List A)
unless_empty [] = none
unless_empty (x ∷ xs) = some (x ∷ xs)

-- `createAuditLog` and `storeSession`, whose own failures are only logged.
module _ {R D : Type 0} (audit : Table D AuditEntry) where
  pub create_audit_log :
      Option String → AuthAction → Bool → Option String → Caller → Action (World R D) (Unit {0})
  create_audit_log user action success reason caller = swallowed (
      on_db (
        audit.create (record {
          user_id = user;
          action = action;
          success = success;
          failure_reason = reason;
          ip_address = caller.ip_address;
          user_agent = caller.user_agent;
        })))

-- The row that `storeSession` creates.
abbrev pub new_session : String → String → TokenType → ℕ → Option String → Option String → Session
new_session id user type expires device platform = record {
  id = id;
  user_id = user;
  token_type = type;
  expires_at = expires;
  device_id = if truthy device then device else none;
  device_platform = if truthy platform then platform else none;
  revoked_at = none;
}

module _ {R D : Type 0} (sessions : Table D Session) where
  pub store_session : Session → Action (World R D) (Unit {0})
  store_session row = swallowed (on_db (sessions.create row))

-- The calls of the redis service, which report a failure as `false`.
module _ {R D V : Type 0} (cache : Client R V) where
  abbrev pub cache_set : String → V → ℕ → Action (World R D) Bool
  cache_set key value ttl = on_cache (Redis.set cache key value (some ttl))

  abbrev pub cache_del : String → Action (World R D) Bool
  cache_del key = on_cache (Redis.del cache key)

  abbrev pub cache_get : String → Action (World R D) (Option V)
  cache_get key = query (λ s. Redis.get cache key s.cache)

pub record LatestTerms : Type 0 where
  pub id : Option String
  pub version : Option String

-- The users service and the core service behind RabbitMQ, whose data are part of the databases.
pub record Remote (D : Type 0) : Type 0 where
  -- `USER_FIND_BY_EMAIL`, `USER_FIND_BY_ID`, `CORE_GET_USER_ASSIGNMENTS`
  pub find_by_email : String → D → Outcome (Option User)
  pub find_by_id : String → D → Outcome (Option User)
  pub assignments : String → D → Outcome (List Assignment)
  -- `TERMS_CHECK_ACCEPTANCE` for a user and a city, `TERMS_GET_LATEST` for a city
  pub check_acceptance : String → Option String → D → Outcome Acceptance
  pub get_latest : Option String → D → Outcome (Option LatestTerms)
  -- `bcrypt.compare`
  pub compare : String → Option String → Outcome Bool

-- What the service is constructed from.
pub record Deps (R D : Type 0) : Type 0 where
  pub sessions : Table D Session
  pub audit : Table D AuditEntry
  pub core : CoreDb
  pub signer : Signer
  pub config : JwtConfig
  pub cache : Client R String
  pub remote : Remote D
