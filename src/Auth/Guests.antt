-- ===== src/Auth/Guests.antt =====
-- apps/auth/src/modules/auth/auth.service.ts: `createGuestSession` and `convertGuestToRegistered`.
-- The calls of the users service that make and convert guests are parameters.
pub mod Laws
use heidi_microservices.Common.{
  ℕ, ◌+◌, ◌*◌, Bool, true, false, not, Option, none, some, List, [], String, str_eq, if◌then◌else◌,
}
use heidi_microservices.Common.Outcome.{
  Outcome, returned, thrown, Exception, unauthorized, catch_with,
}
use heidi_microservices.Common.Action.{Action, ◌>>=◌, ◌>>◌, pure, throw, query, continue}
use heidi_microservices.Rbac.Roles.{UserRole, text, cast_role}
use heidi_microservices.Rbac.Permissions.{Assignment, get_user_permissions}
use heidi_microservices.Jwt.{TokenPair, generate_token_pair}
use heidi_microservices.Auth.{
  World, User, Caller, Deps, login, registration_attempt, jwt, on_db, read_db, try_catch, cache_set,
  refresh_key, seven_days, thirty_days, create_audit_log, store_session, new_session,
}
use heidi_microservices.Auth.Tokens.{token_options}

-- The metadata of the device, which nothing here reads, is left out.
pub record GuestLoginDto : Type 0 where
  pub device_id : String
  pub device_platform : String

pub record ConvertGuestDto : Type 0 where
  pub guest_user_id : String
  pub email : String
  pub username : Option String
  pub password : String
  pub first_name : Option String
  pub last_name : Option String
  pub city_id : Option String

-- `USER_FIND_BY_DEVICE`, `USER_CREATE_GUEST`, `USER_CONVERT_GUEST`
pub record GuestRemote (D : Type 0) : Type 0 where
  pub find_by_device : String → String → D → Outcome (Option User)
  pub create_guest : GuestLoginDto → Action D User
  pub convert_guest : ConvertGuestDto → Action D User

pub record GuestAnswer : Type 0 where
  pub user : User
  pub tokens : TokenPair

abbrev pub is_guest_user : User → Bool
is_guest_user user = str_eq user.user_type "GUEST"

-- A text that is no role has no permissions: the query throws, and its exception is caught.
abbrev pub permissions_of :
    (UserRole → Outcome (List String)) → Option UserRole → Outcome (List String)
permissions_of get none = returned []
permissions_of get (some role) = get role

abbrev pub is_unauthorized : Exception → Bool
is_unauthorized (unauthorized m) = true
is_unauthorized _ = false

module _ {R D : Type 0} (deps : Deps R D) (guests : GuestRemote D) where
  create_unless_found : GuestLoginDto → Option User → Action (World R D) User
  create_unless_found dto (some guest) = pure guest
  create_unless_found dto none = on_db (guests.create_guest dto)

  -- The session, the log entry and the answer.
  guest_answer :
      String → GuestLoginDto → Caller → ℕ → User → TokenPair → Action (World R D) GuestAnswer
  guest_answer session dto caller now guest tokens = do
    store_session deps.sessions (
        new_session session guest.id jwt (now + thirty_days * 1000) (some dto.device_id)
          (some dto.device_platform))
    create_audit_log deps.audit (some guest.id) login true none caller
    pure (record { user = guest; tokens = tokens })

  abbrev pub guest_tokens : User → ℕ → Outcome TokenPair
  guest_tokens guest now =
      generate_token_pair deps.signer deps.config guest.id none (text "CITIZEN")
        (token_options true guest.device_id [] []) now

  pub create_guest_session : String → GuestLoginDto → Caller → ℕ → Action (World R D) GuestAnswer
  create_guest_session session dto caller now = do
    found ← read_db (guests.find_by_device dto.device_id dto.device_platform)
    guest ← create_unless_found dto found
    tokens ← query (λ _. guest_tokens guest now)
    cache_set deps.cache (refresh_key guest.id) tokens.refresh_token thirty_days
    guest_answer session dto caller now guest tokens

  -- The tokens of a converted user, who has the permissions of the role of the account.
  registered_tokens : User → List Assignment → List String → ℕ → Outcome TokenPair
  registered_tokens user assignments permissions now =
      generate_token_pair deps.signer deps.config user.id user.email user.role
        (token_options false none assignments permissions) now

  -- The new tokens of a user who was a guest.
  convert_user : String → Caller → ℕ → User → Action (World R D) GuestAnswer
  convert_user session caller now user = do
    assignments ← read_db (λ d. catch_with [] (deps.remote.assignments user.id d))
    permissions ← query (λ _. permissions_of (get_user_permissions deps.core) (cast_role user.role))
    tokens ← query (λ _. registered_tokens user assignments permissions now)
    cache_set deps.cache (refresh_key user.id) tokens.refresh_token seven_days
    store_session deps.sessions
        (new_session session user.id jwt (now + seven_days * 1000) none none)
    create_audit_log deps.audit (some user.id) registration_attempt true none caller
    pure (record { user = user; tokens = tokens })

  convert_found :
      String → ConvertGuestDto → Caller → ℕ → Option User → Action (World R D) GuestAnswer
  convert_found session dto caller now none = throw (unauthorized "Invalid guest user")
  convert_found session dto caller now (some guest) =
      if is_guest_user guest
      then (on_db (guests.convert_guest dto) >>= convert_user session caller now)
      else throw (unauthorized "Invalid guest user")

  abbrev convert_failed : Exception → Action (World R D) GuestAnswer
  convert_failed e =
      if is_unauthorized e then throw e else throw (unauthorized "Failed to convert guest user")

  pub convert_guest_to_registered :
      String → ConvertGuestDto → Caller → ℕ → Action (World R D) GuestAnswer
  convert_guest_to_registered session dto caller now =
      try_catch
        (read_db (deps.remote.find_by_id dto.guest_user_id)
          >>= convert_found session dto caller now)
        convert_failed
