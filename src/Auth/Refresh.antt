-- ===== src/Auth/Refresh.antt =====
-- apps/auth/src/modules/auth/auth.service.ts: `refreshTokens`.
pub mod Renewal
pub mod Rotation
pub mod AfterLogin
use heidi_microservices.Common.{
  ℕ, ◌+◌, ◌*◌, Bool, true, false, not, ◌&&◌, ◌||◌, Option, none, some, String, str_eq, or_text,
  truthy, if◌then◌else◌,
}
use heidi_microservices.Common.Outcome.{Outcome, returned, thrown, Exception, unauthorized}
use heidi_microservices.Common.Action.{Action, ◌>>=◌, ◌>>◌, pure, throw, query, continue}
use heidi_microservices.Jwt.{TokenPair, TokenPayload, verify_refresh_token}
use heidi_microservices.Auth.{
  World, User, Session, Deps, token_refresh, refresh, no_caller, read_db, try_catch, cache_get,
  cache_set, refresh_key, seven_days, thirty_days, create_audit_log, store_session, new_session,
}
use heidi_microservices.Auth.Tokens.{refreshed_tokens}

-- `!storedToken || storedToken !== refreshToken`
abbrev pub is_stored : String → Option String → Bool
is_stored token none = false
is_stored token (some stored) = truthy (some stored) && str_eq stored token

-- `payload.isGuest || user.userType === 'GUEST'`
abbrev pub is_guest : TokenPayload → User → Bool
is_guest payload user = payload.is_guest || str_eq user.user_type "GUEST"

abbrev pub refresh_expiry : Bool → ℕ
refresh_expiry guest = if guest then thirty_days else seven_days

abbrev pub refreshed_session : String → ℕ → Bool → User → Session
refreshed_session session now guest user =
    new_session session user.id refresh (now + refresh_expiry guest * 1000) user.device_id
      user.device_platform

module _ {R D : Type 0} (deps : Deps R D) where
  -- The new session and the log entry, and the answer.
  unfoldable pub record_refresh : Session → User → TokenPair → Action (World R D) TokenPair
  record_refresh row user tokens = do
    store_session deps.sessions row
    create_audit_log deps.audit (some user.id) token_refresh true none no_caller
    pure tokens

  -- The end of `refreshTokens`, for a user who may have new tokens.
  unfoldable pub renew : String → ℕ → Bool → User → TokenPair → Action (World R D) TokenPair
  renew session now guest user tokens =
      cache_set deps.cache (refresh_key user.id) tokens.refresh_token (refresh_expiry guest)
      >> record_refresh (refreshed_session session now guest user) user tokens

  unfoldable pub refuse_user : TokenPayload → Action (World R D) TokenPair
  refuse_user payload =
      create_audit_log deps.audit (some payload.sub) token_refresh false
        (some "User not found or inactive") no_caller
      >> throw (unauthorized "User not found or inactive")

  unfoldable pub refresh_user :
      String → ℕ → TokenPayload → Option User → Action (World R D) TokenPair
  refresh_user session now payload none = refuse_user payload
  refresh_user session now payload (some user) =
      if user.is_active
      then (read_db (
            refreshed_tokens deps user (is_guest payload user)
              (or_text payload.device_id user.device_id) now)
          >>= renew session now (is_guest payload user) user)
      else refuse_user payload

  unfoldable pub refresh_stored :
      String → String → ℕ → TokenPayload → Option String → Action (World R D) TokenPair
  refresh_stored session token now payload stored =
      if is_stored token stored
      then (read_db (deps.remote.find_by_id payload.sub) >>= refresh_user session now payload)
      else throw (unauthorized "Invalid refresh token")

  unfoldable pub refresh_verified :
      String → String → ℕ → TokenPayload → Action (World R D) TokenPair
  refresh_verified session token now payload =
      cache_get deps.cache (refresh_key payload.sub) >>= refresh_stored session token now payload

  abbrev refresh_failed : Exception → Action (World R D) TokenPair
  refresh_failed e = throw (unauthorized "Invalid refresh token")

  unfoldable pub refresh_tokens : String → String → ℕ → Action (World R D) TokenPair
  refresh_tokens session token now =
      try_catch
        (query (λ _. verify_refresh_token deps.signer deps.config token now)
          >>= refresh_verified session token now)
        refresh_failed
