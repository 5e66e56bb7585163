-- ===== src/Auth/Sessions.antt =====
-- apps/auth/src/modules/auth/auth.service.ts: `logout`, `getSessions`, `revokeSession` and
-- `revokeAllSessions`.
pub mod Logout
pub mod Revoked
use heidi_microservices.Common.{
  ℕ, Bool, true, false, ◌&&◌, ◌||◌, Option, none, some, List, String, str_eq, if◌then◌else◌,
}
use heidi_microservices.Common.Outcome.{Outcome, returned, thrown, not_found}
use heidi_microservices.Common.Action.{Action, ◌>>=◌, ◌>>◌, pure, throw, query, continue}
use heidi_microservices.Auth.{
  World, Session, TokenType, jwt, refresh, Caller, Deps, logout as logout_action, no_caller, on_db,
  read_db, cache_del, refresh_key, create_audit_log, is_unrevoked,
}

abbrev pub is_active_of : String → Session → Bool
is_active_of user r = str_eq r.user_id user && is_unrevoked r

abbrev pub revoke_row : ℕ → Session → Session
revoke_row now r = record r { revoked_at = some now }

abbrev is_asked : String → String → Session → Bool
is_asked user id r = str_eq r.id id && (str_eq r.user_id user && is_unrevoked r)

abbrev pub with_id : String → Session → Bool
with_id id r = str_eq r.id id

abbrev is_token_session : TokenType → Bool
is_token_session jwt = true
is_token_session refresh = true
is_token_session _ = false

module _ {R D : Type 0} (deps : Deps R D) where
  unfoldable pub logout : String → Caller → ℕ → Action (World R D) String
  logout user caller now = do
    cache_del deps.cache (refresh_key user)
    on_db (deps.sessions.update_many (is_active_of user) (revoke_row now))
    create_audit_log deps.audit (some user) logout_action true none caller
    pure "Logged out successfully"

  -- The rows, whose order and selection of fields are left to the reader.
  pub get_sessions : String → Action (World R D) (List Session)
  get_sessions user = read_db (deps.sessions.find_many (is_active_of user))

  -- The session of a token takes the stored refresh token with it.
  forget_token : String → Session → Action (World R D) (Unit {0})
  forget_token user session =
      if is_token_session session.token_type
      then (cache_del deps.cache (refresh_key user) >> pure tt)
      else pure tt

  revoke_found : String → String → ℕ → Option Session → Action (World R D) String
  revoke_found user id now none = throw (not_found "Session not found or already revoked")
  revoke_found user id now (some session) = do
    on_db (deps.sessions.update (with_id id) (revoke_row now))
    forget_token user session
    create_audit_log deps.audit (some user) logout_action true none no_caller
    pure "Session revoked successfully"

  pub revoke_session : String → String → ℕ → Action (World R D) String
  revoke_session user id now =
      read_db (deps.sessions.find (is_asked user id)) >>= revoke_found user id now

  -- The answer is the number of the sessions that were revoked.
  pub revoke_all_sessions : String → ℕ → Action (World R D) ℕ
  revoke_all_sessions user now = do
    count ← on_db (deps.sessions.update_many (is_active_of user) (revoke_row now))
    cache_del deps.cache (refresh_key user)
    create_audit_log deps.audit (some user) logout_action true none no_caller
    pure count
