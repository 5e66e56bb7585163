-- ===== src/Auth/Sessions/Logout.antt =====
-- apps/auth/src/modules/auth/auth.service.ts: after `logout` and after `revokeAllSessions` no refresh
-- token of the user is good any more.
use heidi_microservices.Common.{ℕ, ◌≡◌, refl, ap, ◌∙◌, true, none, some, String}
use heidi_microservices.Common.Outcome.{returned}
use heidi_microservices.Common.Action.{Action, ◌>>◌, pure, bind_returned}
use heidi_microservices.Redis
use heidi_microservices.Redis.{Client, IsErasing}
use heidi_microservices.Jwt.{TokenPayload, verify_refresh_token}
use heidi_microservices.Auth.{
  World, Deps, Caller, logout as logout_action, on_db, cache_del, refresh_key, create_audit_log,
}
use heidi_microservices.Auth.Steady.{Steady, >>=-Steady, create_audit_log-Steady}
use heidi_microservices.Auth.Refresh.{refresh_tokens}
use heidi_microservices.Auth.Refresh.Renewal.{Refused, refresh_tokens-Refused}
use heidi_microservices.Auth.Sessions.{is_active_of, revoke_row, logout}

module _ {R D : Type 0} (deps : Deps R D) where
  -- The cache takes the deletion of any key.
  abbrev pub Erasable : R → Type 0
  Erasable c = (k : String) → (n : ℕ) × ((deps.cache.del k c).0 ≡ returned n)

  abbrev Forgotten : String → World R D → Type 0
  Forgotten user s = Redis.get deps.cache (refresh_key user) s.cache ≡ returned none

  cache_del-Forgotten :
      (erases : IsErasing deps.cache) (user : String) (s : World R D)
      → Erasable s.cache
      → Forgotten user (cache_del deps.cache (refresh_key user) s).1
  cache_del-Forgotten erases user s e =
      let (n, h) = e (refresh_key user) in
      rw (Redis.del_state deps.cache (refresh_key user) s.cache) (
        Redis.get_returns deps.cache (refresh_key user) _
          (erases.del_gone s.cache (refresh_key user) n h))

  Forgotten-Refused :
      (session token user : String) (later : ℕ) (s : World R D)
      → Forgotten user s
      → ((p : TokenPayload)
          → verify_refresh_token deps.signer deps.config token later ≡ returned p
          → p.sub ≡ user)
      → Refused deps (refresh_tokens deps session token later s).0
  Forgotten-Refused session token user later s f names =
      refresh_tokens-Refused deps session token later s (λ p v. (none, rw (names p v) f, refl))

  -- The rest of `logout`, after the stored token is deleted.
  logout_rest : String → Caller → ℕ → Action (World R D) String
  logout_rest user caller now = do
    on_db (deps.sessions.update_many (is_active_of user) (revoke_row now))
    create_audit_log deps.audit (some user) logout_action true none caller
    pure "Logged out successfully"

  logout_rest-Steady :
      (user : String) (caller : Caller) (now : ℕ) → Steady (logout_rest user caller now)
  unfolding logout_rest
  logout_rest-Steady user caller now =
      >>=-Steady (on_db (deps.sessions.update_many (is_active_of user) (revoke_row now))) _
        (λ s. refl)
        (λ _.
          >>=-Steady (create_audit_log deps.audit (some user) logout_action true none caller) _
            (create_audit_log-Steady deps.audit _ _ _ _ _) (λ _ s. refl))

  -- After a logout that returned, a refresh token of the user, whatever its age, is refused, if the
  -- cache took the deletion.
  pub logged_out :
      (erases : IsErasing deps.cache) (session token user : String) (caller : Caller)
      (now later : ℕ) (s : World R D) (m : String)
      → Erasable s.cache
      → (logout deps user caller now s).0 ≡ returned m
      → ((p : TokenPayload)
          → verify_refresh_token deps.signer deps.config token later ≡ returned p
          → p.sub ≡ user)
      → Refused deps (refresh_tokens deps session token later (logout deps user caller now s).1).0
  unfolding logout logout_rest
  logged_out erases session token user caller now later s m e h names =
      let del = cache_del {D = D} deps.cache (refresh_key user) in
      let (_, _, w, _) = bind_returned del (λ _. logout_rest user caller now) s h in
      Forgotten-Refused session token user later (logout deps user caller now s).1
        (rw (ap (λ r. r.1.cache) w ∙ logout_rest-Steady user caller now (del s).1)
          (cache_del-Forgotten erases user s e))
        names
