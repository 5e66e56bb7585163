-- ===== src/Auth/Refresh/AfterLogin.antt =====
-- apps/auth/src/modules/auth/auth.service.ts: the refresh token of a login can be used.
use heidi_microservices.Common.{
  ℕ, ◌≡◌, ◌≢◌, refl, Bool, true, false, none, some, String, str_eq, or_text, str_eq_refl,
  if◌then◌else◌,
}
use heidi_microservices.Common.Outcome.{Outcome, returned, thrown, unfinished}
use heidi_microservices.Common.Action.{Action, ◌>>=◌, continue}
use heidi_microservices.Redis
use heidi_microservices.Redis.{IsStore}
use heidi_microservices.Jwt.{TokenPair, TokenPayload, verify_refresh_token}
use heidi_microservices.Jwt.Laws.{IsSigner, verified_nonempty}
use heidi_microservices.Auth.{
  World, User, AuditEntry, Session, Deps, Caller, quiet, handled, refresh_key, read_db, cache_set,
  store_session, create_audit_log,
}
use heidi_microservices.Auth.Tokens.{refreshed_tokens}
use heidi_microservices.Auth.Login.{LoginDto, LoginAnswer, login}
use heidi_microservices.Auth.Login.Stored.{Writable, login_stored}
use heidi_microservices.Auth.Refresh.{
  is_stored, is_guest, refresh_expiry, refreshed_session, record_refresh, renew, refuse_user,
  refresh_user, refresh_stored, refresh_verified, refresh_failed, refresh_tokens,
}

module _ {R D : Type 0} (deps : Deps R D) where
  -- Whatever it is asked to write, the database and the cache end, be it with an exception.
  pub record Responsive : Type 0 where
    pub logs : (entry : AuditEntry) (d : D) → (deps.audit.create entry d).0 ≢ unfinished
    pub sessions : (row : Session) (d : D) → (deps.sessions.create row d).0 ≢ unfinished
    pub writes : (k v : String) (n : ℕ) (c : R) → (deps.cache.setex k n v c).0 ≢ unfinished

  -- A call that ends, whatever it returns, is followed by the rest.
  then_returns :
      {A B : Type 0} (m : Action (World R D) A) (k : A → Action (World R D) B) (s : World R D)
      {b : B}
      → ((a : A) × ((m s).0 ≡ returned a))
      → ((a : A) (t : World R D) → (k a t).0 ≡ returned b)
      → ((m >>= k) s).0 ≡ returned b
  then_returns {A} {B} m k s {b} (a, e) h = go (m s) e
    where
      go : (r : Outcome A × World R D) → r.0 ≡ returned a → (continue k r).0 ≡ returned b
      go (returned x, t) e = h x t
      go (thrown x, t) e = cc
      go (unfinished, t) e = cc

  quiet_returns :
      {A : Type 0} (r : Outcome A × World R D)
      → r.0 ≢ unfinished
      → (a : Unit {0}) × ((quiet r).0 ≡ returned a)
  quiet_returns (returned x, t) h = (tt, refl)
  quiet_returns (thrown x, t) h = (tt, refl)
  quiet_returns (unfinished, t) h = absurd (h refl)

  renew_returns :
      (r : Responsive) (session : String) (now : ℕ) (guest : Bool) (user : User)
      (tokens : TokenPair) (s : World R D)
      → (renew deps session now guest user tokens s).0 ≡ returned tokens
  unfolding renew record_refresh store_session create_audit_log
  renew_returns r session now guest user tokens s =
      then_returns
        (cache_set deps.cache (refresh_key user.id) tokens.refresh_token (refresh_expiry guest)) _ s
        (written guest)
        (λ _ t.
          then_returns (store_session deps.sessions (refreshed_session session now guest user)) _ t
            (quiet_returns _ (r.sessions _ t.db))
            (λ _ u.
              then_returns (create_audit_log deps.audit (some user.id) _ true none _) _ u
                (quiet_returns _ (r.logs _ u.db)) (λ _ v. refl)))
    where
      written :
          (guest : Bool)
          → (b : Bool) × ((Redis.set deps.cache
                (refresh_key user.id)
                tokens.refresh_token
                (some (refresh_expiry guest))
                s.cache).0
              ≡ returned b)
      written true =
          Redis.set_returns deps.cache (refresh_key user.id) tokens.refresh_token 2591999 s.cache
            (r.writes _ _ _ _)
      written false =
          Redis.set_returns deps.cache (refresh_key user.id) tokens.refresh_token 604799 s.cache
            (r.writes _ _ _ _)

  is_stored_self : (token : String) → str_eq token "" ≡ false → is_stored token (some token) ≡ true
  is_stored_self token h = rw (h, str_eq_refl token)

  refresh_returns :
      (r : Responsive) (session token : String) (now : ℕ) (s : World R D) (q : TokenPayload)
      (u : User) (pair : TokenPair)
      → verify_refresh_token deps.signer deps.config token now ≡ returned q
      → Redis.get deps.cache (refresh_key q.sub) s.cache ≡ returned (some token)
      → str_eq token "" ≡ false
      → deps.remote.find_by_id q.sub s.db ≡ returned (some u)
      → u.is_active ≡ true
      → refreshed_tokens deps u (is_guest q u) (or_text q.device_id u.device_id) now s.db
        ≡ returned pair
      → (refresh_tokens deps session token now s).0 ≡ returned pair
  unfolding refresh_tokens refresh_verified refresh_stored refresh_user
  refresh_returns r session token now s q u pair v g e f a t =
      rw (v, g, is_stored_self token e, f) (kept_returned _ (by_active u.is_active a))
    where
      kept_returned :
          (m : Outcome TokenPair × World R D)
          → m.0 ≡ returned pair
          → (handled (refresh_failed deps) m).0 ≡ returned pair
      kept_returned (returned x, t) h = h
      kept_returned (thrown x, t) h = cc
      kept_returned (unfinished, t) h = cc

      by_active :
          (b : Bool)
          → b ≡ true
          → ((if b
                then (read_db
                      (refreshed_tokens deps u (is_guest q u) (or_text q.device_id u.device_id) now)
                    >>= renew deps session now (is_guest q u) u)
                else refuse_user deps q)
              s).0
            ≡ returned pair
      by_active true e = rw t (renew_returns r session now (is_guest q u) u pair s)
      by_active false e = cc

  -- A user who has logged in can refresh: while the token of the login is read at all, the account is
  -- found and active, and new tokens can be made for it, `refreshTokens` returns those tokens. The
  -- conditions are that the cache took the write of the login, and that the writes of the refresh
  -- end, be it with an exception.
  pub login_then_refreshed :
      (r : Responsive) (laws : IsSigner deps.signer) (store : IsStore deps.cache)
      (session session' : String) (dto : LoginDto) (caller : Caller) (now later : ℕ) (s : World R D)
      (a : LoginAnswer) (q : TokenPayload) (u : User) (pair : TokenPair)
      → Writable deps s.cache
      → (login deps session dto caller now s).0 ≡ returned a
      → verify_refresh_token deps.signer deps.config a.tokens.refresh_token later ≡ returned q
      → deps.remote.find_by_id q.sub (login deps session dto caller now s).1.db ≡ returned (some u)
      → u.is_active ≡ true
      → refreshed_tokens deps u
          (is_guest q u)
          (or_text q.device_id u.device_id)
          later
          (login deps session dto caller now s).1.db
        ≡ returned pair
      → (refresh_tokens deps session' a.tokens.refresh_token later
          (login deps session dto caller now s).1).0
        ≡ returned pair
  login_then_refreshed r laws store session session' dto caller now later s a q u pair w h v f e t =
      let (stored, names) = login_stored deps laws store session dto caller now s a w h in
      refresh_returns r session' a.tokens.refresh_token later
        (login deps session dto caller now s).1 q u pair v (rw (names later q v) stored)
        (verified_nonempty deps.signer laws deps.config a.tokens.refresh_token later v) f e t
