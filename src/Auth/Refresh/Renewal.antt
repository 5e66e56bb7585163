-- ===== src/Auth/Refresh/Renewal.antt =====
-- apps/auth/src/modules/auth/auth.service.ts: what a call of `refreshTokens` does when it refuses a
-- token and when it returns.
use heidi_microservices.Common.{
  ℕ, ◌≡◌, ◌≢◌, refl, ap, ◌∙◌, inl, inr, eq_iff, arith, Bool, true, false, Option, none, some,
  String, or_text, Bool-cases, if◌then◌else◌,
}
use heidi_microservices.Common.Outcome.{
  returned-inj, Outcome, returned, thrown, unfinished, unauthorized,
}
use heidi_microservices.Common.Action.{Action, ◌>>=◌, continue, query, bind_returned}
use heidi_microservices.Redis
use heidi_microservices.Redis.{Client, IsStore}
use heidi_microservices.Jwt.{TokenPair, TokenPayload, verify_refresh_token}
use heidi_microservices.Jwt.Laws.{verify_refresh_token_ends}
use heidi_microservices.Auth.{
  World, User, Session, Deps, token_refresh, no_caller, handled, cache_set, refresh_key,
  store_session, create_audit_log, thirty_days, seven_days, read_db,
}
use heidi_microservices.Auth.Steady.{
  Steady, >>=-Steady, create_audit_log-Steady, store_session-Steady,
}
use heidi_microservices.Auth.Tokens.{refreshed_tokens}
use heidi_microservices.Auth.Refresh.{
  is_stored, is_guest, refresh_expiry, refreshed_session, record_refresh, renew, refuse_user,
  refresh_user, refresh_stored, refresh_verified, refresh_failed, refresh_tokens,
}

module _ {R D : Type 0} (deps : Deps R D) where
  -- What `refreshTokens` answers to a token that it does not accept.
  abbrev pub Refused : Outcome TokenPair → Type 0
  Refused m = m ≡ thrown (unauthorized "Invalid refresh token")

  handled-Refused :
      (r : Outcome TokenPair × World R D)
      → ((t : TokenPair) → r.0 ≢ returned t)
      → r.0 ≢ unfinished
      → Refused (handled (refresh_failed deps) r).0
  handled-Refused (returned t, s) h k = absurd (h t refl)
  handled-Refused (thrown e, s) h k = refl
  handled-Refused (unfinished, s) h k = absurd (k refl)

  -- A token is refused if it is not the one that is stored for its user, be none or another stored.
  pub refresh_tokens-Refused :
      (session token : String) (now : ℕ) (s : World R D)
      → ((p : TokenPayload)
          → verify_refresh_token deps.signer deps.config token now ≡ returned p
          → (o : Option String) × (Redis.get deps.cache (refresh_key p.sub) s.cache ≡ returned o)
            × (is_stored token o ≡ false))
      → Refused (refresh_tokens deps session token now s).0
  unfolding refresh_tokens refresh_verified refresh_stored
  refresh_tokens-Refused session token now s h =
      go (verify_refresh_token deps.signer deps.config token now)
        (verify_refresh_token_ends deps.signer deps.config token now) h
    where
      go :
          (m : Outcome TokenPayload)
          → m ≢ unfinished
          → ((p : TokenPayload)
              → m ≡ returned p
              → (o : Option String) × (Redis.get deps.cache (refresh_key p.sub) s.cache
                  ≡ returned o)
                × (is_stored token o ≡ false))
          → Refused
              (handled
                (refresh_failed deps)
                (continue (refresh_verified deps session token now) (m, s))).0
      go (thrown e) k h = refl
      go unfinished k h = absurd (k refl)
      go (returned p) k h = let (o, f, x) = h p refl in rw (f, x)

  record_refresh-Steady :
      (row : Session) (user : User) (tokens : TokenPair)
      → Steady (record_refresh deps row user tokens)
  unfolding record_refresh
  record_refresh-Steady row user tokens =
      >>=-Steady (store_session deps.sessions row) _ (store_session-Steady deps.sessions row) (λ _.
        >>=-Steady (create_audit_log deps.audit (some user.id) token_refresh true none no_caller) _
          (create_audit_log-Steady deps.audit _ _ _ _ _) (λ _ s. refl))

  record_refresh-eq-returned :
      (row : Session) (user : User) (tokens t : TokenPair) (s : World R D)
      → (record_refresh deps row user tokens s).0 ≡ returned t
      → tokens ≡ t
  unfolding record_refresh
  record_refresh-eq-returned row user tokens t s h =
      let (a, _, _, k) = bind_returned (store_session deps.sessions row) _ s h in
      let (b, _, _, l) =
        bind_returned (create_audit_log deps.audit (some user.id) token_refresh true none no_caller)
          _ _ k in
      returned-inj l

  -- The cache takes the write of any key with any time to live.
  abbrev pub Writable : R → Type 0
  Writable c = (k v : String) (n : ℕ) → (deps.cache.setex k n v c).0 ≡ returned tt

  read_back :
      (store : IsStore deps.cache) (guest : Bool) (k v : String) (c : R)
      → Writable c
      → Redis.get deps.cache k (Redis.set deps.cache k v (some (refresh_expiry guest)) c).1
        ≡ returned (some v)
  read_back store true k v c w = Redis.get-set deps.cache store k v 2591999 c (w k v thirty_days)
  read_back store false k v c w = Redis.get-set deps.cache store k v 604799 c (w k v seven_days)

  pub stored_by_renew :
      (store : IsStore deps.cache) (session : String) (now : ℕ) (guest : Bool) (user : User)
      (tokens t : TokenPair) (s : World R D)
      → Writable s.cache
      → (renew deps session now guest user tokens s).0 ≡ returned t
      → Redis.get deps.cache
          (refresh_key user.id)
          (renew deps session now guest user tokens s).1.cache
        ≡ returned (some t.refresh_token)
  unfolding renew
  stored_by_renew store session now guest user tokens t s w h =
      let write =
        cache_set {D = D} deps.cache (refresh_key user.id) tokens.refresh_token
          (refresh_expiry guest) in
      let row = refreshed_session session now guest user in
      let (a, _, e, k) = bind_returned write (λ _. record_refresh deps row user tokens) s h in
      let same = record_refresh-eq-returned row user tokens t _ k in
      let kept : (renew deps session now guest user tokens s).1.cache ≡ (write s).1.cache =
        ap (λ r. r.1.cache) e ∙ record_refresh-Steady row user tokens _ in
      rw (kept, ← same) (read_back store guest (refresh_key user.id) tokens.refresh_token s.cache w)

  -- What a refresh that returned has done.
  pub record Renewed (session token : String) (now : ℕ) (s : World R D) : Type 0 where
    pub payload : TokenPayload
    pub user : User
    pub tokens : TokenPair
    pub verified : verify_refresh_token deps.signer deps.config token now ≡ returned payload
    pub stored : Redis.get deps.cache (refresh_key payload.sub) s.cache ≡ returned (some token)
    pub found : deps.remote.find_by_id payload.sub s.db ≡ returned (some user)
    pub active : user.is_active ≡ true
    pub result :
        refresh_tokens deps session token now s
        ≡ renew deps session now (is_guest payload user) user tokens s

  handled-eq-returned :
      (r : Outcome TokenPair × World R D) {t : TokenPair}
      → (handled (refresh_failed deps) r).0 ≡ returned t
      → (handled (refresh_failed deps) r ≡ r) × (r.0 ≡ returned t)
  handled-eq-returned (returned a, s) h = (refl, h)
  handled-eq-returned (thrown e, s) h = cc
  handled-eq-returned (unfinished, s) h = cc

  stored_lem : (token : String) (o : Option String) → is_stored token o ≡ true → o ≡ some token
  stored_lem token none h = cc
  stored_lem token (some x) h = ground (arith, eq_iff x token)

  -- An exception is no answer.
  refused_returns :
      (payload : TokenPayload) (s : World R D) {t : TokenPair}
      → ¬ ((refuse_user deps payload s).0 ≡ returned t)
  unfolding refuse_user
  refused_returns payload s h =
      let (a, _, _, k) =
        bind_returned
          (create_audit_log deps.audit (some payload.sub) token_refresh false
            (some "User not found or inactive") no_caller)
          _ s h in
      cc

  pub refresh_tokens-Renewed :
      (session token : String) (now : ℕ) (s : World R D) (t : TokenPair)
      → (refresh_tokens deps session token now s).0 ≡ returned t
      → Renewed session token now s
  unfolding refresh_tokens refresh_verified refresh_stored refresh_user
  refresh_tokens-Renewed session token now s t h =
      let (same, h1) = handled-eq-returned _ h in
      let (p, v, e1, h1') =
        bind_returned (query (λ _. verify_refresh_token deps.signer deps.config token now))
          (refresh_verified deps session token now) s h1 in
      let (o, g, e2, h2) =
        bind_returned (query (λ s. Redis.get deps.cache (refresh_key p.sub) s.cache))
          (refresh_stored deps session token now p) s h1' in
      by_stored p v g (same ∙ (e1 ∙ e2)) h2
    where
      Result : Type 0
      Result = Outcome TokenPair × World R D

      whole : Result
      whole = refresh_tokens deps session token now s

      renewed : TokenPayload → User → Action (World R D) TokenPair
      renewed p u =
          read_db (refreshed_tokens deps u (is_guest p u) (or_text p.device_id u.device_id) now)
          >>= renew deps session now (is_guest p u) u

      by_active :
          (p : TokenPayload) (u : User)
          → verify_refresh_token deps.signer deps.config token now ≡ returned p
          → Redis.get deps.cache (refresh_key p.sub) s.cache ≡ returned (some token)
          → deps.remote.find_by_id p.sub s.db ≡ returned (some u)
          → (b : Bool) → u.is_active ≡ b
          → whole ≡ (if b then renewed p u else refuse_user deps p) s
          → ((if b then renewed p u else refuse_user deps p) s).0 ≡ returned t
          → Renewed session token now s
      by_active p u v g f true a e h =
          let (tokens, _, e', h') =
            bind_returned
              (read_db
                (refreshed_tokens deps u (is_guest p u) (or_text p.device_id u.device_id) now))
              (renew deps session now (is_guest p u) u) s h in
          record {
            payload = p;
            user = u;
            tokens = tokens;
            verified = v;
            stored = g;
            found = f;
            active = a;
            result = e ∙ e';
          }
      by_active p u v g f false a e h = absurd (refused_returns p s h)

      by_user :
          (p : TokenPayload)
          → verify_refresh_token deps.signer deps.config token now ≡ returned p
          → Redis.get deps.cache (refresh_key p.sub) s.cache ≡ returned (some token)
          → (u : Option User) → deps.remote.find_by_id p.sub s.db ≡ returned u
          → whole ≡ refresh_user deps session now p u s
          → (refresh_user deps session now p u s).0 ≡ returned t
          → Renewed session token now s
      by_user p v g none f e h = absurd (refused_returns p s h)
      by_user p v g (some u) f e h = by_active p u v g f u.is_active refl e h

      by_stored :
          (p : TokenPayload)
          → verify_refresh_token deps.signer deps.config token now ≡ returned p
          → {o : Option String} → Redis.get deps.cache (refresh_key p.sub) s.cache ≡ returned o
          → whole ≡ refresh_stored deps session token now p o s
          → (refresh_stored deps session token now p o s).0 ≡ returned t
          → Renewed session token now s
      by_stored p v {o} g e h = elim (Bool-cases (is_stored token o)) [
        | inl i ↦
            let (u, f, e', h') =
              bind_returned (read_db (deps.remote.find_by_id p.sub))
                (refresh_user deps session now p) s (rw i at h) in
            by_user p v (g ∙ ap returned (stored_lem token o i)) u f (e ∙ rw i e') h'
        | inr i ↦ let k = rw i at h in cc
      ]
