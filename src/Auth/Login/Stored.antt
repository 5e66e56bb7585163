-- ===== src/Auth/Login/Stored.antt =====
-- apps/auth/src/modules/auth/auth.service.ts: what a login that returned leaves in the cache.
use heidi_microservices.Common.{
  ℕ, ◌+◌, ◌*◌, ◌≡◌, refl, sym, ap, ◌∙◌, Bool, true, false, none, some, List, String, if◌then◌else◌,
}
use heidi_microservices.Common.Outcome.{returned-inj, returned}
use heidi_microservices.Common.Action.{query, bind_returned}
use heidi_microservices.Redis
use heidi_microservices.Redis.{IsStore}
use heidi_microservices.Rbac.Permissions.{Assignment}
use heidi_microservices.Jwt.{TokenPair, TokenPayload, verify_refresh_token}
use heidi_microservices.Jwt.Laws.{IsSigner}
use heidi_microservices.Auth.{
  World, User, Deps, Caller, jwt, read_db, cache_set, refresh_key, first_city, store_session,
  new_session, seven_days, thirty_days,
}
use heidi_microservices.Auth.Steady.{
  Steady, >>=-Steady, create_audit_log-Steady, store_session-Steady,
}
use heidi_microservices.Auth.Tokens.{login_tokens, login_tokens_for}
use heidi_microservices.Auth.TermsInfo.{check_terms_acceptance}
use heidi_microservices.Auth.Login.{
  LoginDto, LoginAnswer, login_expiry, log_login, admit, admit_rest, login,
}
use heidi_microservices.Auth.Login.Laws.{login-Admitted}

module _ {R D : Type 0} (deps : Deps R D) where
  abbrev pub Writable : R → Type 0
  Writable c = (k v : String) (n : ℕ) → (deps.cache.setex k n v c).0 ≡ returned tt

  admit_rest-Steady :
      (session : String) (dto : LoginDto) (caller : Caller) (now : ℕ) (user : User)
      (assignments : List Assignment) (tokens : TokenPair)
      → Steady (admit_rest deps session dto caller now user assignments tokens)
  unfolding admit_rest
  admit_rest-Steady session dto caller now user assignments tokens =
      >>=-Steady
        (store_session deps.sessions
          (new_session session user.id jwt (now + login_expiry dto * 1000) none none))
        _ (store_session-Steady deps.sessions _)
        (λ _.
          >>=-Steady (log_login deps (some user.id) true none caller) _
            (create_audit_log-Steady deps.audit _ _ _ _ _)
            (λ _.
              >>=-Steady
                (read_db (check_terms_acceptance deps.remote user.id (first_city assignments))) _
                (λ s. refl) (λ _ s. refl)))

  admit_rest-eq-returned :
      (session : String) (dto : LoginDto) (caller : Caller) (now : ℕ) (user : User)
      (assignments : List Assignment) (tokens : TokenPair) (s : World R D) (a : LoginAnswer)
      → (admit_rest deps session dto caller now user assignments tokens s).0 ≡ returned a
      → (user.id ≡ a.user_id) × (tokens ≡ a.tokens)
  unfolding admit_rest
  admit_rest-eq-returned session dto caller now user assignments tokens s a h =
      let (_, _, _, h1) =
        bind_returned
          (store_session deps.sessions
            (new_session session user.id jwt (now + login_expiry dto * 1000) none none))
          _ s h in
      let (_, _, _, h2) = bind_returned (log_login deps (some user.id) true none caller) _ _ h1 in
      let (_, _, _, h3) =
        bind_returned
          (read_db (check_terms_acceptance deps.remote user.id (first_city assignments))) _ _ h2 in
      let same = returned-inj h3 in (ap LoginAnswer.user_id same, ap LoginAnswer.tokens same)

  expiry_read_back :
      (store : IsStore deps.cache) (long : Bool) (k v : String) (c : R)
      → Writable c
      → Redis.get deps.cache k
          (Redis.set deps.cache k v (some (if long then thirty_days else seven_days)) c).1
        ≡ returned (some v)
  expiry_read_back store true k v c w =
      Redis.get-set deps.cache store k v 2591999 c (w k v thirty_days)
  expiry_read_back store false k v c w =
      Redis.get-set deps.cache store k v 604799 c (w k v seven_days)

  same_entry :
      (c c' : R) (i i' : String) (t t' : TokenPair)
      → c' ≡ c
      → i ≡ i'
      → t ≡ t'
      → Redis.get deps.cache (refresh_key i) c ≡ returned (some t.refresh_token)
      → Redis.get deps.cache (refresh_key i') c' ≡ returned (some t'.refresh_token)
  same_entry c c' i i' t t' e f g h = rw (e, ← f, ← g) h

  same_user :
      (i i' : String) (t t' : TokenPair) (later : ℕ) (q : TokenPayload)
      → i ≡ i'
      → t ≡ t'
      → (verify_refresh_token deps.signer deps.config t.refresh_token later ≡ returned q
          → q.sub ≡ i)
      → verify_refresh_token deps.signer deps.config t'.refresh_token later ≡ returned q
      → q.sub ≡ i'
  same_user i i' t t' later q f g h = rw (← f, ← g) h

  -- The refresh token of the answer is stored for the user of the answer, and it is read as one of
  -- that user.
  pub login_stored :
      (laws : IsSigner deps.signer) (store : IsStore deps.cache) (session : String) (dto : LoginDto)
      (caller : Caller) (now : ℕ) (s : World R D) (a : LoginAnswer)
      → Writable s.cache
      → (login deps session dto caller now s).0 ≡ returned a
      → (Redis.get deps.cache (refresh_key a.user_id) (login deps session dto caller now s).1.cache
          ≡ returned (some a.tokens.refresh_token))
        × ((later : ℕ) (q : TokenPayload)
            → verify_refresh_token deps.signer deps.config a.tokens.refresh_token later ≡ returned q
            → q.sub ≡ a.user_id)
  unfolding admit
  login_stored laws store session dto caller now s a w h =
      let r = login-Admitted deps session dto caller now s a h in
      let user = r.user in
      let (assignments, _, e1, h1) =
        bind_returned (read_db (deps.remote.assignments user.id)) _ s
          (ap (λ x. x.0) (sym r.result) ∙ h) in
      let (tokens, made, e2, h2) =
        bind_returned (query (λ _. login_tokens deps user assignments now)) _ s h1 in
      let write =
        cache_set {D = D} deps.cache (refresh_key user.id) tokens.refresh_token
          (login_expiry dto) in
      let (_, _, e3, h3) = bind_returned write _ s h2 in
      let (id, same) =
        admit_rest-eq-returned session dto caller now user assignments tokens _ a h3 in
      let kept =
        ap (λ x. x.1.cache) (r.result ∙ (e1 ∙ (e2 ∙ e3)))
        ∙ admit_rest-Steady session dto caller now user assignments tokens (write s).1 in
      (
        same_entry _ _ user.id a.user_id tokens a.tokens kept id same (
            expiry_read_back store dto.remember_me (refresh_key user.id) tokens.refresh_token
              s.cache w),
        λ later q v.
            same_user user.id a.user_id tokens a.tokens later q id same
              (login_tokens_for deps laws user assignments now later tokens q made) v,
      )
