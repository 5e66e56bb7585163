-- ===== src/Auth/Refresh/Rotation.antt =====
-- apps/auth/src/modules/auth/auth.service.ts: a refresh token is good for one refresh.
use heidi_microservices.Common.{ℕ, ◌≡◌, ◌≢◌, sym, ap, ◌∙◌, eq_iff, arith, false, some, String}
use heidi_microservices.Common.Outcome.{returned}
use heidi_microservices.Redis
use heidi_microservices.Redis.{IsStore}
use heidi_microservices.Jwt.{TokenPair, TokenPayload, verify_refresh_token}
use heidi_microservices.Jwt.Laws.{IsSigner, verify_refresh_token-eq-returned}
use heidi_microservices.Auth.{World, User, Deps, refresh_key}
use heidi_microservices.Auth.Refresh.{is_stored, is_guest, refresh_tokens}
use heidi_microservices.Auth.Refresh.Renewal.{
  Refused, Writable, refresh_tokens-Refused, stored_by_renew, refresh_tokens-Renewed,
}

module _ {R D : Type 0} (deps : Deps R D) where
  not_stored : (old new : String) → new ≢ old → is_stored old (some new) ≡ false
  not_stored old new h = ground (arith, eq_iff new old)

  -- A refresh token is good for one refresh: after a refresh that returned, a refresh with the same token
  -- is refused at any time and in any state in which the cache still has, for the user of the token, what
  -- the first refresh left there, whatever else has changed. The conditions are that the users service
  -- answers a request by identifier with that user, that the cache took the write, and that the new token
  -- is another text than the old one.
  pub refreshed_once :
      (laws : IsSigner deps.signer) (store : IsStore deps.cache)
      (ids : (id : String) (u : User) (d : D)
        → deps.remote.find_by_id id d ≡ returned (some u)
        → u.id ≡ id)
      (session session' old : String) (now later : ℕ) (s s' : World R D) (t : TokenPair)
      → Writable deps s.cache
      → (refresh_tokens deps session old now s).0 ≡ returned t
      → t.refresh_token ≢ old
      → ((p : TokenPayload)
          → verify_refresh_token deps.signer deps.config old later ≡ returned p
          → Redis.get deps.cache (refresh_key p.sub) s'.cache
            ≡ Redis.get deps.cache
                (refresh_key p.sub)
                (refresh_tokens deps session old now s).1.cache)
      → Refused deps (refresh_tokens deps session' old later s').0
  refreshed_once laws store ids session session' old now later s s' t w h new kept =
      let r = refresh_tokens-Renewed deps session old now s t h in
      let h' = ap (λ x. x.0) (sym r.result) ∙ h in
      let now_stored =
        stored_by_renew deps store session now (is_guest r.payload r.user) r.user r.tokens t s w
          h' in
      refresh_tokens-Refused deps session' old later s' (λ p v.
        let same : p.sub ≡ r.payload.sub =
          laws.one_user deps.config.refresh_secret old p r.payload later now
            (verify_refresh_token-eq-returned deps.signer deps.config old later v)
            (verify_refresh_token-eq-returned deps.signer deps.config old now r.verified) in
        (
          some t.refresh_token,
          kept p v ∙ rw (r.result, same, ← ids r.payload.sub r.user s.db r.found) now_stored,
          not_stored old t.refresh_token new,
        ))
