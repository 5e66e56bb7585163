-- ===== src/Jwt/Laws.antt =====
-- libs/jwt/src/jwt.service.ts: what the two kinds of tokens are good for.
use mathlib.Core.Path.{Path}
use heidi_microservices.Common.{
  ℕ, ◌≡◌, ◌≢◌, refl, sym, ap, ◌∙◌, eq_iff, str_eq, false, Bool-cases, inl, inr, Option, none, some,
  String, if◌then◌else◌,
}
use heidi_microservices.Common.Outcome.{returned, thrown, unfinished, unauthorized, >>=-eq-returned}
use heidi_microservices.Rbac.Roles.{RoleClaim}
use heidi_microservices.Jwt.{
  TokenKind, access, refresh, is_refresh, TokenPayload, TokenOptions, TokenPair,
  generate_token_pair, Signer, JwtConfig, token_payload, signed, generate_access_token,
  generate_refresh_token, accept_access, verify_access_token, accept_refresh, verify_refresh_token,
}

-- What the services rely on: a signed token, under whatever secret it is verified, gives back the
-- claims that were signed or is refused, the empty text is no token, and a token names one user,
-- whenever it is verified.
pub record IsSigner (signer : Signer) : Type 0 where
  pub claims :
      (secret expiry secret' token : String) (p q : TokenPayload) (now later : ℕ)
      → signer.sign secret expiry p now ≡ some token
      → signer.verify secret' token later ≡ some q
      → (q.type ≡ p.type) × (q.sub ≡ p.sub)
  pub no_empty : (secret : String) (now : ℕ) → signer.verify secret "" now ≡ none
  pub one_user :
      (secret token : String) (p q : TokenPayload) (now later : ℕ)
      → signer.verify secret token now ≡ some p
      → signer.verify secret token later ≡ some q
      → p.sub ≡ q.sub

no_some : {q : TokenPayload} → ¬ (Path (Option TokenPayload) none (some q))
no_some h = cc

pub signed-eq-returned : (o : Option String) {t : String} → signed o ≡ returned t → o ≡ some t
signed-eq-returned none h = cc
signed-eq-returned (some t) h = cc

module _ (signer : Signer) (laws : IsSigner signer) (config : JwtConfig) where
  accept_refresh_other :
      (o : Option TokenPayload)
      → ((q : TokenPayload) → o ≡ some q → q.type ≡ access)
      → accept_refresh signer config o ≡ thrown (unauthorized "Invalid or expired refresh token")
  unfolding accept_refresh
  accept_refresh_other none h = refl
  accept_refresh_other (some q) h = rw (h q refl)

  accept_access_other :
      (o : Option TokenPayload)
      → ((q : TokenPayload) → o ≡ some q → q.type ≡ refresh)
      → accept_access signer config o ≡ thrown (unauthorized "Invalid or expired token")
  unfolding accept_access
  accept_access_other none h = refl
  accept_access_other (some q) h = rw (h q refl)

  -- Neither kind of token stands in for the other: a generated access token is refused as a refresh
  -- token and a generated refresh token is refused as an access token, at any time and even if both
  -- secrets are the same.
  pub generated_kinds :
      (user : String) (email : Option String) (role : RoleClaim) (options : TokenOptions)
      (now later : ℕ) (a r : String)
      → generate_access_token signer config user email role options now ≡ returned a
      → generate_refresh_token signer config user email role options now ≡ returned r
      → (verify_refresh_token signer config a later
          ≡ thrown (unauthorized "Invalid or expired refresh token"))
        × (verify_access_token signer config r later
            ≡ thrown (unauthorized "Invalid or expired token"))
  unfolding generate_access_token generate_refresh_token verify_access_token verify_refresh_token
      token_payload
  generated_kinds user email role options now later a r h k = (
    accept_refresh_other (signer.verify config.refresh_secret a later) (λ q e.
        (laws.claims config.access_secret config.access_expiry config.refresh_secret a
          (token_payload access user email role options) q now later (signed-eq-returned _ h) e).0),
    accept_access_other (signer.verify config.access_secret r later) (λ q e.
        (laws.claims config.refresh_secret config.refresh_expiry config.access_secret r
          (token_payload refresh user email role options) q now later (signed-eq-returned _ k)
          e).0),
  )

module _ (signer : Signer) (config : JwtConfig) where
  -- A refresh token that is accepted was verified under the secret of refresh tokens.
  pub verify_refresh_token-eq-returned :
      (token : String) (now : ℕ) {p : TokenPayload}
      → verify_refresh_token signer config token now ≡ returned p
      → signer.verify config.refresh_secret token now ≡ some p
  unfolding verify_refresh_token accept_refresh
  verify_refresh_token-eq-returned token now {p} h =
      go (signer.verify config.refresh_secret token now) h
    where
      known :
          (q : TokenPayload) (k : TokenKind)
          → (if is_refresh k
              then returned q
              else thrown (unauthorized "Invalid or expired refresh token"))
            ≡ returned p
          → some q ≡ some p
      known q refresh e = cc
      known q access e = cc

      go : (o : Option TokenPayload) → accept_refresh signer config o ≡ returned p → o ≡ some p
      go none e = cc
      go (some q) e = known q q.type e

  pub verify_refresh_token_ends :
      (token : String) (now : ℕ) → verify_refresh_token signer config token now ≢ unfinished
  unfolding verify_refresh_token accept_refresh
  verify_refresh_token_ends token now h = go (signer.verify config.refresh_secret token now) h
    where
      known :
          (q : TokenPayload) (k : TokenKind)
          → ¬ (
              (if is_refresh k
                then returned q
                else thrown (unauthorized "Invalid or expired refresh token"))
              ≡ unfinished)
      known q refresh e = cc
      known q access e = cc

      go : (o : Option TokenPayload) → ¬ (accept_refresh signer config o ≡ unfinished)
      go none e = cc
      go (some q) e = known q q.type e

-- The refresh token of a pair is read as one of the user that it was made for.
pub generated_for :
    (signer : Signer) (laws : IsSigner signer) (config : JwtConfig) (user : String)
    (email : Option String) (role : RoleClaim) (options : TokenOptions) (now later : ℕ)
    (pair : TokenPair) (q : TokenPayload)
    → generate_token_pair signer config user email role options now ≡ returned pair
    → verify_refresh_token signer config pair.refresh_token later ≡ returned q
    → q.sub ≡ user
unfolding generate_token_pair generate_refresh_token token_payload
generated_for signer laws config user email role options now later pair q h v =
    let (a, _, h1) =
      >>=-eq-returned (generate_access_token signer config user email role options now) _ h in
    let (r, k, h2) =
      >>=-eq-returned (generate_refresh_token signer config user email role options now) _ h1 in
    let same : r ≡ pair.refresh_token =
      ap (λ m. elim m [ returned x ↦ x.refresh_token | _ ↦ r ]) h2 in
    (laws.claims config.refresh_secret config.refresh_expiry config.refresh_secret r
      (token_payload refresh user email role options) q now later (signed-eq-returned _ k)
      (verify_refresh_token-eq-returned signer config r later (rw same v))).1

pub verified_nonempty :
    (signer : Signer) (laws : IsSigner signer) (config : JwtConfig) (token : String) (now : ℕ)
    {q : TokenPayload}
    → verify_refresh_token signer config token now ≡ returned q
    → str_eq token "" ≡ false
verified_nonempty signer laws config token now {q} v = elim (Bool-cases (str_eq token "")) [
  | inl e ↦
      let empty : token ≡ "" = (eq_iff token "").0 e in
      let k = verify_refresh_token-eq-returned signer config token now v in
      let none_there = laws.no_empty config.refresh_secret now in
      absurd (no_some {q = q} (sym none_there ∙ rw (← empty) k))
  | inr e ↦ e
]
