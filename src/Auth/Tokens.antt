-- ===== src/Auth/Tokens.antt =====
-- apps/auth/src/modules/auth/auth.service.ts: the tokens that `login`, `refreshTokens` and the guest
-- methods hand out.
use heidi_microservices.Common.{
  ℕ, ◌≡◌, Bool, true, false, Option, none, List, [], map, String, if◌then◌else◌,
}
use heidi_microservices.Common.Outcome.{Outcome, returned, ◌>>=◌, >>=-eq-returned}
use heidi_microservices.Rbac.Roles.{cast_role}
use heidi_microservices.Rbac.Permissions.{Assignment, get_user_permissions}
use heidi_microservices.Jwt.{
  TokenPair, TokenOptions, TokenPayload, generate_token_pair, verify_refresh_token,
}
use heidi_microservices.Jwt.Laws.{IsSigner, generated_for}
use heidi_microservices.Auth.{User, Deps, city_assignment, first_city, unless_empty}
use heidi_microservices.Auth.EffectiveRole.{effective_role}

-- The options of a pair of tokens.
abbrev pub token_options : Bool → Option String → List Assignment → List String → TokenOptions
token_options guest device assignments permissions = record {
  is_guest = guest;
  device_id = device;
  city_id = none;
  city_ids = none;
  selected_city_id = first_city assignments;
  city_assignments = unless_empty (map city_assignment assignments);
  permissions = unless_empty permissions;
}

module _ {R D : Type 0} (deps : Deps R D) where
  -- The permissions of a registered user with the given assignments.
  unfoldable pub effective_permissions : User → List Assignment → Outcome (List String)
  effective_permissions user assignments =
      get_user_permissions deps.core
        (effective_role (cast_role user.role) (map Assignment.role assignments))

  unfoldable pub login_tokens : User → List Assignment → ℕ → Outcome TokenPair
  login_tokens user assignments now = do
    permissions ← effective_permissions user assignments
    generate_token_pair deps.signer deps.config user.id user.email user.role
        (token_options false none assignments permissions) now

  -- The assignments and the permissions that go into refreshed tokens: none for a guest.
  unfoldable pub refreshed_options : User → Bool → Option String → D → Outcome TokenOptions
  refreshed_options user guest device d =
      if guest
      then returned (token_options true device [] [])
      else (deps.remote.assignments user.id d >>= λ assignments.
          effective_permissions user assignments >>= λ permissions.
          returned (token_options false device assignments permissions))

  unfoldable pub refreshed_tokens : User → Bool → Option String → ℕ → D → Outcome TokenPair
  refreshed_tokens user guest device now d = do
    options ← refreshed_options user guest device d
    generate_token_pair deps.signer deps.config user.id user.email user.role options now

  -- The refresh token of a login is read as one of the user.
  pub login_tokens_for :
      (laws : IsSigner deps.signer) (user : User) (assignments : List Assignment) (now later : ℕ)
      (tokens : TokenPair) (q : TokenPayload)
      → login_tokens user assignments now ≡ returned tokens
      → verify_refresh_token deps.signer deps.config tokens.refresh_token later ≡ returned q
      → q.sub ≡ user.id
  unfolding login_tokens
  login_tokens_for laws user assignments now later tokens q h v =
      let (permissions, _, k) = >>=-eq-returned (effective_permissions user assignments) _ h in
      generated_for deps.signer laws deps.config user.id user.email user.role
        (token_options false none assignments permissions) now later tokens q k v
