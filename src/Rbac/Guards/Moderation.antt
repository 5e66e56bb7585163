-- ===== src/Rbac/Guards/Moderation.antt =====
-- Which requests pass the guards that ask for a permission.
use heidi_microservices.Common.{
  ℕ, ◌≡◌, refl, ◌↔◌, ◌⊎◌, inl, inr, Bool, true, false, Option, none, some, String, or_text,
  Bool-cases,
}
use heidi_microservices.Common.Outcome.{Outcome, returned, thrown, unfinished, Exception, forbidden}
use heidi_microservices.Redis
use heidi_microservices.Redis.{Client}
use heidi_microservices.Rbac.Roles.{super_admin, is_role, claimed_role}
use heidi_microservices.Rbac.Cities.{CityDb}
use heidi_microservices.Rbac.Permissions.{CoreDb, has_permission}
use heidi_microservices.Rbac.Request.{TokenUser, Request, user_key, requested_city}
use heidi_microservices.Rbac.Guards.{Required, require, permissions_guard, permit_user}
use heidi_microservices.Rbac.Guards.Roles.{UserWith, Claims}

-- No city is requested, or one by an empty text.
abbrev pub NoCity : Option String → Type 0
NoCity none = Unit
NoCity (some c) = c ≡ ""

module _ (cities : CityDb) (db : CoreDb) (fuel : ℕ) {S : Type 0} (cache : Client S String) where
  require_iff :
      (e : Exception) (r : Outcome Bool × S)
      → ((require cities db fuel cache e r).0 ≡ returned true) ↔ (r.0 ≡ returned true)
  require_iff e (returned true, s) = (λ _. refl, λ _. refl)
  require_iff e (returned false, s) = (λ h. cc, λ h. cc)
  require_iff e (thrown x, s) = (λ h. cc, λ h. cc)
  require_iff e (unfinished, s) = (λ h. cc, λ h. cc)

  permit_user_iff :
      (required : Required) (requested : Option String) (user : Option TokenUser) (s : S)
      → ((permit_user cities db fuel cache required requested user s).0 ≡ returned true)
        ↔ UserWith user (λ u.
          Claims (is_role super_admin) u
          ⊎ ((has_permission cities db cache fuel
                (user_key u)
                required.resource
                required.action
                (or_text required.city_id requested)
                s).0
              ≡ returned true))
  unfolding permit_user
  permit_user_iff required requested none s = (λ h. cc, elim [ ])
  permit_user_iff required requested (some u) s =
      let r = require_iff (forbidden "This route requires permission") (
        has_permission cities db cache fuel (user_key u) required.resource required.action
          (or_text required.city_id requested) s) in
      elim (Bool-cases (is_role super_admin (claimed_role u.role))) [
        | inl e ↦ rw e (λ _. inl refl, λ _. refl)
        | inr e ↦ rw e (λ h. inr (r.0 h), elim [ inl q ↦ cc | inr h ↦ r.1 h ])
      ]

  -- A route that requires a permission lets a request through exactly when its user claims to be
  -- super admin or `hasPermission` says yes, for the city of the route's metadata or, failing that,
  -- of the request.
  pub permissions_guard_iff :
      (required : Required) (request : Request) (s : S)
      → ((permissions_guard cities db fuel cache (some required) request s).0 ≡ returned true)
        ↔ UserWith request.user (λ u.
          Claims (is_role super_admin) u
          ⊎ ((has_permission cities db cache fuel
                (user_key u)
                required.resource
                required.action
                (or_text required.city_id (requested_city request))
                s).0
              ≡ returned true))
  unfolding permissions_guard
  permissions_guard_iff required request s =
      permit_user_iff required (requested_city request) request.user s
