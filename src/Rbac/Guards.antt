-- ===== src/Rbac/Guards.antt =====
-- libs/rbac/src: the guards that a request passes before its handler runs. A guard returns `true` to
-- let it through; `false` and an exception both stop it. Metadata of the route is an argument.
pub mod Roles
pub mod City
pub mod Moderation
use heidi_microservices.Common.{
  text_append, ℕ, Bool, true, false, not, ◌||◌, ◌&&◌, Option, none, some, List, [], ◌∷◌, String,
  str_eq, truthy, or_text, if◌then◌else◌,
}
use heidi_microservices.Common.Outcome.{
  Outcome, returned, thrown, unfinished, ◌>>=◌, ◌>>◌, throw_if, Exception, forbidden,
}
use heidi_microservices.Redis.{Client}
use heidi_microservices.Rbac.Roles.{
  UserRole, super_admin, city_admin, citizen, role_eq, is_role, claimed_role,
}
use heidi_microservices.Rbac.Cities.{CityDb}
use heidi_microservices.Rbac.Permissions.{CoreDb, has_permission, has_city_permission}
use heidi_microservices.Rbac.UserContext.{can_manage_city, can_access_city}
use heidi_microservices.Rbac.Request.{TokenUser, Request, user_key, requested_city, authenticated}

abbrev pub unauthenticated : Exception
unauthenticated = forbidden "User not authenticated"

-- `requiredRoles.includes(userRole)`
abbrev pub allows : List UserRole → Option UserRole → Bool
allows [] role = false
allows (r ∷ roles) role = is_role r role || allows roles role

-- `RolesGuard.canActivate`, with the roles that the route requires.
pub roles_guard : Option (List UserRole) → Request → Outcome Bool
roles_guard none request = returned true
roles_guard (some required) request = authenticated request.user unauthenticated >>= λ user.
    let role = claimed_role user.role in
    if is_role super_admin role
    then returned true
    else (throw_if (not (allows required role))
          (forbidden "This route requires one of the following roles")
        >> returned true)

-- `AdminOnlyGuard.canActivate`, with the two marks of the route.
pub admin_only_guard : Bool → Bool → Request → Outcome Bool
admin_only_guard super_admin_only city_admin_only request =
    if not super_admin_only && not city_admin_only
    then returned true
    else (authenticated request.user (forbidden "UNAUTHORIZED") >>= λ user.
        let role = claimed_role user.role in
        if super_admin_only
        then (throw_if (not (is_role super_admin role)) (forbidden "SUPER_ADMIN_REQUIRED")
            >> returned true)
        else (throw_if (not (is_role super_admin role) && not (is_role city_admin role))
              (forbidden "CITY_ADMIN_OR_SUPER_ADMIN_REQUIRED")
            >> returned true))

-- The metadata of `PermissionsGuard`.
pub record Required : Type 0 where
  pub resource : String
  pub action : String
  pub city_id : Option String

module _ (cities : CityDb) (db : CoreDb) (fuel : ℕ) where
  -- The part of `CityManagementGuard.canActivate` behind the test for a super admin.
  manage_requested : TokenUser → Option UserRole → Option String → Outcome Bool
  manage_requested user role none =
      throw_if (is_role city_admin role) (forbidden "City Admins cannot create new cities")
      >> returned false
  manage_requested user role (some city) =
      if truthy (some city)
      then (can_manage_city cities db fuel (user_key user) city >>= λ can_manage.
          throw_if (not can_manage)
            (forbidden (text_append "City management denied for city: " city))
          >> returned true)
      else throw_if (is_role city_admin role) (forbidden "City Admins cannot create new cities")
        >> returned false

  pub city_management_guard : Request → Outcome Bool
  city_management_guard request = authenticated request.user unauthenticated >>= λ user.
      let role = claimed_role user.role in
      if is_role super_admin role
      then returned true
      else manage_requested user role (requested_city request)

  access_requested : TokenUser → Option String → Outcome Bool
  access_requested user none = returned true
  access_requested user (some city) =
      if truthy (some city)
      then (can_access_city cities db fuel (user_key user) city >>= λ can_access.
          throw_if (not can_access) (forbidden (text_append "Access denied for city: " city))
          >> returned true)
      else returned true

  pub city_scope_guard : Request → Outcome Bool
  city_scope_guard request = authenticated request.user unauthenticated >>= λ user.
      let role = claimed_role user.role in
      if is_role super_admin role
      then returned true
      else if is_role citizen role
      then returned true
      else access_requested user (requested_city request)

  module _ {S : Type 0} (cache : Client S String) where
    -- `if (!hasPermission) throw …; return true;` on the answer and the cache's new state.
    abbrev require : Exception → Outcome Bool × S → Outcome Bool × S
    require e (m, s) = (m >>= λ granted. throw_if (not granted) e >> returned true, s)

    permit_user : Required → Option String → Option TokenUser → S → Outcome Bool × S
    permit_user required requested none s = (thrown unauthenticated, s)
    permit_user required requested (some user) s =
        if is_role super_admin (claimed_role user.role)
        then (returned true, s)
        else require (forbidden "This route requires permission") (
            has_permission cities db cache fuel (user_key user) required.resource required.action
              (or_text required.city_id requested) s)

    pub permissions_guard : Option Required → Request → S → Outcome Bool × S
    permissions_guard none request s = (returned true, s)
    permissions_guard (some required) request s =
        permit_user required (requested_city request) request.user s

    -- `ContentModerationGuard.canActivate` behind the answer of `canManageCity`.
    moderate : TokenUser → String → Outcome Bool → S → Outcome Bool × S
    moderate user city (returned true) s =
        require (forbidden "This route requires permission: listings:moderate")
          (has_city_permission cities db cache fuel (user_key user) city "listings" "moderate" s)
    moderate user city (returned false) s =
        (thrown (forbidden (text_append "Content moderation denied for city: " city)), s)
    moderate user city (thrown e) s = (thrown e, s)
    moderate user city unfinished s = (unfinished, s)

    -- The same behind the tests of the role.
    moderate_requested : TokenUser → Option UserRole → Option String → S → Outcome Bool × S
    moderate_requested user role none s = (returned (is_role city_admin role), s)
    moderate_requested user role (some city) s =
        if truthy (some city)
        then moderate user city (can_manage_city cities db fuel (user_key user) city) s
        else (returned (is_role city_admin role), s)

    moderate_user : Option String → Option TokenUser → S → Outcome Bool × S
    moderate_user requested none s = (thrown unauthenticated, s)
    moderate_user requested (some user) s =
        let role = claimed_role user.role in
        if is_role super_admin role
        then (returned true, s)
        else if is_role citizen role
        then (thrown (forbidden "Citizens cannot moderate content"), s)
        else moderate_requested user role requested s

    pub content_moderation_guard : Request → S → Outcome Bool × S
    content_moderation_guard request s = moderate_user (requested_city request) request.user s
