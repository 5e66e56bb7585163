-- ===== src/Auth/CityAdmin.antt =====
-- apps/auth/src/modules/auth/auth.service.ts: `assignCityAdmin` and the reads of assignments. The
-- core service's `CORE_ASSIGN_CITY_ADMIN` and `CORE_GET_USER_CITIES` are parameters.
pub mod Authorised
use heidi_microservices.Common.{
  ℕ, ◌≡◌, refl, sym, ap, ◌∙◌, ◌⊎◌, inl, inr, Bool, true, false, not, ◌&&◌, ◌||◌, Option, none, some,
  List, [], ◌∷◌, map, String, arith, str_eq, select, In, In-select, Bool-cases, if◌then◌else◌,
}
use heidi_microservices.Common.Outcome.{
  Outcome, returned, thrown, forbidden, unauthorized, map_returned,
}
use heidi_microservices.Common.Action.{
  Action, ◌>>=◌, ◌>>◌, pure, throw, query, throw_when, continue, bind_returned,
}
use heidi_microservices.Rbac.Roles.{
  UserRole, super_admin, city_admin, role_eq, role_eq_iff, RoleClaim, text, claimed_role, is_role,
  number_to_role,
}
use heidi_microservices.Rbac.Cities.{CityDb}
use heidi_microservices.Rbac.Permissions.{
  Assignment, is_city_admin, can_manage_city_admins, get_user_city_assignments,
}
use heidi_microservices.Auth.{World, User, Deps, on_db, read_db}

pub record AssignDto : Type 0 where
  pub user_id : String
  pub city_id : String
  pub role : ℕ

-- What is sent to the core service.
pub record AssignRequest : Type 0 where
  pub dto : AssignDto
  pub assigned_by : String
  pub can_grant_manage_admins : Bool

-- `requesterAssignments.find(…)`
first_assignment : String → List Assignment → Option Assignment
first_assignment city [] = none
first_assignment city (a ∷ rest) =
    if str_eq a.city_id city || a.can_manage_admins then some a else first_assignment city rest

-- `requesterAssignment?.canManageAdmins === true`
abbrev manages_admins : Option Assignment → Bool
manages_admins none = false
manages_admins (some a) = a.can_manage_admins

module _ {R D : Type 0} (deps : Deps R D) (cities : CityDb)
    (assign : AssignRequest → Action D String)
    (user_cities : String → D → Outcome (List Assignment)) where
  pub found_role : Option User → Action (World R D) (Option UserRole)
  found_role none = throw (unauthorized "Requester not found")
  found_role (some requester) = pure (claimed_role requester.role)

  -- The role of the token, or else of the account.
  unfoldable pub requester_role : String → Option RoleClaim → Action (World R D) (Option UserRole)
  requester_role requester (some role) = pure (claimed_role role)
  requester_role requester none = read_db (deps.remote.find_by_id requester) >>= found_role

  unfoldable pub is_permitted : ℕ → String → String → Bool → Outcome Bool
  is_permitted fuel requester city super =
      if super then returned true else can_manage_city_admins cities deps.core fuel requester city

  pub granted_by : AssignDto → Outcome (List Assignment) → Outcome Bool
  granted_by dto m =
      map_returned
        (λ assignments.
          manages_admins (first_assignment dto.city_id assignments)
          && role_eq (number_to_role dto.role) city_admin)
        m

  -- `canGrantManageAdmins`
  unfoldable pub can_grant : AssignDto → String → Bool → Outcome Bool
  can_grant dto requester super =
      if super
      then returned (role_eq (number_to_role dto.role) city_admin)
      else granted_by dto (get_user_city_assignments deps.core requester)

  unfoldable pub assign_to : AssignDto → String → Bool → Option User → Action (World R D) String
  assign_to dto requester super none = throw (unauthorized "User not found")
  assign_to dto requester super (some user) = do
    grant ← query (λ _. can_grant dto requester super)
    on_db (assign (record { dto = dto; assigned_by = requester; can_grant_manage_admins = grant }))

  unfoldable pub assign_as : ℕ → AssignDto → String → Bool → Action (World R D) String
  assign_as fuel dto requester super = do
    permitted ← query (λ _. is_permitted fuel requester dto.city_id super)
    throw_when (not permitted) (forbidden "Insufficient permissions to assign city admins")
    user ← read_db (deps.remote.find_by_id dto.user_id)
    assign_to dto requester super user

  unfoldable pub assign_city_admin :
      ℕ → AssignDto → String → Option RoleClaim → Action (World R D) String
  assign_city_admin fuel dto requester role = requester_role requester role >>= λ known.
      assign_as fuel dto requester (is_role super_admin known)

  pub get_user_cities : String → Action (World R D) (List Assignment)
  get_user_cities user = read_db (user_cities user)

  -- The core service answers with the assignments of the role asked for.
  pub get_user_managed_cities : String → Action (World R D) (List String)
  get_user_managed_cities user = do
    assignments ← read_db (deps.remote.assignments user)
    pure (map Assignment.city_id (select is_city_admin assignments))
