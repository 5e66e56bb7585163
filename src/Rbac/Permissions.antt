-- ===== src/Rbac/Permissions.antt =====
-- libs/rbac/src/permission.service.ts. The queries on the core database are the parameter `CoreDb`.
pub mod Laws
pub mod Scope
use heidi_microservices.Common.{
  ℕ, ◌≡◌, Bool, true, false, ◌&&◌, Option, none, some, List, [], ◌∷◌, map, String, text_append,
  str_eq, truthy, any, select, length, ltb, or_else, if◌then◌else◌,
}
use heidi_microservices.Common.Outcome.{Outcome, returned, thrown, unfinished, ◌>>=◌, catch_with}
use heidi_microservices.Redis
use heidi_microservices.Redis.{Client}
use heidi_microservices.Rbac.Roles.{UserRole, super_admin, city_admin, citizen, role_eq}
use heidi_microservices.Rbac.Cities.{CityDb, get_all_managed_cities, is_city_in_scope}

pub record Assignment : Type 0 where
  pub city_id : String
  pub role : UserRole
  pub can_manage_admins : Bool

pub record Permission : Type 0 where
  pub id : String
  pub resource : String
  pub action : String
  pub description : Option String

-- The queries, each of which may throw.
pub record CoreDb : Type 0 where
  -- `userCityAssignment.findMany({ where: { userId, isActive: true } })`
  pub active_assignments : String → Outcome (List Assignment)
  -- `permission.findUnique` by resource and action, with its `rolePermissions` of the role
  pub find_permission : String → String → UserRole → Outcome (Option (List UserRole))
  -- `rolePermission.findMany({ where: { role }, include: { permission: true } })`
  pub permissions_of_role : UserRole → Outcome (List Permission)
  -- `permission.findMany()`
  pub all_permissions : Outcome (List Permission)

abbrev pub is_super : Assignment → Bool
is_super a = role_eq a.role super_admin

abbrev pub is_city_admin : Assignment → Bool
is_city_admin a = role_eq a.role city_admin

pub cache_key : String → String → String → Option String → String
cache_key user resource action city =
    let scope : String = elim city [
      | none ↦ ""
      | some c ↦ if str_eq c "" then "" else text_append ":" c
    ] in
    text_append "permission:" (
      text_append user
        (text_append ":" (text_append resource (text_append ":" (text_append action scope)))))

-- How `hasPermission` decides when the cache does not answer.
pub data Verdict : Type 0 where
  unassigned : Bool → Verdict
  out_of_scope : Verdict
  by_role : Bool → Verdict

module _ (db : CoreDb) where
  pub get_user_city_assignments : String → Outcome (List Assignment)
  get_user_city_assignments user = catch_with [] (db.active_assignments user)

  pub has_role_permission : UserRole → String → String → Outcome Bool
  has_role_permission super_admin resource action = returned true
  has_role_permission role resource action = db.find_permission resource action role >>= λ found.
      returned (ltb 0 (length (or_else found [])))

  -- The loop over the assignments: whether any of the roles has the permission.
  any_role_permitted : List Assignment → String → String → Outcome Bool
  any_role_permitted [] resource action = returned false
  any_role_permitted (a ∷ rest) resource action =
      has_role_permission a.role resource action >>= λ permitted.
      if permitted then returned true else any_role_permitted rest resource action

  unfoldable pub get_user_permissions : UserRole → Outcome (List String)
  get_user_permissions role = catch_with [] (
      db.permissions_of_role role >>= λ found.
      returned (map (λ p. text_append p.resource (text_append ":" p.action)) found))

  pub get_role_permissions : UserRole → Outcome (List Permission)
  get_role_permissions role = catch_with [] (db.permissions_of_role role)

module _ (cities : CityDb) where
  -- Whether the city, if there is one, lies in the scope of the assignments.
  pub in_scope : ℕ → List Assignment → Option String → Outcome Bool
  in_scope fuel assignments none = returned true
  in_scope fuel assignments (some city) =
      if truthy (some city)
      then (get_all_managed_cities cities fuel (map Assignment.city_id assignments) >>= λ managed.
          returned (is_city_in_scope city managed))
      else returned true

module _ (cities : CityDb) (db : CoreDb) where
  judge_assigned : ℕ → List Assignment → String → String → Option String → Outcome Verdict
  judge_assigned fuel [] resource action city = do
    permitted ← has_role_permission db citizen resource action
    returned (unassigned permitted)
  judge_assigned fuel assignments resource action city =
      in_scope cities fuel assignments city >>= λ scoped.
      if scoped
      then (any_role_permitted db assignments resource action >>= λ permitted.
          returned (by_role permitted))
      else returned out_of_scope

  judge : ℕ → String → String → String → Option String → Outcome Verdict
  judge fuel user resource action city = do
    assignments ← get_user_city_assignments db user
    judge_assigned fuel assignments resource action city

  module _ {S : Type 0} (cache : Client S String) where
    -- The end of `hasPermission`: a positive answer by role is cached for five minutes.
    conclude : String → Outcome Verdict → S → Outcome Bool × S
    conclude key (returned (unassigned permitted)) s = (returned permitted, s)
    conclude key (returned out_of_scope) s = (returned false, s)
    conclude key (returned (by_role false)) s = (returned false, s)
    conclude key (returned (by_role true)) s =
        let (stored, s') = Redis.set cache key "true" (some 300) s in
        (stored >>= λ _. returned true, s')
    conclude key (thrown e) s = (returned false, s)
    conclude key unfinished s = (unfinished, s)

    -- What the cache said of the key.
    resume : Outcome (Option String) → String → Outcome Verdict → S → Outcome Bool × S
    resume (returned (some value)) key verdict s =
        if str_eq value "true" then (returned true, s) else conclude key verdict s
    resume (returned none) key verdict s = conclude key verdict s
    resume (thrown e) key verdict s = (returned false, s)
    resume unfinished key verdict s = (unfinished, s)

    pub has_permission : ℕ → String → String → String → Option String → S → Outcome Bool × S
    has_permission fuel user resource action city s =
        let key = cache_key user resource action city in
        resume (Redis.get cache key s) key (judge fuel user resource action city) s

    pub has_city_permission : ℕ → String → String → String → String → S → Outcome Bool × S
    unfolding has_permission
    has_city_permission fuel user city resource action s =
        has_permission fuel user resource action (some city) s

  pub can_manage_city_admins : ℕ → String → String → Outcome Bool
  can_manage_city_admins fuel user target = catch_with false (
      get_user_city_assignments db user >>= λ assignments.
      if any is_super assignments
      then returned true
      else (get_all_managed_cities cities fuel (
            map Assignment.city_id
              (select (λ a. is_city_admin a && a.can_manage_admins) assignments))
          >>= λ managed. returned (is_city_in_scope target managed)))
