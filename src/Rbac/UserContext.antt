-- ===== src/Rbac/UserContext.antt =====
-- libs/rbac/src/user-context.service.ts.
pub mod Laws
pub mod Merging
use heidi_microservices.Common.{
  text_append, ℕ, Bool, true, false, Option, none, some, List, [], ◌∷◌, ◌++◌, map, String, includes,
  truthy, any, select, if◌then◌else◌, ◌||◌,
}
use heidi_microservices.Common.Outcome.{Outcome, returned, ◌>>=◌, catch_with}
use heidi_microservices.Rbac.Roles.{UserRole, citizen, role_eq}
use heidi_microservices.Rbac.Cities.{CityDb, get_all_managed_cities, is_city_in_scope}
use heidi_microservices.Rbac.Permissions.{
  Assignment, Permission, CoreDb, is_super, is_city_admin, get_user_city_assignments,
  get_role_permissions, in_scope,
}

-- What `getUserEffectivePermissions` reports of a permission.
pub record Effective : Type 0 where
  pub resource : String
  pub action : String
  pub description : Option String

abbrev pub effective : Permission → Effective
effective p = record { resource = p.resource; action = p.action; description = p.description }

abbrev pub permission_key : Permission → String
permission_key p = text_append p.resource (text_append ":" p.action)

-- `new Set(assignments.map((a) => a.role))`, in insertion order.
abbrev has_member : List UserRole → UserRole → Bool
has_member [] r = false
has_member (q ∷ qs) r = role_eq q r || has_member qs r

role_set : List UserRole → List Assignment → List UserRole
role_set seen [] = seen
role_set seen (a ∷ held) =
    role_set (if has_member seen a.role then seen else seen ++ a.role ∷ []) held

-- The `Map` by key: an entry is added if its key is not there yet.
abbrev pub keys_of : List (String × Effective) → List String
keys_of [] = []
keys_of ((k, e) ∷ entries) = k ∷ keys_of entries

add_entry : List (String × Effective) → Permission → List (String × Effective)
add_entry entries p =
    if includes (keys_of entries) (permission_key p)
    then entries
    else entries ++ (permission_key p, effective p) ∷ []

add_entries : List (String × Effective) → List Permission → List (String × Effective)
add_entries entries [] = entries
add_entries entries (p ∷ found) = add_entries (add_entry entries p) found

abbrev pub values_of : List (String × Effective) → List Effective
values_of [] = []
values_of ((k, e) ∷ entries) = e ∷ values_of entries

module _ (cities : CityDb) (db : CoreDb) where
  managed_of : ℕ → List Assignment → Outcome (List String)
  managed_of fuel [] = returned []
  managed_of fuel (a ∷ held) =
      if any is_super (a ∷ held)
      then returned []
      else get_all_managed_cities cities fuel
          (map Assignment.city_id (select is_city_admin (a ∷ held)))

  pub get_user_managed_cities : ℕ → String → Outcome (List String)
  get_user_managed_cities fuel user =
      catch_with [] (get_user_city_assignments db user >>= managed_of fuel)

  pub can_access_city : ℕ → String → String → Outcome Bool
  can_access_city fuel user city = catch_with false (
      get_user_city_assignments db user >>= λ assignments.
      if any is_super assignments
      then returned true
      else if any is_city_admin assignments
      then (get_all_managed_cities cities fuel
            (map Assignment.city_id (select is_city_admin assignments))
          >>= λ managed. returned (is_city_in_scope city managed))
      else returned true)

  pub can_manage_city : ℕ → String → String → Outcome Bool
  can_manage_city fuel user city = catch_with false (
      get_user_city_assignments db user >>= λ assignments.
      if any is_super assignments
      then returned true
      else if any is_city_admin assignments
      then (get_all_managed_cities cities fuel
            (map Assignment.city_id (select is_city_admin assignments))
          >>= λ managed. returned (is_city_in_scope city managed))
      else returned false)

  -- The loop over the distinct roles.
  gather : List (String × Effective) → List UserRole → Outcome (List (String × Effective))
  gather entries [] = returned entries
  gather entries (r ∷ roles) =
      get_role_permissions db r >>= λ found. gather (add_entries entries found) roles

  effective_of : ℕ → Option String → List Assignment → Outcome (List Effective)
  effective_of fuel city [] =
      get_role_permissions db citizen >>= λ found. returned (map effective found)
  effective_of fuel city (a ∷ held) =
      if any is_super (a ∷ held)
      then (db.all_permissions >>= λ found. returned (map effective found))
      else (in_scope cities fuel (a ∷ held) city >>= λ scoped.
          if scoped
          then (gather [] (role_set [] (a ∷ held)) >>= λ entries. returned (values_of entries))
          else returned [])

  pub get_user_effective_permissions : ℕ → String → Option String → Outcome (List Effective)
  get_user_effective_permissions fuel user city =
      catch_with [] (get_user_city_assignments db user >>= effective_of fuel city)
