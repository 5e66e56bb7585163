-- ===== src/Rbac/Roles.antt =====
-- libs/rbac/src/utils/role.utils.ts and `hasRole` of permission.service.ts.
use heidi_microservices.Common.{
  ℕ, ◌≤◌, ◌≡◌, refl, ◌↔◌, Bool, true, false, Option, none, some, arith, String, str_eq,
  if◌then◌else◌, leb, ◌==◌,
}

pub data UserRole : Type 0 where
  super_admin city_admin citizen : UserRole

abbrev pub role_eq : UserRole → UserRole → Bool
role_eq super_admin super_admin = true
role_eq city_admin city_admin = true
role_eq citizen citizen = true
role_eq _ _ = false

pub role_eq_iff : (q r : UserRole) → (role_eq q r ≡ true) ↔ (q ≡ r)
role_eq_iff super_admin super_admin = ground arith
role_eq_iff super_admin city_admin = ground arith
role_eq_iff super_admin citizen = ground arith
role_eq_iff city_admin super_admin = ground arith
role_eq_iff city_admin city_admin = ground arith
role_eq_iff city_admin citizen = ground arith
role_eq_iff citizen super_admin = ground arith
role_eq_iff citizen city_admin = ground arith
role_eq_iff citizen citizen = ground arith

-- The enumeration's texts, as the token and the database carry them.
abbrev pub parse_role : String → Option UserRole
parse_role s =
    if str_eq s "SUPER_ADMIN"
    then some super_admin
    else if str_eq s "CITY_ADMIN"
    then some city_admin
    else if str_eq s "CITIZEN"
    then some citizen
    else none

-- `ROLE_TO_NUMBER`
abbrev pub role_number : UserRole → ℕ
role_number super_admin = 1
role_number city_admin = 2
role_number citizen = 3

-- The argument is any text, cast to the enumeration.
unfoldable pub role_to_number : String → ℕ
role_to_number role = elim (parse_role role) [ none ↦ 3 | some r ↦ role_number r ]

unfoldable pub number_to_role : ℕ → UserRole
number_to_role n = if n == 1 then super_admin else if n == 2 then city_admin else citizen

-- A claim `user.role` of a token: a number, or a text cast to the enumeration.
pub data RoleClaim : Type 0 where
  number : ℕ → RoleClaim
  text : String → RoleClaim

-- `typeof user.role === 'number' ? numberToRole(user.role) : (user.role as UserRole)`: a text that
-- is no role compares unequal to each of them, and is `none` here.
unfoldable pub claimed_role : RoleClaim → Option UserRole
unfolding number_to_role
claimed_role (number n) = some (number_to_role n)
claimed_role (text s) = parse_role s

-- The same claim cast to the enumeration, `user.role as UserRole`, which a number is not a member of.
abbrev pub cast_role : RoleClaim → Option UserRole
cast_role (number n) = none
cast_role (text s) = parse_role s

-- `roleToNumber` of such a claim, which looks a number up among the texts.
unfoldable pub claim_to_number : RoleClaim → ℕ
unfolding role_to_number
claim_to_number (number n) = 3
claim_to_number (text s) = role_to_number s

abbrev pub is_role : UserRole → Option UserRole → Bool
is_role r none = false
is_role r (some q) = role_eq r q

-- `roleHierarchy` of `hasRole`
abbrev hierarchy : UserRole → ℕ
hierarchy super_admin = 3
hierarchy city_admin = 2
hierarchy citizen = 1

pub has_role : UserRole → UserRole → Bool
has_role super_admin required = true
has_role role required = leb (hierarchy required) (hierarchy role)

-- Converting a role to its number and back gives the role, and the claim that carries the number
-- is read as that role.
pub number_to_role-role_number :
    (r : UserRole)
    → (number_to_role (role_number r) ≡ r) × (claimed_role (number (role_number r)) ≡ some r)
unfolding number_to_role claimed_role
number_to_role-role_number super_admin = (refl, refl)
number_to_role-role_number city_admin = (refl, refl)
number_to_role-role_number citizen = (refl, refl)

-- `hasRole` is the order of the role numbers turned round: a role has a required one exactly when
-- its number is at most the required role's.
pub has_role_iff : (r q : UserRole) → (has_role r q ≡ true) ↔ (role_number r ≤ role_number q)
unfolding has_role
has_role_iff super_admin super_admin = ground arith
has_role_iff super_admin city_admin = ground arith
has_role_iff super_admin citizen = ground arith
has_role_iff city_admin super_admin = ground arith
has_role_iff city_admin city_admin = ground arith
has_role_iff city_admin citizen = ground arith
has_role_iff citizen super_admin = ground arith
has_role_iff citizen city_admin = ground arith
has_role_iff citizen citizen = ground arith
