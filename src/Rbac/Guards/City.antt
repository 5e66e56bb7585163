-- ===== src/Rbac/Guards/City.antt =====
-- Which requests pass the guards for a city.
use heidi_microservices.Common.{
  ℕ, ◌<◌, ◌≡◌, ◌≢◌, refl, ◌↔◌, ◌⊎◌, inl, inr, Bool, true, false, Option, none, some, List, String,
  arith, any, if◌then◌else◌, eq_iff, Bool-cases,
}
use heidi_microservices.Common.Outcome.{Outcome, returned, returns_true_iff}
use heidi_microservices.Rbac.Roles.{
  UserRole, super_admin, city_admin, citizen, is_role, claimed_role,
}
use heidi_microservices.Rbac.Cities.{CityDb}
use heidi_microservices.Rbac.Cities.Descendants.{IsForest}
use heidi_microservices.Rbac.Permissions.{Assignment, CoreDb, is_super, is_city_admin}
use heidi_microservices.Rbac.Permissions.Scope.{ReachesBy}
use heidi_microservices.Rbac.UserContext.{can_manage_city, can_access_city}
use heidi_microservices.Rbac.UserContext.Laws.{HoldsRole, can_manage_city_iff, can_access_city_iff}
use heidi_microservices.Rbac.Request.{TokenUser, Request, user_key, requested_city}
use heidi_microservices.Rbac.Guards.{
  city_management_guard, manage_requested, city_scope_guard, access_requested,
}
use heidi_microservices.Rbac.Guards.Roles.{UserWith, Claims, authenticated_iff}

-- A city is requested, by a text that is not empty, and the property holds of it.
abbrev pub CityWith : Option String → (String → Type 0) → Type 0
CityWith none P = ⊥
CityWith (some c) P = (c ≢ "") × P c

-- No city is requested, or one of which the property holds.
abbrev pub NoCityOr : Option String → (String → Type 0) → Type 0
NoCityOr none P = Unit
NoCityOr (some c) P = (c ≡ "") ⊎ P c

module _ (cities : CityDb) (db : CoreDb) (fuel : ℕ) where
  manage_requested_iff :
      (u : TokenUser) (role : Option UserRole) (city : Option String)
      → (manage_requested cities db fuel u role city ≡ returned true)
        ↔ CityWith city (λ c. can_manage_city cities db fuel (user_key u) c ≡ returned true)
  unfolding manage_requested
  manage_requested_iff u role none = elim (Bool-cases (is_role city_admin role)) [
    | inl e ↦ rw e (λ h. cc, elim [ ])
    | inr e ↦ rw e (λ h. cc, elim [ ])
  ]
  manage_requested_iff u role (some c) = ground (arith, eq_iff c "")

  access_requested_iff :
      (u : TokenUser) (city : Option String)
      → (access_requested cities db fuel u city ≡ returned true)
        ↔ NoCityOr city (λ c. can_access_city cities db fuel (user_key u) c ≡ returned true)
  unfolding access_requested
  access_requested_iff u none = (λ _. tt, λ _. refl)
  access_requested_iff u (some c) = ground (arith, eq_iff c "")

pub CityWith-iff :
    (city : Option String) (P Q : String → Type 0)
    → ((c : String) → P c ↔ Q c)
    → CityWith city P ↔ CityWith city Q
CityWith-iff none P Q h = (λ k. k, λ k. k)
CityWith-iff (some c) P Q h = (λ (n, p). (n, (h c).0 p), λ (n, q). (n, (h c).1 q))

NoCityOr-iff :
    (city : Option String) (P Q : String → Type 0)
    → ((c : String) → P c ↔ Q c)
    → NoCityOr city P ↔ NoCityOr city Q
NoCityOr-iff none P Q h = (λ k. k, λ k. k)
NoCityOr-iff (some c) P Q h = (
  elim [ inl e ↦ inl e | inr p ↦ inr ((h c).0 p) ],
  elim [ inl e ↦ inl e | inr q ↦ inr ((h c).1 q) ],
)

-- A guard's answer behind its first test: `true` where the test holds, or else by the rest.
if_true_or :
    (b : Bool) (m : Outcome Bool) (P : Type 0)
    → (m ≡ returned true) ↔ P
    → ((if b then returned true else m) ≡ returned true) ↔ ((b ≡ true) ⊎ P)
if_true_or true m P h = (λ _. inl refl, λ _. refl)
if_true_or false m P h = (λ q. inr (h.0 q), elim [ inl e ↦ cc | inr p ↦ h.1 p ])

module _ (cities : CityDb) (db : CoreDb) (children : String → List String) (rank : String → ℕ)
    (assigned : String → List Assignment) (forest : IsForest cities children rank)
    (answers : (u : String) → db.active_assignments u ≡ returned (assigned u)) (fuel : ℕ)
    (low : (c : String) → rank c < fuel) where
  -- A request may manage a city exactly when its user claims to be super admin, or it names a city
  -- and an active assignment makes the user super admin, or city admin of that city or of one above
  -- it. The databases answer, the hierarchy has no cycle and the fuel exceeds its height.
  pub city_management_guard_iff :
      (request : Request)
      → (city_management_guard cities db fuel request ≡ returned true)
        ↔ UserWith request.user (λ u.
          Claims (is_role super_admin) u
          ⊎ CityWith (requested_city request) (λ c.
            HoldsRole is_super (assigned (user_key u))
            ⊎ ReachesBy children is_city_admin (assigned (user_key u)) c))
  unfolding city_management_guard
  city_management_guard_iff request = authenticated_iff request.user _ _ _ λ u. if_true_or _ _ _ (
      let by_city =
        manage_requested_iff cities db fuel u (claimed_role u.role) (requested_city request) in
      let rule = CityWith-iff (requested_city request) _ _ (λ c.
        returns_true_iff (can_manage_city cities db fuel (user_key u) c) (
          can_manage_city_iff cities db children rank assigned forest answers fuel low (user_key u)
            c)) in
      (λ h. rule.0 (by_city.0 h), λ h. by_city.1 (rule.1 h)))

  -- A request may view a city exactly when its user claims to be super admin or citizen, or names
  -- no city, or one that the user's assignments open: any city for a super admin and for a user
  -- without a city admin assignment, otherwise the cities that those assignments reach. The
  -- databases answer, the hierarchy has no cycle and the fuel exceeds its height.
  pub city_scope_guard_iff :
      (request : Request)
      → (city_scope_guard cities db fuel request ≡ returned true)
        ↔ UserWith request.user (λ u.
          Claims (is_role super_admin) u
          ⊎ (Claims (is_role citizen) u
              ⊎ NoCityOr (requested_city request) (λ c.
                (HoldsRole is_super (assigned (user_key u))
                  ⊎ (any is_city_admin (assigned (user_key u)) ≡ false))
                ⊎ ReachesBy children is_city_admin (assigned (user_key u)) c)))
  unfolding city_scope_guard
  city_scope_guard_iff request = authenticated_iff request.user _ _ _ λ u. if_true_or _ _ _ (
      if_true_or _ _ _ (
        let by_city = access_requested_iff cities db fuel u (requested_city request) in
        let rule = NoCityOr-iff (requested_city request) _ _ (λ c.
          returns_true_iff (can_access_city cities db fuel (user_key u) c) (
            can_access_city_iff cities db children rank assigned forest answers fuel low
              (user_key u) c)) in
        (λ h. rule.0 (by_city.0 h), λ h. by_city.1 (rule.1 h))))
