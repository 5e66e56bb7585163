-- ===== src/Rbac/Guards/Roles.antt =====
-- Which requests pass the guards that look at the role alone.
use heidi_microservices.Common.{
  ◌≡◌, refl, sym, ◌↔◌, ◌⊎◌, inl, inr, Bool, true, false, Option, none, some, List, arith, not, ◌||◌,
  ◌&&◌,
}
use mathlib.Core.Bool.{false≢true}
use heidi_microservices.Common.Outcome.{Outcome, Exception, returned, ◌>>=◌}
use heidi_microservices.Rbac.Roles.{UserRole, super_admin, city_admin, is_role, claimed_role}
use heidi_microservices.Rbac.Request.{TokenUser, Request, authenticated}
use heidi_microservices.Rbac.Guards.{roles_guard, admin_only_guard, allows}

-- The request has a user of whom the property holds.
abbrev pub UserWith : Option TokenUser → (TokenUser → Type 0) → Type 0
UserWith none P = ⊥
UserWith (some u) P = P u

abbrev pub Claims : (Option UserRole → Bool) → TokenUser → Type 0
Claims test u = test (claimed_role u.role) ≡ true

-- A guard on the user lets a request through exactly when there is a user that it lets through.
pub authenticated_iff :
    (user : Option TokenUser) (e : Exception) (f : TokenUser → Outcome Bool)
    (P : TokenUser → Type 0)
    → ((u : TokenUser) → (f u ≡ returned true) ↔ P u)
    → ((authenticated user e >>= f) ≡ returned true) ↔ UserWith user P
authenticated_iff none e f P h = (λ q. cc, elim [ ])
authenticated_iff (some u) e f P h = h u

-- Where roles are required, a request passes exactly when its user claims to be super admin or has
-- one of the roles.
pub roles_guard_iff :
    (required : List UserRole) (request : Request)
    → (roles_guard (some required) request ≡ returned true)
      ↔ UserWith request.user (Claims (λ role. is_role super_admin role || allows required role))
unfolding roles_guard
roles_guard_iff required request = authenticated_iff request.user _ _ _ (λ u. ground arith)

-- A route with neither mark lets every request through; one marked for super admins only those who
-- claim that role, whatever the other mark; one marked for city admins alone those who claim
-- either role.
pub admin_only_guard_iff :
    (super_admin_only city_admin_only : Bool) (request : Request)
    → (admin_only_guard super_admin_only city_admin_only request ≡ returned true) ↔ (
        ((super_admin_only ≡ false) × (city_admin_only ≡ false))
        ⊎ UserWith request.user (
            Claims (λ role.
              is_role super_admin role || (not super_admin_only && is_role city_admin role))))
unfolding admin_only_guard
admin_only_guard_iff false false request = (λ _. inl (refl, refl), λ _. refl)
admin_only_guard_iff true city_admin_only request =
    let guard =
      authenticated_iff request.user _ _
        (Claims (λ role. is_role super_admin role || (not true && is_role city_admin role)))
        (λ u. ground arith) in
    (λ h. inr (guard.0 h), elim [ inl h ↦ absurd (false≢true (sym h.0)) | inr c ↦ guard.1 c ])
admin_only_guard_iff false true request =
    let guard =
      authenticated_iff request.user _ _
        (Claims (λ role. is_role super_admin role || (not false && is_role city_admin role)))
        (λ u. ground arith) in
    (λ h. inr (guard.0 h), elim [ inl h ↦ absurd (false≢true (sym h.1)) | inr c ↦ guard.1 c ])
