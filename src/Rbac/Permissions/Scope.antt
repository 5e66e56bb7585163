-- ===== src/Rbac/Permissions/Scope.antt =====
-- The cities over which a user's assignments reach, and who may manage city admins.
use heidi_microservices.Common.{
  ℕ, ◌<◌, ◌≡◌, refl, ◌↔◌, ◌⊎◌, inl, inr, Bool, true, ◌&&◌, List, map, String, any, any-eq-true,
  any_of_In, select, In, In-select, In-map, Bool-cases,
}
use heidi_microservices.Common.Outcome.{returned, ◌>>=◌}
use heidi_microservices.Rbac.Cities.{CityDb, get_all_managed_cities, is_city_in_scope}
use heidi_microservices.Rbac.Cities.Descendants.{IsForest, Below, Covers, is_city_in_scope-managed}
use heidi_microservices.Rbac.Permissions.{
  Assignment, CoreDb, is_super, is_city_admin, get_user_city_assignments, can_manage_city_admins,
}

-- One of the assignments that pass the test is for the city itself or for one above it.
abbrev pub ReachesBy :
    (String → List String) → (Assignment → Bool) → List Assignment → String → Type 0
ReachesBy children p held d =
    (a : Assignment) × In a held × (p a ≡ true) × ((d ≡ a.city_id) ⊎ Below children a.city_id d)

pub Covers-select :
    (children : String → List String) (p : Assignment → Bool) (held : List Assignment) (d : String)
    → Covers children (map Assignment.city_id (select p held)) d ↔ ReachesBy children p held d
Covers-select children p held d = (
  λ (c, m, h).
      let (a, n, e) = (In-map Assignment.city_id (select p held) c).0 m in
      let (k, q) = (In-select p held a).0 n in (a, k, q, rw e at h),
  λ (a, m, q, h). (
    a.city_id,
    (In-map Assignment.city_id (select p held) a.city_id).1
        (a, (In-select p held a).1 (m, q), refl),
    h,
  ),
)

-- The scope check of the assignments that pass a test.
pub scope_of_selected :
    (cities : CityDb) (children : String → List String) {rank : String → ℕ}
    → IsForest cities children rank
    → (fuel : ℕ) (p : Assignment → Bool) (held : List Assignment) (d : String)
    → ((c : String) → rank c < fuel)
    → (b : Bool) × ((get_all_managed_cities cities fuel (map Assignment.city_id (select p held))
          >>= λ managed. returned (is_city_in_scope d managed))
        ≡ returned b)
      × ((b ≡ true) ↔ ReachesBy children p held d)
scope_of_selected cities children forest fuel p held d low =
    let (b, r, x) =
      is_city_in_scope-managed cities children forest fuel (map Assignment.city_id (select p held))
        d (λ c _. low c) in
    let cover = Covers-select children p held d in
    (b, r, (λ h. cover.0 (x.0 h), λ h. x.1 (cover.1 h)))

-- A user may manage the admins of a city exactly when an active assignment makes them super admin,
-- or city admin with that right of the city or of one above it. The databases answer, the
-- hierarchy has no cycle and the fuel exceeds its height.
pub can_manage_city_admins_iff :
    (cities : CityDb) (db : CoreDb) (children : String → List String) (rank : String → ℕ)
    (assigned : String → List Assignment)
    → IsForest cities children rank
    → ((u : String) → db.active_assignments u ≡ returned (assigned u))
    → (fuel : ℕ) (user target : String) → ((c : String) → rank c < fuel)
    → (b : Bool) × (can_manage_city_admins cities db fuel user target ≡ returned b)
      × ((b ≡ true) ↔ (
          ((a : Assignment) × In a (assigned user) × (is_super a ≡ true))
          ⊎ ReachesBy children
              (λ a. is_city_admin a && a.can_manage_admins)
              (assigned user)
              target))
unfolding can_manage_city_admins get_user_city_assignments
can_manage_city_admins_iff cities db children rank assigned forest answers fuel user target low =
    let held = assigned user in
    let p = λ (a : Assignment). is_city_admin a && a.can_manage_admins in
    let (b, r, x) = scope_of_selected cities children forest fuel p held target low in
    elim (Bool-cases (any is_super held)) [
      | inl e ↦ (true, rw (answers user, e), (λ _. inl (any-eq-true is_super held e), λ _. refl))
      | inr e ↦ (
        b,
        rw (answers user, e, r),
        (
          λ h. inr (x.0 h),
          elim [ inl (a, m, s) ↦ cc (any_of_In is_super held a m s) | inr h ↦ x.1 h ],
        ),
      )
    ]
