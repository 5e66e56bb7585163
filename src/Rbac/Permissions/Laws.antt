-- ===== src/Rbac/Permissions/Laws.antt =====
-- When a permission is granted.
use heidi_microservices.Common.{
  ℕ, ◌<◌, ◌≡◌, ◌≢◌, refl, ◌↔◌, ◌⊎◌, inl, inr, Bool, true, false, Option, none, some, List, [], ◌∷◌,
  map, String, arith, str_eq, eq_iff, any, any-eq-true, any_of_In, In, Bool-cases, length, ltb,
  or_else,
}
use heidi_microservices.Common.Outcome.{Exception, thrown, returned, unfinished}
use heidi_microservices.Redis
use heidi_microservices.Redis.{Client}
use heidi_microservices.Rbac.Roles.{UserRole, super_admin, city_admin, citizen}
use heidi_microservices.Rbac.Cities.{CityDb}
use heidi_microservices.Rbac.Cities.Descendants.{IsForest, Covers, is_city_in_scope-managed}
use heidi_microservices.Rbac.Permissions.{
  Assignment, Permission, CoreDb, get_role_permissions, cache_key, Verdict, unassigned,
  out_of_scope, by_role, get_user_city_assignments, has_role_permission, any_role_permitted,
  in_scope, judge_assigned, judge, conclude, resume, has_permission, has_city_permission,
}

pub get_user_city_assignments_returned :
    (db : CoreDb) (u : String) {held : List Assignment}
    → db.active_assignments u ≡ returned held
    → get_user_city_assignments db u ≡ returned held
unfolding get_user_city_assignments
get_user_city_assignments_returned db u h = rw h

-- A query that throws counts as no assignments.
pub get_user_city_assignments_thrown :
    (db : CoreDb) (u : String) {e : Exception}
    → db.active_assignments u ≡ thrown e
    → get_user_city_assignments db u ≡ returned []
unfolding get_user_city_assignments
get_user_city_assignments_thrown db u h = rw h

pub get_role_permissions_returned :
    (db : CoreDb) (r : UserRole) {found : List Permission}
    → db.permissions_of_role r ≡ returned found
    → get_role_permissions db r ≡ returned found
unfolding get_role_permissions
get_role_permissions_returned db r h = rw h

-- With no city given there is no restriction.
pub in_scope-none :
    (cities : CityDb) (fuel : ℕ) (held : List Assignment)
    → in_scope cities fuel held none ≡ returned true
unfolding in_scope
in_scope-none cities fuel held = refl

-- The core database answers every query with the given rows.
pub record IsAnswering (db : CoreDb) (assigned : String → List Assignment)
    (rows : String → String → UserRole → Option (List UserRole)) : Type 0 where
  pub assignments : (u : String) → db.active_assignments u ≡ returned (assigned u)
  pub permission :
      (resource action : String) (r : UserRole)
      → db.find_permission resource action r ≡ returned (rows resource action r)

-- A super admin has every permission, any other role those with a row for it.
abbrev pub permits :
    (String → String → UserRole → Option (List UserRole)) → UserRole → String → String → Bool
permits rows super_admin resource action = true
permits rows role resource action = ltb 0 (length (or_else (rows resource action role) []))

-- A city that is asked about lies in scope; none, or an empty text, is no restriction.
abbrev pub InScope : (String → List String) → List Assignment → Option String → Type 0
InScope children assigned none = Unit
InScope children assigned (some c) = (c ≡ "") ⊎ Covers children (map Assignment.city_id assigned) c

module _ {db : CoreDb} {assigned : String → List Assignment}
    {rows : String → String → UserRole → Option (List UserRole)}
    (answering : IsAnswering db assigned rows) where
  has_role_permission_lem :
      (r : UserRole) (resource action : String)
      → has_role_permission db r resource action ≡ returned (permits rows r resource action)
  unfolding has_role_permission
  has_role_permission_lem super_admin resource action = refl
  has_role_permission_lem city_admin resource action =
      rw (answering.permission resource action city_admin)
  has_role_permission_lem citizen resource action =
      rw (answering.permission resource action citizen)

  any_role_permitted_lem :
      (held : List Assignment) (resource action : String)
      → any_role_permitted db held resource action
        ≡ returned (any (λ a. permits rows a.role resource action) held)
  unfolding any_role_permitted
  any_role_permitted_lem [] resource action = refl
  any_role_permitted_lem (a ∷ held) resource action =
      rw (has_role_permission_lem a.role resource action) (
        rw (any_role_permitted_lem held resource action)
          (elim (Bool-cases (permits rows a.role resource action)) [ inl e ↦ rw e | inr e ↦ rw e ]))

-- The rule by which a permission is granted to a user with these assignments.
abbrev pub Granted :
    (String → List String)
    → (String → String → UserRole → Option (List UserRole))
    → List Assignment
    → String
    → String
    → Option String
    → Type 0
Granted children rows [] resource action city = permits rows citizen resource action ≡ true
Granted children rows (a ∷ held) resource action city =
    InScope children (a ∷ held) city
    × ((b : Assignment) × In b (a ∷ held) × (permits rows b.role resource action ≡ true))

abbrev grants : Verdict → Bool
grants (unassigned b) = b
grants out_of_scope = false
grants (by_role b) = b

-- The cache client answers a write, be it with an exception.
abbrev pub IsResponsive : {S : Type 0} → Client S String → Type 0
IsResponsive {S} cache = (k v : String) (n : ℕ) (s : S) → (cache.setex k n v s).0 ≢ unfinished

module _ {cities : CityDb} {db : CoreDb} {children : String → List String} {rank : String → ℕ}
    {assigned : String → List Assignment}
    {rows : String → String → UserRole → Option (List UserRole)}
    (forest : IsForest cities children rank) (answering : IsAnswering db assigned rows) where
  in_scope_lem :
      (fuel : ℕ) (held : List Assignment) (city : Option String)
      → ((c : String) → In c (map Assignment.city_id held) → rank c < fuel)
      → (b : Bool) × (in_scope cities fuel held city ≡ returned b)
        × ((b ≡ true) ↔ InScope children held city)
  unfolding in_scope
  in_scope_lem fuel held none low = (true, refl, (λ _. tt, λ _. refl))
  in_scope_lem fuel held (some c) low = elim (Bool-cases (str_eq c "")) [
    | inl e ↦ (true, rw e, (λ _. inl ((eq_iff c "").0 e), λ _. refl))
    | inr e ↦
        let (b, r, x) =
          is_city_in_scope-managed cities children forest fuel (map Assignment.city_id held) c
            low in
        (
          b,
          rw e r,
          (λ h. inr (x.0 h), elim [ inl q ↦ absurd (ground (arith, eq_iff c "")) | inr h ↦ x.1 h ]),
        )
  ]

  judge_assigned_lem :
      (fuel : ℕ) (held : List Assignment) (resource action : String) (city : Option String)
      → ((c : String) → In c (map Assignment.city_id held) → rank c < fuel)
      → (v : Verdict) × (judge_assigned cities db fuel held resource action city ≡ returned v)
        × ((grants v ≡ true) ↔ Granted children rows held resource action city)
  unfolding judge_assigned
  judge_assigned_lem fuel [] resource action city low = (
    unassigned (permits rows citizen resource action),
    rw (has_role_permission_lem answering citizen resource action),
    (λ h. h, λ h. h),
  )
  judge_assigned_lem fuel (a ∷ held) resource action city low =
      let p = λ (q : Assignment). permits rows q.role resource action in
      let (b, r, x) = in_scope_lem fuel (a ∷ held) city low in
      elim (Bool-cases b) [
        | inl e ↦ (
          by_role (any p (a ∷ held)),
          rw (r, e, any_role_permitted_lem answering (a ∷ held) resource action),
          (λ h. (x.0 e, any-eq-true p (a ∷ held) h), λ (_, w). any_of_In p (a ∷ held) w.0 w.1 w.2),
        )
        | inr e ↦ (out_of_scope, rw (r, e), (λ h. cc, λ w. cc (x.1 w.0)))
      ]

  module _ {S : Type 0} (cache : Client S String) where
    conclude_lem :
        (key : String) (v : Verdict) (s : S)
        → IsResponsive cache
        → (conclude cities db cache key (returned v) s).0 ≡ returned (grants v)
    unfolding conclude
    conclude_lem key (unassigned b) s h = refl
    conclude_lem key out_of_scope s h = refl
    conclude_lem key (by_role false) s h = refl
    conclude_lem key (by_role true) s h =
        let (b, r) = Redis.set_returns cache key "true" 299 s (h key "true" 300 s) in rw r

    -- When the cache has no entry for the question and its client answers a write, the databases
    -- answer, the hierarchy has no cycle and the fuel exceeds the height of the assigned cities,
    -- `hasPermission` returns, and with `true` exactly by the rule: a user without assignments has
    -- what the citizen role permits; any other has what the role of one of the assignments
    -- permits, if the city asked about, where one is given, is assigned or below an assigned one.
    pub has_permission_iff :
        (fuel : ℕ) (user resource action : String) (city : Option String) (s : S)
        → IsResponsive cache
        → Redis.get cache (cache_key user resource action city) s ≡ returned none
        → ((c : String) → In c (map Assignment.city_id (assigned user)) → rank c < fuel)
        → (b : Bool) × ((has_permission cities db cache fuel user resource action city s).0
            ≡ returned b)
          × ((b ≡ true) ↔ Granted children rows (assigned user) resource action city)
    unfolding has_permission resume judge
    has_permission_iff fuel user resource action city s responsive miss low =
        let (v, r, x) = judge_assigned_lem fuel (assigned user) resource action city low in
        (
          grants v,
          rw (miss, get_user_city_assignments_returned db user (answering.assignments user), r)
              (conclude_lem (cache_key user resource action city) v s responsive),
          x,
        )

    -- `hasCityPermission` asks for the permission in the city.
    pub has_city_permission_lem :
        (fuel : ℕ) (user city resource action : String) (s : S)
        → has_city_permission cities db cache fuel user city resource action s
          ≡ has_permission cities db cache fuel user resource action (some city) s
    unfolding has_city_permission
    has_city_permission_lem fuel user city resource action s = refl
