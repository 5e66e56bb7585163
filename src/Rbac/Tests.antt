-- ===== src/Rbac/Tests.antt =====
-- The access rules on a district with one town and one part of it, and two users.
use heidi_microservices.Common.{
  ℕ, ◌<◌, ◌≡◌, refl, ◌∙◌, ap, ◌↔◌, inl, inr, Bool, true, false, Option, none, some, List, [], ◌∷◌,
  String, arith, str_eq, In, Bool-cases, if◌then◌else◌,
}
use heidi_microservices.Common.Outcome.{returned, thrown, failure, returns_true_iff}
use heidi_microservices.Redis.Memory.{no_keys, memory, memory_responsive, memory_empty}
use heidi_microservices.Rbac.Roles.{UserRole, city_admin, number}
use heidi_microservices.Rbac.Cities.{City, CityDb, get_all_managed_cities}
use heidi_microservices.Rbac.Cities.Descendants.{
  IsForest, Below, child, Covers, get_all_managed_cities-Covers,
}
use heidi_microservices.Rbac.Cities.Ancestors.{IsRooted}
use heidi_microservices.Rbac.Permissions.{
  Assignment, Permission, CoreDb, is_city_admin, has_permission,
}
use heidi_microservices.Rbac.Permissions.Laws.{IsAnswering, Granted, has_permission_iff}
use heidi_microservices.Rbac.Permissions.Scope.{ReachesBy}
use heidi_microservices.Rbac.Request.{TokenUser, Request}
use heidi_microservices.Rbac.Guards.{Required, city_management_guard, city_scope_guard}
use heidi_microservices.Rbac.Guards.City.{city_management_guard_iff, city_scope_guard_iff}
use heidi_microservices.Rbac.TermsGuard.{Acceptance, TermsClient}

-- The district of Kiel, the town and its part Gaarden.
abbrev children : String → List String
children p =
    if str_eq p "district" then "kiel" ∷ [] else if str_eq p "kiel" then "gaarden" ∷ [] else []

abbrev height : String → ℕ
height p = if str_eq p "district" then 2 else if str_eq p "kiel" then 1 else 0

abbrev city : String → String → Option String → City
city id name parent = record { id = id; name = name; parent_city_id = parent }

abbrev find : String → Option City
find i =
    if str_eq i "district"
    then some (city "district" "Kreis" none)
    else if str_eq i "kiel"
    then some (city "kiel" "Kiel" (some "district"))
    else if str_eq i "gaarden"
    then some (city "gaarden" "Gaarden" (some "kiel"))
    else none

abbrev depth : String → ℕ
depth i =
    if str_eq i "district"
    then 0
    else if str_eq i "kiel"
    then 1
    else if str_eq i "gaarden"
    then 2
    else 0

abbrev cities : CityDb
cities = record { active_children = λ p. returned (children p); find_city = λ i. returned (find i) }

cities-IsForest : IsForest cities children height
cities-IsForest = record {
  answers = λ p. refl;
  lower = λ p c m. elim (Bool-cases (str_eq p "district")) [
    | inl e ↦ elim (rw e at m) [ inl q ↦ rw (q, e) (omega arith) | inr q ↦ absurd q ]
    | inr e ↦ elim (Bool-cases (str_eq p "kiel")) [
      | inl f ↦ elim (rw (e, f) at m) [ inl q ↦ rw (q, e, f) (omega arith) | inr q ↦ absurd q ]
      | inr f ↦ absurd (rw (e, f) at m)
    ]
  ];
}

height_low : (c : String) → height c < 3
height_low c = elim (Bool-cases (str_eq c "district")) [
  | inl e ↦ rw e (omega arith)
  | inr e ↦ elim (Bool-cases (str_eq c "kiel")) [
    | inl f ↦ rw (e, f) (omega arith)
    | inr f ↦ rw (e, f) (omega arith)
  ]
]

some-inj : {A : Type 0} {a b : A} → some a ≡ some b → a ≡ b
some-inj h = cc

cities-IsRooted : IsRooted cities find depth
cities-IsRooted = record {
  answers = λ i. refl;
  lower = λ i p c h k. elim (Bool-cases (str_eq i "district")) [
    | inl e ↦
        let q : some (city "district" "Kreis" none) ≡ some c = rw e at h in
        let r : none ≡ some p = ap (λ x. x.parent_city_id) (some-inj q) ∙ k in cc
    | inr e ↦ elim (Bool-cases (str_eq i "kiel")) [
      | inl f ↦
          let q : some (city "kiel" "Kiel" (some "district")) ≡ some c = rw (e, f) at h in
          let r : some "district" ≡ some p = ap (λ x. x.parent_city_id) (some-inj q) ∙ k in
          rw (← some-inj r, e, f) (omega arith)
      | inr f ↦ elim (Bool-cases (str_eq i "gaarden")) [
        | inl g ↦
            let q : some (city "gaarden" "Gaarden" (some "kiel")) ≡ some c = rw (e, f, g) at h in
            let r : some "kiel" ≡ some p = ap (λ x. x.parent_city_id) (some-inj q) ∙ k in
            rw (← some-inj r, e, f, g) (omega arith)
        | inr g ↦ let q : none ≡ some c = rw (e, f, g) at h in cc
      ]
    ]
  ];
}

-- Anna is city admin of Kiel; nobody else has an assignment.
abbrev assigned : String → List Assignment
assigned u =
    if str_eq u "anna"
    then (record { city_id = "kiel"; role = city_admin; can_manage_admins = true }) ∷ []
    else []

abbrev granted : String → String → UserRole → Option (List UserRole)
granted resource action city_admin = some (city_admin ∷ [])
granted resource action role = some []

abbrev moderation : Permission
moderation = record { id = "p1"; resource = "listings"; action = "moderate"; description = none }

abbrev permissions_of : UserRole → List Permission
permissions_of city_admin = moderation ∷ []
permissions_of role = []

abbrev core : CoreDb
core = record {
  active_assignments = λ u. returned (assigned u);
  find_permission = λ resource action r. returned (granted resource action r);
  permissions_of_role = λ r. returned (permissions_of r);
  all_permissions = returned (moderation ∷ []);
}

core-IsAnswering : IsAnswering core assigned granted
core-IsAnswering = record { assignments = λ u. refl; permission = λ resource action r. refl }

-- The core database when it is out of reach.
abbrev no_core : CoreDb
no_core = record {
  active_assignments = λ u. thrown (failure "timeout");
  find_permission = λ resource action r. thrown (failure "timeout");
  permissions_of_role = λ r. thrown (failure "timeout");
  all_permissions = thrown (failure "timeout");
}

abbrev anna : TokenUser
anna = record {
  role = number 2;
  sub = "anna";
  user_id = "anna";
  selected_city_id = none;
  city_id = none;
}

abbrev asks : Option String → Request
asks c = record {
  user = some anna;
  params_city_id = c;
  params_id = none;
  query_city_id = none;
  body_city_id = none;
  accept_language = some "de-DE,de;q=0.9";
  query_locale = none;
}

abbrev anna_admin : Assignment
anna_admin = record { city_id = "kiel"; role = city_admin; can_manage_admins = true }

gaarden-Below : Below children "kiel" "gaarden"
gaarden-Below = child kiel_parent
  where
    kiel_parent : In "gaarden" (children "kiel")
    kiel_parent = inl refl

gaarden_reached : ReachesBy children is_city_admin (assigned "anna") "gaarden"
gaarden_reached = (anna_admin, inl refl, refl, inr gaarden-Below)

has_permission_iff_example :
    (b : Bool) × ((has_permission cities core memory 3 "anna" "listings" "moderate"
        (some "gaarden")
        no_keys).0
      ≡ returned b)
    × ((b ≡ true)
        ↔ Granted children granted (assigned "anna") "listings" "moderate" (some "gaarden"))
has_permission_iff_example =
    has_permission_iff cities-IsForest core-IsAnswering memory 3 "anna" "listings" "moderate"
      (some "gaarden") no_keys memory_responsive (memory_empty _) (λ c _. height_low c)

city_management_guard_iff_example :
    city_management_guard cities core 3 (asks (some "gaarden")) ≡ returned true
city_management_guard_iff_example =
    (city_management_guard_iff cities core children height assigned cities-IsForest (λ _. refl) 3
        height_low (asks (some "gaarden"))).1
      (inr ((λ h. cc), inr gaarden_reached))

city_scope_guard_iff_example :
    city_scope_guard cities core 3 (asks (some "gaarden")) ≡ returned true
city_scope_guard_iff_example =
    (city_scope_guard_iff cities core children height assigned cities-IsForest (λ _. refl) 3
        height_low (asks (some "gaarden"))).1
      (inr (inr (inr (inr gaarden_reached))))

get_all_managed_cities-Covers_example :
    (ds : List String) × (get_all_managed_cities cities 3 ("kiel" ∷ []) ≡ returned ds)
    × ((d : String) → In d ds ↔ Covers children ("kiel" ∷ []) d)
get_all_managed_cities-Covers_example =
    get_all_managed_cities-Covers cities children cities-IsForest 3 ("kiel" ∷ [])
      (λ c _. height_low c)

anna_may :
    (has_permission cities core memory 3 "anna" "listings" "moderate" (some "gaarden") no_keys).0
    ≡ returned true
anna_may =
    (returns_true_iff _ has_permission_anna).1
      ((inr ("kiel", inl refl, inr gaarden-Below)), (anna_admin, inl refl, refl))
  where
    has_permission_anna :
        (b : Bool) × ((has_permission cities core memory 3 "anna" "listings" "moderate"
            (some "gaarden")
            no_keys).0
          ≡ returned b)
        × ((b ≡ true)
            ↔ Granted children granted (assigned "anna") "listings" "moderate" (some "gaarden"))
    has_permission_anna =
        has_permission_iff cities-IsForest core-IsAnswering memory 3 "anna" "listings" "moderate"
          (some "gaarden") no_keys memory_responsive (memory_empty _) (λ c _. height_low c)

abbrev to_moderate : Required
to_moderate = record { resource = "listings"; action = "moderate"; city_id = none }

-- A users service for which nobody has accepted the terms, and one that does not answer.
abbrev unaccepted : Acceptance
unaccepted = record { has_accepted = false; terms_id = some "t1"; grace_period_ends_at = none }

abbrev terms_client : TermsClient
terms_client = record {
  check_acceptance = λ user locale c. returned unaccepted;
  get_latest = λ locale c. returned (some "t1");
}

abbrev silent_client : TermsClient
silent_client = record {
  check_acceptance = λ user locale c. thrown (failure "Timeout has occurred");
  get_latest = λ locale c. thrown (failure "Timeout has occurred");
}
