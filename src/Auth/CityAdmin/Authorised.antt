-- ===== src/Auth/CityAdmin/Authorised.antt =====
-- apps/auth/src/modules/auth/auth.service.ts: what `assignCityAdmin` requires of the requester.
use heidi_microservices.Common.{
  ℕ, ◌≡◌, refl, sym, ap, ◌∙◌, ◌⊎◌, inl, inr, Bool, true, false, not, ◌&&◌, ◌||◌, Option, none, some,
  List, [], ◌∷◌, String, str_eq, In, Bool-cases,
}
use heidi_microservices.Common.Outcome.{
  Outcome, returned, thrown, unfinished, forbidden, returned-inj,
}
use heidi_microservices.Common.Action.{
  Action, ◌>>=◌, ◌>>◌, query, throw_when, continue, bind_returned,
}
use heidi_microservices.Rbac.Roles.{
  UserRole, super_admin, city_admin, role_eq, role_eq_iff, RoleClaim, is_role, claimed_role,
  number_to_role,
}
use heidi_microservices.Rbac.Cities.{CityDb}
use heidi_microservices.Rbac.Permissions.{
  Assignment, can_manage_city_admins, get_user_city_assignments,
}
use heidi_microservices.Auth.{World, User, Deps, on_db, read_db}
use heidi_microservices.Auth.CityAdmin.{
  AssignDto, AssignRequest, first_assignment, manages_admins, found_role, requester_role,
  is_permitted, granted_by, can_grant, assign_to, assign_as, assign_city_admin,
}

first_assignment-In :
    (city : String) (assignments : List Assignment) (a : Assignment)
    → first_assignment city assignments ≡ some a
    → In a assignments
unfolding first_assignment
first_assignment-In city [] a h = cc
first_assignment-In city (b ∷ rest) a h =
    let ih = first_assignment-In city rest a in
    elim (Bool-cases (str_eq b.city_id city || b.can_manage_admins)) [
      | inl e ↦ inl (ap (λ o. elim o [ some x ↦ x | none ↦ a ]) (sym (rw e at h)))
      | inr e ↦ inr (ih (rw e at h))
    ]

manages_admins_lem :
    (o : Option Assignment)
    → manages_admins o ≡ true
    → (a : Assignment) × (o ≡ some a) × (a.can_manage_admins ≡ true)
manages_admins_lem none h = cc
manages_admins_lem (some a) h = (a, refl, h)

both_true : (a b : Bool) → (a && b) ≡ true → (a ≡ true) × (b ≡ true)
both_true true b h = (refl, h)
both_true false b h = cc

module _ {R D : Type 0} (deps : Deps R D) (cities : CityDb)
    (assign : AssignRequest → Action D String)
    (user_cities : String → D → Outcome (List Assignment)) where
  -- The requester may manage the administrators of the city.
  abbrev Permitted : ℕ → String → String → Bool → Type 0
  Permitted fuel requester city super =
      (super ≡ true) ⊎ (can_manage_city_admins cities deps.core fuel requester city ≡ returned true)

  -- A grant to manage administrators is for a city administrator only, and comes from a super admin
  -- or from someone who holds it.
  abbrev GrantIsHeld : AssignDto → String → Bool → Type 0
  GrantIsHeld dto requester super =
      (number_to_role dto.role ≡ city_admin)
      × ((super ≡ true)
          ⊎ ((assignments : List Assignment) × (get_user_city_assignments deps.core requester
                ≡ returned assignments)
              × (a : Assignment) × In a assignments
              × (a.can_manage_admins ≡ true)))

  granted_by_held :
      (dto : AssignDto) (m : Outcome (List Assignment))
      → granted_by deps cities assign user_cities dto m ≡ returned true
      → (number_to_role dto.role ≡ city_admin)
        × (assignments : List Assignment) × (m ≡ returned assignments)
        × (a : Assignment) × In a assignments
        × (a.can_manage_admins ≡ true)
  unfolding granted_by
  granted_by_held dto (returned assignments) h =
      let (m, r) =
        both_true (manages_admins (first_assignment dto.city_id assignments))
          (role_eq (number_to_role dto.role) city_admin) (returned-inj h) in
      let (a, f, k) = manages_admins_lem (first_assignment dto.city_id assignments) m in
      (
        (role_eq_iff (number_to_role dto.role) city_admin).0 r,
        assignments,
        refl,
        a,
        first_assignment-In dto.city_id assignments a f,
        k,
      )
  granted_by_held dto (thrown e) h = cc
  granted_by_held dto unfinished h = cc

  -- The role that the token claims or, if it has none, that the account of the requester has.
  abbrev pub HasRole : String → Option RoleClaim → Option UserRole → World R D → Type 0
  HasRole requester (some role) known s = known ≡ claimed_role role
  HasRole requester none known s =
      (account : User) × (deps.remote.find_by_id requester s.db ≡ returned (some account))
      × (known ≡ claimed_role account.role)

  -- What an assignment that was made has gone through.
  pub record Assigned (fuel : ℕ) (dto : AssignDto) (requester : String) (role : Option RoleClaim)
      (s : World R D) : Type 0 where
    pub known : Option UserRole
    pub grant : Bool
    pub user : User
    pub claims : HasRole requester role known s
    pub permitted : Permitted fuel requester dto.city_id (is_role super_admin known)
    pub found : deps.remote.find_by_id dto.user_id s.db ≡ returned (some user)
    pub held : grant ≡ true → GrantIsHeld dto requester (is_role super_admin known)
    pub result :
        assign_city_admin deps cities assign user_cities fuel dto requester role s
        ≡ on_db
            (assign
              (record { dto = dto; assigned_by = requester; can_grant_manage_admins = grant }))
            s

  role_state :
      (requester : String) (role : Option RoleClaim) (s : World R D)
      → (requester_role deps cities assign user_cities requester role s).1 ≡ s
  unfolding requester_role found_role
  role_state requester (some role) s = refl
  role_state requester none s = go (deps.remote.find_by_id requester s.db)
    where
      go :
          (o : Outcome (Option User))
          → (continue (found_role deps cities assign user_cities) (o, s)).1 ≡ s
      go (returned none) = refl
      go (returned (some u)) = refl
      go (thrown e) = refl
      go unfinished = refl

  role_lem :
      (requester : String) (role : Option RoleClaim) (s : World R D) (known : Option UserRole)
      → (requester_role deps cities assign user_cities requester role s).0 ≡ returned known
      → HasRole requester role known s
  unfolding requester_role found_role
  role_lem requester (some role) s known h = sym (returned-inj h)
  role_lem requester none s known h = go (deps.remote.find_by_id requester s.db) refl h
    where
      go :
          (o : Outcome (Option User))
          → deps.remote.find_by_id requester s.db ≡ o
          → (continue (found_role deps cities assign user_cities) (o, s)).0 ≡ returned known
          → HasRole requester none known s
      go (returned none) e h = cc
      go (returned (some u)) e h = (u, e, sym (returned-inj h))
      go (thrown x) e h = cc
      go unfinished e h = cc

  can_grant_held :
      (dto : AssignDto) (requester : String) (super : Bool)
      → can_grant deps cities assign user_cities dto requester super ≡ returned true
      → GrantIsHeld dto requester super
  unfolding can_grant
  can_grant_held dto requester true h =
      ((role_eq_iff (number_to_role dto.role) city_admin).0 (returned-inj h), inl refl)
  can_grant_held dto requester false h =
      let (r, xs, e, a, i, c) =
        granted_by_held dto (get_user_city_assignments deps.core requester) h in
      (r, inr (xs, e, a, i, c))

  permitted_lem :
      (fuel : ℕ) (requester city : String) (super : Bool)
      → is_permitted deps cities assign user_cities fuel requester city super ≡ returned true
      → Permitted fuel requester city super
  unfolding is_permitted
  permitted_lem fuel requester city true h = inl refl
  permitted_lem fuel requester city false h = inr h

  -- The same of `assignCityAdmin` once the role of the requester is known.
  record AssignedAs (fuel : ℕ) (dto : AssignDto) (requester : String) (super : Bool) (s : World R D)
      : Type 0 where
    grant : Bool
    user : User
    permitted : Permitted fuel requester dto.city_id super
    found : deps.remote.find_by_id dto.user_id s.db ≡ returned (some user)
    held : grant ≡ true → GrantIsHeld dto requester super
    result :
        assign_as deps cities assign user_cities fuel dto requester super s
        ≡ on_db
            (assign
              (record { dto = dto; assigned_by = requester; can_grant_manage_admins = grant }))
            s

  assign_as-AssignedAs :
      (fuel : ℕ) (dto : AssignDto) (requester : String) (super : Bool) (s : World R D) (m : String)
      → (assign_as deps cities assign user_cities fuel dto requester super s).0 ≡ returned m
      → AssignedAs fuel dto requester super s
  unfolding assign_as assign_to
  assign_as-AssignedAs fuel dto requester super s m h =
      let (p, k, e, h1) =
        bind_returned
          (query
            (λ _. is_permitted deps cities assign user_cities fuel requester dto.city_id super))
          (after_permitted) s h in
      by_permitted p k e h1
    where
      target : Action (World R D) String
      target =
          read_db (deps.remote.find_by_id dto.user_id)
          >>= assign_to deps cities assign user_cities dto requester super

      after_permitted : Bool → Action (World R D) String
      after_permitted p =
          throw_when (not p) (forbidden "Insufficient permissions to assign city admins") >> target

      whole : Outcome String × World R D
      whole = assign_as deps cities assign user_cities fuel dto requester super s

      by_user :
          is_permitted deps cities assign user_cities fuel requester dto.city_id super
            ≡ returned true
          → (o : Option User) → deps.remote.find_by_id dto.user_id s.db ≡ returned o
          → whole ≡ assign_to deps cities assign user_cities dto requester super o s
          → (assign_to deps cities assign user_cities dto requester super o s).0 ≡ returned m
          → AssignedAs fuel dto requester super s
      by_user k none f e h = cc
      by_user k (some user) f e h =
          let (g, c, e1, _) =
            bind_returned
              (query (λ _. can_grant deps cities assign user_cities dto requester super)) _ s h in
          record {
            grant = g;
            user = user;
            permitted = permitted_lem fuel requester dto.city_id super k;
            found = f;
            held = λ t. can_grant_held dto requester super (c ∙ ap returned t);
            result = e ∙ e1;
          }

      by_permitted :
          (p : Bool)
          → is_permitted deps cities assign user_cities fuel requester dto.city_id super
            ≡ returned p
          → whole ≡ after_permitted p s
          → (after_permitted p s).0 ≡ returned m
          → AssignedAs fuel dto requester super s
      by_permitted false k e h = cc
      by_permitted true k e h =
          let (o, f, e1, h1) =
            bind_returned (read_db (deps.remote.find_by_id dto.user_id))
              (assign_to deps cities assign user_cities dto requester super) s h in
          by_user k o f (e ∙ e1) h1

  -- `assignCityAdmin` returns only if the requester, by the role that the token claims or, if it has
  -- none, that the account has as a number or a text, is a super admin or may manage the administrators of the city, and the user exists. It then makes
  -- one request to the core service, and that request carries a grant to manage administrators only
  -- for the role of a city administrator and from a super admin or a requester who has an assignment
  -- with that grant.
  pub assign_city_admin-Assigned :
      (fuel : ℕ) (dto : AssignDto) (requester : String) (role : Option RoleClaim) (s : World R D)
      (m : String)
      → (assign_city_admin deps cities assign user_cities fuel dto requester role s).0 ≡ returned m
      → Assigned fuel dto requester role s
  unfolding assign_city_admin requester_role
  assign_city_admin-Assigned fuel dto requester role s m h =
      let (known, k, e, h1) =
        bind_returned (requester_role deps cities assign user_cities requester role) _ s h in
      let super = is_role super_admin known in
      let same = role_state requester role s in
      let a = assign_as-AssignedAs fuel dto requester super s m (rw same at h1) in
      record {
        known = known;
        grant = a.grant;
        user = a.user;
        claims = role_lem requester role s known k;
        permitted = a.permitted;
        found = a.found;
        held = a.held;
        result = rw same at e ∙ a.result;
      }
