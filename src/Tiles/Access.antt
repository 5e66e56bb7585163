-- ===== src/Tiles/Access.antt =====
-- Who may create a tile.
use heidi_microservices.Common.{
  ℕ, ◌<◌, ◌≡◌, refl, ◌↔◌, ◌⊎◌, inl, inr, true, Option, none, some, List, [], ◌∷◌, String, arith,
  any, every, In, In-of_includes, includes_of_In, Bool-cases, or_else, not, if◌then◌else◌,
}
use heidi_microservices.Common.Outcome.{
  Outcome, Exception, returned, thrown, unfinished, throw_if, ◌>>◌,
}
use heidi_microservices.Rbac.Roles.{UserRole, super_admin, city_admin}
use heidi_microservices.Rbac.Cities.{CityDb}
use heidi_microservices.Rbac.Cities.Descendants.{IsForest}
use heidi_microservices.Rbac.Permissions.{Assignment, CoreDb, is_super, is_city_admin}
use heidi_microservices.Rbac.Permissions.Scope.{ReachesBy}
use heidi_microservices.Rbac.UserContext.{get_user_managed_cities}
use heidi_microservices.Rbac.UserContext.Laws.{get_user_managed_cities_lem}
use heidi_microservices.Tiles.{
  holds, is_admin, is_restricted, has_access, check_cities, restrict_create, create_access,
  check_existing, update_access, delete_access, create_message, update_message, assign_message,
  delete_message,
}

every-includes_iff :
    (xs ys : List String) → (has_access xs ys ≡ true) ↔ ((y : String) → In y ys → In y xs)
every-includes_iff xs [] = (λ _ y m. absurd m, λ _. refl)
every-includes_iff xs (y ∷ ys) =
    let (a, b) = every-includes_iff xs ys in
    (
      λ h z m. elim m [
        | inl e ↦ rw e (In-of_includes xs y (ground arith))
        | inr n ↦ a (ground arith) z n
      ],
      λ h. rw (includes_of_In xs y (h y (inl refl))) (b (λ z m. h z (inr m))),
    )

check_cities_iff :
    (message : String) (managed requested : List String)
    → (check_cities message managed requested ≡ returned tt)
      ↔ ((managed ≡ []) ⊎ ((y : String) → In y requested → In y managed))
check_cities_iff message [] requested = (λ _. inl refl, λ _. refl)
check_cities_iff message (m ∷ managed) requested =
    let (a, b) = every-includes_iff (m ∷ managed) requested in
    elim (Bool-cases (has_access (m ∷ managed) requested)) [
      | inl e ↦ rw e (λ _. inr (a e), λ _. refl)
      | inr e ↦ rw e (λ h. cc, elim [ inl q ↦ cc | inr h ↦ let k = b h in cc ])
    ]

-- Two checks, one after the other.
both : (m n : Outcome (Unit {0})) → (m >> n) ≡ returned tt → (m ≡ returned tt) × (n ≡ returned tt)
both (returned tt) n h = (refl, h)
both (thrown e) n h = cc
both unfinished n h = cc

-- At least one city is requested, and the property holds of the list.
abbrev pub Requested : Option (List String) → (List String → Type 0) → Type 0
Requested none P = ⊥
Requested (some []) P = ⊥
Requested (some (c ∷ cs)) P = P (c ∷ cs)

module _ (cities : CityDb) (db : CoreDb) (children : String → List String) (rank : String → ℕ)
    (assigned : String → List Assignment) (forest : IsForest cities children rank)
    (answers : (u : String) → db.active_assignments u ≡ returned (assigned u)) (fuel : ℕ)
    (low : (c : String) → rank c < fuel) where
  -- The user holds a super admin assignment, or manages no city at all, or manages each of the
  -- cities.
  abbrev pub Unhindered : String → List String → Type 0
  Unhindered user requested =
      (any is_super (assigned user) ≡ true)
      ⊎ (((d : String) → ¬ ReachesBy children is_city_admin (assigned user) d)
          ⊎ ((d : String) → In d requested → ReachesBy children is_city_admin (assigned user) d))

  empty_of : (ds : List String) → ((d : String) → ¬ In d ds) → ds ≡ []
  empty_of [] h = refl
  empty_of (d ∷ ds) h = absurd (h d (inl refl))

  -- The list of managed cities, and what each check of it comes to.
  managed_lem :
      (user : String)
      → (ds : List String) × (get_user_managed_cities cities db fuel user ≡ returned ds)
        × ((requested : List String)
            → ((ds ≡ []) ⊎ ((d : String) → In d requested → In d ds)) ↔ Unhindered user requested)
  managed_lem user =
      let (ds, r, all, some_cities) =
        get_user_managed_cities_lem cities db children rank assigned forest answers fuel low user in
      (
        ds,
        r,
        λ requested. elim (Bool-cases (any is_super (assigned user))) [
          | inl e ↦ (λ _. inl e, λ _. inl (all e))
          | inr e ↦ (
            elim [
              | inl none_managed ↦
                  inr (inl (λ d reached. absurd (rw none_managed at ((some_cities e d).1 reached))))
              | inr every ↦ inr (inr (λ d m. (some_cities e d).0 (every d m)))
            ],
            elim [
              | inl q ↦ cc
              | inr w ↦ elim w [
                | inl nowhere ↦ inl (empty_of ds (λ d m. nowhere d ((some_cities e d).0 m)))
                | inr h ↦ inr (λ d m. (some_cities e d).1 (h d m))
              ]
            ],
          )
        ],
      )

  check_existing_iff :
      (message : String) (managed existing : List String)
      → (check_existing cities db fuel message managed existing ≡ returned tt)
        ↔ ((managed ≡ []) ⊎ ((d : String) → In d existing → In d managed))
  check_existing_iff message managed [] = (λ _. inr (λ d m. absurd m), λ _. refl)
  check_existing_iff message managed (c ∷ existing) =
      check_cities_iff message managed (c ∷ existing)

  restrict_create_iff :
      (user : String) (requested : Option (List String))
      → (restrict_create cities db fuel user requested ≡ returned tt)
        ↔ Requested requested (Unhindered user)
  unfolding restrict_create
  restrict_create_iff user none = (λ h. cc, λ h. absurd h)
  restrict_create_iff user (some []) = (λ h. cc, λ h. absurd h)
  restrict_create_iff user (some (c ∷ cs)) =
      let (ds, r, x) = managed_lem user in
      let (a, b) = check_cities_iff create_message ds (c ∷ cs) in
      rw r (λ h. (x (c ∷ cs)).0 (a h), λ h. b ((x (c ∷ cs)).1 h))

  -- A check for admins, behind which another one restricts city admins.
  claimed_iff :
      (roles : List UserRole) (e : Exception) (check : Outcome (Unit {0})) (P : Type 0)
      → (check ≡ returned tt) ↔ P
      → ((throw_if (not (is_admin roles)) e >> (if is_restricted roles then check else returned tt))
          ≡ returned tt)
        ↔ ((holds roles super_admin ≡ true) ⊎ ((holds roles city_admin ≡ true) × P))
  claimed_iff roles e check P (a, b) = elim (Bool-cases (holds roles super_admin)) [
    | inl e ↦ elim (Bool-cases (holds roles city_admin)) [
      | inl f ↦ rw (e, f) (λ _. inl refl, λ _. refl)
      | inr f ↦ rw (e, f) (λ _. inl refl, λ _. refl)
    ]
    | inr e ↦ elim (Bool-cases (holds roles city_admin)) [
      | inl f ↦ rw (e, f) (λ h. inr (refl, a h), elim [ inl q ↦ cc | inr w ↦ b w.1 ])
      | inr f ↦ rw (e, f) (λ h. cc, elim [ inl q ↦ cc | inr w ↦ cc (w.0) ])
    ]
  ]

  -- A tile may be created exactly by a user whose claimed roles hold super admin, or hold city admin
  -- and who names at least one city and either has a super admin assignment, or manages every city
  -- named, or manages no city at all. The databases answer, the hierarchy has no cycle and the fuel
  -- exceeds its height.
  pub create_access_iff :
      (user : String) (roles : List UserRole) (requested : Option (List String))
      → (create_access cities db fuel user roles requested ≡ returned tt) ↔ (
          (holds roles super_admin ≡ true)
          ⊎ ((holds roles city_admin ≡ true) × Requested requested (Unhindered user)))
  unfolding create_access
  create_access_iff user roles requested =
      claimed_iff roles _ _ _ (restrict_create_iff user requested)

  -- A tile may be updated exactly by a user whose claimed roles hold super admin, or hold city admin
  -- and who has a super admin assignment, or manages every city of the tile and every city named in
  -- the update, or manages no city at all. The databases answer, the hierarchy has no cycle and the
  -- fuel exceeds its height.
  pub update_access_iff :
      (user : String) (roles : List UserRole) (existing : List String)
      (requested : Option (List String))
      → (update_access cities db fuel user roles existing requested ≡ returned tt) ↔ (
          (holds roles super_admin ≡ true)
          ⊎ ((holds roles city_admin ≡ true)
              × (Unhindered user existing × Unhindered user (or_else requested []))))
  unfolding update_access
  update_access_iff user roles existing requested =
      let (ds, r, x) = managed_lem user in
      let (a, b) = check_existing_iff update_message ds existing in
      let (c, d) = check_existing_iff assign_message ds (or_else requested []) in
      claimed_iff roles _ _ _ (
        rw r (
          λ h.
              let (first, second) = both _ _ h in
              ((x existing).0 (a first), (x (or_else requested [])).0 (c second)),
          λ (h, k). rw (b ((x existing).1 h)) (d ((x (or_else requested [])).1 k)),
        ))

  -- A tile may be deleted exactly by a user whose claimed roles hold super admin, or hold city admin
  -- and who has a super admin assignment, or manages every city of the tile, or manages no city at
  -- all. The databases answer, the hierarchy has no cycle and the fuel exceeds its height.
  pub delete_access_iff :
      (user : String) (roles : List UserRole) (existing : List String)
      → (delete_access cities db fuel user roles existing ≡ returned tt) ↔ (
          (holds roles super_admin ≡ true)
          ⊎ ((holds roles city_admin ≡ true) × Unhindered user existing))
  unfolding delete_access
  delete_access_iff user roles existing =
      let (ds, r, x) = managed_lem user in
      let (a, b) = check_existing_iff delete_message ds existing in
      claimed_iff roles _ _ _ (rw r (λ h. (x existing).0 (a h), λ h. b ((x existing).1 h)))
