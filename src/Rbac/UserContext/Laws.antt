-- ===== src/Rbac/UserContext/Laws.antt =====
-- Which cities a user may see and manage.
use heidi_microservices.Common.{
  ℕ, ◌<◌, ◌≡◌, refl, ◌↔◌, ◌⊎◌, inl, inr, Bool, true, false, List, [], ◌∷◌, map, String, any,
  any-eq-true, any_of_In, select, In, Bool-cases,
}
use heidi_microservices.Common.Outcome.{returned, thrown, Exception}
use heidi_microservices.Rbac.Cities.{CityDb}
use heidi_microservices.Rbac.Cities.Descendants.{IsForest, get_all_managed_cities-Covers}
use heidi_microservices.Rbac.Permissions.{Assignment, CoreDb, is_super, is_city_admin}
use heidi_microservices.Rbac.Permissions.Scope.{ReachesBy, Covers-select, scope_of_selected}
use heidi_microservices.Rbac.Permissions.Laws.{
  get_user_city_assignments_returned, get_user_city_assignments_thrown,
}
use heidi_microservices.Rbac.UserContext.{
  managed_of, get_user_managed_cities, can_access_city, can_manage_city,
}

abbrev pub HoldsRole : (Assignment → Bool) → List Assignment → Type 0
HoldsRole p held = (a : Assignment) × In a held × (p a ≡ true)

module _ (cities : CityDb) (db : CoreDb) (children : String → List String) (rank : String → ℕ)
    (assigned : String → List Assignment) (forest : IsForest cities children rank)
    (answers : (u : String) → db.active_assignments u ≡ returned (assigned u)) (fuel : ℕ)
    (low : (c : String) → rank c < fuel) where
  -- A user may manage a city exactly when an active assignment makes them super admin, or city
  -- admin of that city or of one above it. The databases answer, the hierarchy has no cycle and the
  -- fuel exceeds its height.
  pub can_manage_city_iff :
      (user city : String)
      → (b : Bool) × (can_manage_city cities db fuel user city ≡ returned b)
        × ((b ≡ true) ↔ (
            HoldsRole is_super (assigned user)
            ⊎ ReachesBy children is_city_admin (assigned user) city))
  unfolding can_manage_city
  can_manage_city_iff user city =
      let held = assigned user in
      let (b, r, x) = scope_of_selected cities children forest fuel is_city_admin held city low in
      let asks = get_user_city_assignments_returned db user (answers user) in
      elim (Bool-cases (any is_super held)) [
        | inl e ↦ (true, rw (asks, e), (λ _. inl (any-eq-true is_super held e), λ _. refl))
        | inr e ↦ elim (Bool-cases (any is_city_admin held)) [
          | inl f ↦ (
            b,
            rw (asks, e, f, r),
            (
              λ h. inr (x.0 h),
              elim [ inl (a, m, s) ↦ cc (any_of_In is_super held a m s) | inr h ↦ x.1 h ],
            ),
          )
          | inr f ↦ (
            false,
            rw (asks, e, f),
            (
              λ h. cc,
              elim [
                | inl (a, m, s) ↦ cc (any_of_In is_super held a m s)
                | inr (a, m, s, _) ↦ cc (any_of_In is_city_admin held a m s)
              ],
            ),
          )
        ]
      ]

  -- Viewing: every city is open to a user without a city admin assignment and to a super admin, any
  -- other user sees the cities that they manage. The databases answer, the hierarchy has no cycle
  -- and the fuel exceeds its height.
  pub can_access_city_iff :
      (user city : String)
      → (b : Bool) × (can_access_city cities db fuel user city ≡ returned b)
        × ((b ≡ true) ↔ (
            (HoldsRole is_super (assigned user) ⊎ (any is_city_admin (assigned user) ≡ false))
            ⊎ ReachesBy children is_city_admin (assigned user) city))
  unfolding can_access_city
  can_access_city_iff user city =
      let held = assigned user in
      let (b, r, x) = scope_of_selected cities children forest fuel is_city_admin held city low in
      let asks = get_user_city_assignments_returned db user (answers user) in
      elim (Bool-cases (any is_super held)) [
        | inl e ↦ (true, rw (asks, e), (λ _. inl (inl (any-eq-true is_super held e)), λ _. refl))
        | inr e ↦ elim (Bool-cases (any is_city_admin held)) [
          | inl f ↦ (
            b,
            rw (asks, e, f, r),
            (
              λ h. inr (x.0 h),
              elim [
                | inl k ↦ elim k [ inl (a, m, s) ↦ cc (any_of_In is_super held a m s) | inr q ↦ cc ]
                | inr h ↦ x.1 h
              ],
            ),
          )
          | inr f ↦ (true, rw (asks, e, f), (λ h. inl (inr f), λ _. refl))
        ]
      ]

  managed_of_lem :
      (held : List Assignment)
      → (ds : List String) × (managed_of cities db fuel held ≡ returned ds)
        × ((any is_super held ≡ true) → ds ≡ [])
        × ((any is_super held ≡ false)
            → (d : String) → In d ds ↔ ReachesBy children is_city_admin held d)
  unfolding managed_of
  managed_of_lem [] = ([], refl, λ _. refl, λ _ d. (elim [ ], λ w. w.1))
  managed_of_lem (a ∷ held) = elim (Bool-cases (any is_super (a ∷ held))) [
    | inl e ↦ ([], rw e, λ _. refl, λ f. cc)
    | inr e ↦
        let (ds, r, x) =
          get_all_managed_cities-Covers cities children forest fuel
            (map Assignment.city_id (select is_city_admin (a ∷ held))) (λ c _. low c) in
        let cover = Covers-select children is_city_admin (a ∷ held) in
        (
          ds,
          rw (e, r),
          λ f. cc,
          λ _ d. (λ m. (cover d).0 ((x d).0 m), λ h. (x d).1 ((cover d).1 h)),
        )
  ]

  -- The list of managed cities is empty for a super admin, who manages every city. For any other
  -- user it holds exactly the cities that the city admin assignments reach, so it is empty for a
  -- user who manages none. The databases answer, the hierarchy has no cycle and the fuel exceeds its
  -- height.
  pub get_user_managed_cities_lem :
      (user : String)
      → (ds : List String) × (get_user_managed_cities cities db fuel user ≡ returned ds)
        × ((any is_super (assigned user) ≡ true) → ds ≡ [])
        × ((any is_super (assigned user) ≡ false)
            → (d : String) → In d ds ↔ ReachesBy children is_city_admin (assigned user) d)
  unfolding get_user_managed_cities
  get_user_managed_cities_lem user =
      let (ds, r, x, y) = managed_of_lem (assigned user) in
      (ds, rw (get_user_city_assignments_returned db user (answers user), r), x, y)

-- Where the assignments cannot be read the user counts as one without any: managing a city is
-- refused, viewing it is allowed, and the list of managed cities is empty.
pub fails_as_unassigned :
    (cities : CityDb) (db : CoreDb) (fuel : ℕ) (user city : String) (e : Exception)
    → db.active_assignments user ≡ thrown e
    → (can_manage_city cities db fuel user city ≡ returned false)
      × (can_access_city cities db fuel user city ≡ returned true)
      × (get_user_managed_cities cities db fuel user ≡ returned [])
unfolding can_manage_city can_access_city get_user_managed_cities managed_of
fails_as_unassigned cities db fuel user city e h =
    let asks = get_user_city_assignments_thrown db user h in (rw asks, rw asks, rw asks)
