-- ===== src/Rbac/Cities/Descendants.antt =====
-- What the recursive walk over the city table collects.
use heidi_microservices.Common.{
  ℕ, zero, suc, ◌<◌, ◌≡◌, refl, ◌∙◌, ◌↔◌, ◌⊎◌, inl, inr, Bool, true, List, [], ◌∷◌, ◌++◌, String,
  arith, includes, In, In-append, In-of_includes, includes_of_In, In-set_add_all, set_add_all,
}
use mathlib.Core.List.{append_assoc, append-nil}
use heidi_microservices.Common.Outcome.{Outcome, returned, ◌>>=◌}
use heidi_microservices.Rbac.Cities.{
  CityDb, visit, get_children, get_child_cities, collect, get_all_managed_cities, is_city_in_scope,
}

-- The database answers every query for active children, and no city is below itself: `rank` falls
-- from a city to its children.
pub record IsForest (db : CityDb) (children : String → List String) (rank : String → ℕ)
    : Type 0 where
  pub answers : (p : String) → db.active_children p ≡ returned (children p)
  pub lower : (p c : String) → In c (children p) → rank c < rank p

-- `Below children p d`: the city `d` is a child of `p`, or below one.
pub data Below (children : String → List String) : String → String → Type 0 where
  child : {p d : String} → In d (children p) → Below children p d
  deeper : {p c d : String} → In c (children p) → Below children c d → Below children p d

-- `d` is one of the listed cities, or below one.
abbrev pub Covers : (String → List String) → List String → String → Type 0
Covers children cs d = (c : String) × In c cs × ((d ≡ c) ⊎ Below children c d)

module _ (children : String → List String) where
  Covers-cons :
      (c : String) (cs : List String) (d : String)
      → (((d ≡ c) ⊎ Below children c d) ⊎ Covers children cs d) ↔ Covers children (c ∷ cs) d
  Covers-cons c cs d = (
    elim [ inl h ↦ (c, inl refl, h) | inr (e, m, h) ↦ (e, inr m, h) ],
    λ (e, m, h). elim m [ inl q ↦ inl (subst_city e c q h) | inr n ↦ inr (e, n, h) ],
  )
    where
      subst_city :
          (e c : String) → e ≡ c → (d ≡ e) ⊎ Below children e d → (d ≡ c) ⊎ Below children c d
      subst_city e c q h = rw q at h

  Below-iff-Covers : (p d : String) → Below children p d ↔ Covers children (children p) d
  Below-iff-Covers p d = (to, λ (c, m, h). elim h [ inl e ↦ child (rw e m) | inr b ↦ deeper m b ])
    where
      to : Below children p d → Covers children (children p) d
      to (child m) = (d, m, inl refl)
      to (deeper {c} m b) = (c, m, inr b)

  In-Covers :
      (c : String) (cs xs ys : List String) (d : String)
      → In d xs ↔ Below children c d
      → In d ys ↔ Covers children cs d
      → In d (c ∷ xs ++ ys) ↔ Covers children (c ∷ cs) d
  In-Covers c cs xs ys d here there = (
    λ m. (Covers-cons c cs d).0 (elim m [
      | inl e ↦ inl (inl e)
      | inr n ↦ elim ((In-append d xs ys).0 n) [
        | inl l ↦ inl (inr (here.0 l))
        | inr r ↦ inr (there.0 r)
      ]
    ]),
    λ h. elim ((Covers-cons c cs d).1 h) [
      | inl k ↦ elim k [ inl e ↦ inl e | inr b ↦ inr ((In-append d xs ys).1 (inl (here.1 b))) ]
      | inr k ↦ inr ((In-append d xs ys).1 (inr (there.1 k)))
    ],
  )

-- A computation on the array of found cities that returns it with exactly the cities `P` added.
record Adds (m : Outcome (List String)) (found : List String) (P : String → Type 0) : Type 0 where
  added : List String
  returns : m ≡ returned (found ++ added)
  exact : (d : String) → In d added ↔ P d

module _ (db : CityDb) (children : String → List String) where
  visit-Adds :
      (go : String → List String → Outcome (List String)) (cs : List String)
      → ((c : String) (found : List String) → In c cs → Adds (go c found) found (Below children c))
      → (found : List String) → Adds (visit db go true cs found) found (Covers children cs)
  unfolding visit
  visit-Adds go [] each found = record {
    added = [];
    returns = rw (append-nil found);
    exact = λ d. (elim [ ], λ (c, m, h). m);
  }
  visit-Adds go (c ∷ cs) each found =
      let here = each c (found ++ c ∷ []) (inl refl) in
      let there = visit-Adds go cs (λ e f m. each e f (inr m)) ((found ++ c ∷ []) ++ here.added) in
      record {
        added = c ∷ here.added ++ there.added;
        returns = rw here.returns (there.returns ∙ (simp (append_assoc)));
        exact =
            λ d. In-Covers children c cs here.added there.added d (here.exact d) (there.exact d);
      }

  module _ {rank : String → ℕ} (forest : IsForest db children rank) where
    get_children-Adds :
        (fuel : ℕ) (p : String) (found : List String)
        → rank p < fuel
        → Adds (get_children db fuel true p found) found (Below children p)
    unfolding get_children
    get_children-Adds zero p found h = absurd (omega arith)
    get_children-Adds (suc fuel) p found h =
        let kids =
          visit-Adds (get_children db fuel true) (children p)
            (λ c f m. get_children-Adds fuel c f (let l = forest.lower p c m in omega arith))
            found in
        record {
          added = kids.added;
          returns = rw (forest.answers p) kids.returns;
          exact = λ d. (
            λ m. (Below-iff-Covers children p d).1 ((kids.exact d).0 m),
            λ b. (kids.exact d).1 ((Below-iff-Covers children p d).0 b),
          );
        }

    -- With more fuel than the city's height, the recursive search returns a list of exactly the
    -- cities below the given one.
    pub get_child_cities-Below :
        (fuel : ℕ) (p : String)
        → rank p < fuel
        → (ds : List String) × (get_child_cities db fuel true p ≡ returned ds)
          × ((d : String) → In d ds ↔ Below children p d)
    unfolding get_child_cities
    get_child_cities-Below fuel p h =
        let walk = get_children-Adds fuel p [] h in (walk.added, rw walk.returns, walk.exact)

    collected_to :
        (c : String) (cs managed ds : List String) (d : String)
        → (In d ds → Below children c d)
        → In d (set_add_all managed ds) ⊎ ((e : String) × In e cs × Below children e d)
        → In d managed ⊎ ((e : String) × In e (c ∷ cs) × Below children e d)
    collected_to c cs managed ds d below (inl m) = elim ((In-set_add_all managed ds d).0 m) [
      | inl n ↦ inl n
      | inr n ↦ inr (c, inl refl, below n)
    ]
    collected_to c cs managed ds d below (inr (e, m, b)) = inr (e, inr m, b)

    collected_from :
        (c : String) (cs managed ds : List String) (d : String)
        → (Below children c d → In d ds)
        → In d managed ⊎ ((e : String) × In e (c ∷ cs) × Below children e d)
        → In d (set_add_all managed ds) ⊎ ((e : String) × In e cs × Below children e d)
    collected_from c cs managed ds d below (inl m) = inl ((In-set_add_all managed ds d).1 (inl m))
    collected_from c cs managed ds d below (inr (e, inl q, b)) =
        inl ((In-set_add_all managed ds d).1 (inr (below (rw q at b))))
    collected_from c cs managed ds d below (inr (e, inr m, b)) = inr (e, m, b)

    collect_lem :
        (fuel : ℕ) (managed cs : List String)
        → ((c : String) → In c cs → rank c < fuel)
        → (ds : List String) × (collect db fuel managed cs ≡ returned ds)
          × ((d : String)
              → In d ds ↔ (In d managed ⊎ ((c : String) × In c cs × Below children c d)))
    unfolding collect
    collect_lem fuel managed [] low =
        (managed, refl, λ d. (inl, elim [ inl m ↦ m | inr (c, m, b) ↦ absurd m ]))
    collect_lem fuel managed (c ∷ cs) low =
        let (ds, r, x) = get_child_cities-Below fuel c (low c (inl refl)) in
        let (es, q, y) = collect_lem fuel (set_add_all managed ds) cs (λ e m. low e (inr m)) in
        (
          es,
          rw r q,
          λ d. (
            λ m. collected_to c cs managed ds d (x d).0 ((y d).0 m),
            λ h. (y d).1 (collected_from c cs managed ds d (x d).1 h),
          ),
        )

    -- The assigned cities and everything below them, and nothing else: the cities that a user
    -- manages, when the database answers, the hierarchy has no cycle and the fuel exceeds the
    -- height of each assigned city.
    pub get_all_managed_cities-Covers :
        (fuel : ℕ) (cs : List String)
        → ((c : String) → In c cs → rank c < fuel)
        → (ds : List String) × (get_all_managed_cities db fuel cs ≡ returned ds)
          × ((d : String) → In d ds ↔ Covers children cs d)
    unfolding get_all_managed_cities
    get_all_managed_cities-Covers fuel cs low =
        let (ds, r, x) = collect_lem fuel (set_add_all [] cs) cs low in
        (
          ds,
          rw r,
          λ d. (
            λ m. elim ((x d).0 m) [
              | inl n ↦ elim ((In-set_add_all [] cs d).0 n) [
                | inl e ↦ absurd e
                | inr n ↦ (d, n, inl refl)
              ]
              | inr (c, n, b) ↦ (c, n, inr b)
            ],
            λ (c, n, h). (x d).1 (elim h [
              | inl e ↦ inl ((In-set_add_all [] cs d).1 (inr (rw e n)))
              | inr b ↦ inr (c, n, b)
            ]),
          ),
        )

    -- Scope: a city is in the scope of the managed cities exactly when it is assigned or below an
    -- assigned city.
    pub is_city_in_scope-managed :
        (fuel : ℕ) (cs : List String) (d : String)
        → ((c : String) → In c cs → rank c < fuel)
        → (in_scope : Bool) × ((get_all_managed_cities db fuel cs >>= λ ds.
              returned (is_city_in_scope d ds))
            ≡ returned in_scope)
          × ((in_scope ≡ true) ↔ Covers children cs d)
    unfolding is_city_in_scope
    is_city_in_scope-managed fuel cs d low =
        let (ds, r, x) = get_all_managed_cities-Covers fuel cs low in
        (
          includes ds d,
          rw r,
          (λ h. (x d).0 (In-of_includes ds d h), λ c. includes_of_In ds d ((x d).1 c)),
        )
