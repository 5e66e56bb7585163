-- ===== src/Rbac/Cities/Ancestors.antt =====
-- The path from a city up to its root, and the set that joins it with the cities below.
use heidi_microservices.Common.{
  ℕ, zero, suc, ◌<◌, ◌≤◌, ◌≡◌, ◌≢◌, refl, sym, ◌∙◌, ◌↔◌, ◌⊎◌, inl, inr, Option, none, some, List,
  [], ◌∷◌, ◌++◌, map, String, arith, str_eq, eq_iff, Bool-cases, Option-cases, In, In-set_add_all,
  set_add_all, ap,
}
use mathlib.Core.List.{append_assoc, append-nil, reverse, reverse-cons}
use heidi_microservices.Common.Outcome.{returned}
use heidi_microservices.Rbac.Cities.{
  City, CityDb, ascend, climb, get_city_path, get_hierarchical_cities,
}
use heidi_microservices.Rbac.Cities.Descendants.{IsForest, Below, get_child_cities-Below}

-- The database answers every look-up of a city, and no city is above itself: `depth` falls from a
-- city to its parent.
pub record IsRooted (db : CityDb) (find : String → Option City) (depth : String → ℕ) : Type 0 where
  pub answers : (i : String) → db.find_city i ≡ returned (find i)
  pub lower :
      (i p : String) (c : City) → find i ≡ some c → c.parent_city_id ≡ some p → depth p < depth i

-- A city and the cities above it, from the city upwards.
pub data Lineage (find : String → Option City) : Option String → List City → Type 0 where
  at_root : Lineage find none []
  at_empty : {i : String} → i ≡ "" → Lineage find (some i) []
  at_unknown : {i : String} → i ≢ "" → find i ≡ none → Lineage find (some i) []
  up :
      {i : String} {c : City} {chain : List City}
      → i ≢ ""
      → find i ≡ some c
      → Lineage find c.parent_city_id chain
      → Lineage find (some i) (c ∷ chain)

abbrev level : (String → ℕ) → Option String → ℕ
level depth none = 0
level depth (some i) = suc (depth i)

-- The three insertions of `getHierarchicalCities` into its set.
In-joined :
    (i : String) (ps bs : List String) (P : String → Type 0)
    → ((d : String) → In d bs ↔ P d)
    → (d : String)
    → In d (set_add_all (set_add_all (set_add_all [] (i ∷ [])) ps) bs) ↔ ((d ≡ i) ⊎ (In d ps ⊎ P d))
In-joined i ps bs P x d =
    let s0 : List String = set_add_all [] (i ∷ []) in
    let s1 : List String = set_add_all s0 ps in
    (
      λ m. elim ((In-set_add_all s1 bs d).0 m) [
        | inr b ↦ inr (inr ((x d).0 b))
        | inl n ↦ elim ((In-set_add_all s0 ps d).0 n) [
          | inr p ↦ inr (inl p)
          | inl q ↦ elim ((In-set_add_all [] (i ∷ []) d).0 q) [
            | inl e ↦ absurd e
            | inr o ↦ elim o [ inl e ↦ inl e | inr e ↦ absurd e ]
          ]
        ]
      ],
      elim [
        | inl e ↦ (In-set_add_all s1 bs d).1 (
            inl ((In-set_add_all s0 ps d).1 (inl ((In-set_add_all [] (i ∷ []) d).1 (inr (inl e))))))
        | inr h ↦ elim h [
          | inl p ↦ (In-set_add_all s1 bs d).1 (inl ((In-set_add_all s0 ps d).1 (inr p)))
          | inr b ↦ (In-set_add_all s1 bs d).1 (inr ((x d).1 b))
        ]
      ],
    )

module _ (db : CityDb) (find : String → Option City) {depth : String → ℕ}
    (rooted : IsRooted db find depth) where
  level-parent : (i : String) (c : City) → find i ≡ some c → level depth c.parent_city_id ≤ depth i
  level-parent i c e = elim (Option-cases c.parent_city_id) [
    | inl n ↦ rw n (omega arith)
    | inr (p, q) ↦ rw q (let l = rooted.lower i p c e q in omega arith)
  ]

  climb-Lineage :
      (fuel : ℕ) (at : Option String) (path : List City)
      → level depth at < fuel
      → (chain : List City) × (climb db fuel at path ≡ returned (reverse chain ++ path))
        × Lineage find at chain
  unfolding climb ascend
  climb-Lineage zero at path h = absurd (omega arith)
  climb-Lineage (suc fuel) none path h = ([], refl, at_root)
  climb-Lineage (suc fuel) (some i) path h = elim (Bool-cases (str_eq i "")) [
    | inl e ↦ ([], rw e, at_empty ((eq_iff i "").0 e))
    | inr e ↦
        let named : i ≢ "" = ground (arith, eq_iff i "") in
        elim (Option-cases (find i)) [
          | inl n ↦ ([], rw (e, rooted.answers i, n), at_unknown named n)
          | inr (c, f) ↦
              let (chain, r, l) =
                climb-Lineage fuel c.parent_city_id (c ∷ path)
                  (omega (arith, level-parent i c f)) in
              (
                c ∷ chain,
                rw (e, rooted.answers i, f) (r ∙ sym (simp (reverse-cons, append_assoc))),
                up named f l,
              )
        ]
  ]

  -- The path of a city is the chain of its ancestors, root first, when the database answers, no
  -- city is above itself and the fuel exceeds the city's depth by more than one.
  pub get_city_path-Lineage :
      (fuel : ℕ) (i : String)
      → suc (depth i) < fuel
      → (chain : List City) × (get_city_path db fuel i ≡ returned (reverse chain))
        × Lineage find (some i) chain
  unfolding get_city_path
  get_city_path-Lineage fuel i h =
      let (chain, r, l) = climb-Lineage fuel (some i) [] h in
      (chain, rw r (ap returned (append-nil _)), l)

  -- What a citizen sees for a city: that city, its ancestors and the cities below it, and nothing
  -- else, when the database answers, the hierarchy has no cycle and the fuel is enough.
  pub get_hierarchical_cities_lem :
      (children : String → List String) (rank : String → ℕ)
      → IsForest db children rank
      → (fuel : ℕ) (i : String) → suc (depth i) < fuel
      → rank i < fuel
      → (ds : List String) × (chain : List City) × (get_hierarchical_cities db fuel i ≡ returned ds)
        × Lineage find (some i) chain
        × ((d : String)
            → In d ds ↔ ((d ≡ i) ⊎ (In d (map City.id (reverse chain)) ⊎ Below children i d)))
  unfolding get_hierarchical_cities
  get_hierarchical_cities_lem children rank forest fuel i h k =
      let (chain, r, l) = get_city_path-Lineage fuel i h in
      let (bs, q, x) = get_child_cities-Below db children forest fuel i k in
      (
        set_add_all (set_add_all (set_add_all [] (i ∷ [])) (map City.id (reverse chain))) bs,
        chain,
        rw (r, q),
        l,
        In-joined i (map City.id (reverse chain)) bs (Below children i) x,
      )
