-- ===== src/Categories/Hierarchy/Equal.antt =====
-- apps/core/src/modules/categories/categories.service.ts: `buildCategoryHierarchy`, which pushes each
-- category onto its parent in a second pass, against trees that select the children of each.
use heidi_microservices.Common.{
  ℕ, zero, suc, ◌≡◌, refl, sym, ap, ◌∙◌, inl, inr, Bool, true, false, not, ◌&&◌, Option, none, some,
  List, [], ◌∷◌, ◌++◌, map, String, arith, str_eq, eq_iff, any, select, length, or_else, truthy, In,
  In-select, Bool-cases, if◌then◌else◌,
}
use mathlib.Core.List.{append-nil, append_assoc}
use heidi_microservices.Categories.{Category, find_row}
use heidi_microservices.Categories.Hierarchy.{
  Node, Built, is_node, push, place, place_all, build, Tree, Trees, trees_of, tree_at,
  build_category_hierarchy,
}

-- The category has the parent.
abbrev pub is_below : String → Category → Bool
is_below parent c = truthy c.parent_id && str_eq parent (or_else c.parent_id "")

abbrev pub is_listed : List Category → String → Bool
is_listed categories id = any (λ c. str_eq c.id id) categories

-- The category has no parent in the list.
abbrev pub is_top : List Category → Category → Bool
is_top categories c = not (truthy c.parent_id && is_listed categories (or_else c.parent_id ""))

-- The reference: the tree of a category has the trees of the categories that name it, in their order.
unfoldable pub tree_of : ℕ → List Category → Category → Option Tree
tree_of zero categories c = none
tree_of (suc fuel) categories c =
    some (Tree.tree c (trees_of (tree_of fuel categories) (select (is_below c.id) categories)))

abbrev pub forest : ℕ → List Category → Trees
forest fuel categories = trees_of (tree_of fuel categories) (select (is_top categories) categories)

-- Two categories of the list with one identifier are the same.
abbrev pub AreKeys : List Category → Type 0
AreKeys categories = (c q : Category) → In c categories → In q categories → c.id ≡ q.id → c ≡ q

find_row-map :
    {A B : Type 0} (p : B → Bool) (f : A → B) (xs : List A)
    → find_row p (map f xs)
      ≡ elim (find_row (λ a. p (f a)) xs) [ none ↦ none | some a ↦ some (f a) ]
find_row-map p f [] = refl
find_row-map p f (x ∷ xs) = elim (Bool-cases (p (f x))) [
  | inl e ↦ rw e
  | inr e ↦ rw e (find_row-map p f xs)
]

map_same :
    {A B : Type 0} (f g : A → B) (xs : List A)
    → ((a : A) → In a xs → f a ≡ g a)
    → map f xs ≡ map g xs
map_same f g [] h = refl
map_same f g (x ∷ xs) h = rw (h x (inl refl), map_same f g xs (λ a m. h a (inr m)))

map-map_lem :
    {A B C : Type 0} (f : B → C) (g : A → B) (xs : List A)
    → map f (map g xs) ≡ map (λ a. f (g a)) xs
map-map_lem f g [] = refl
map-map_lem f g (x ∷ xs) = rw (map-map_lem f g xs)

-- The map and the roots after the second pass on some of the categories.
module _ (categories : List Category) where
  abbrev node_after : List Category → Category → Node
  node_after placed c = record {
    category = c;
    children = map Category.id (select (is_below c.id) placed);
  }

  abbrev after : List Category → Built
  after placed = record {
    nodes = map (node_after placed) categories;
    roots = map Category.id (select (is_top categories) placed);
  }

  find_listed :
      (id : String) (rows : List Category)
      → (is_listed rows id ≡ false → find_row (λ c. str_eq c.id id) rows ≡ none)
        × (is_listed rows id ≡ true
            → (q : Category) × (find_row (λ c. str_eq c.id id) rows ≡ some q))
  find_listed id [] = (λ h. refl, λ h. cc)
  find_listed id (c ∷ rows) =
      let (a, b) = find_listed id rows in
      elim (Bool-cases (str_eq c.id id)) [
        | inl e ↦ rw e (λ h. cc, λ h. (c, refl))
        | inr e ↦ rw e (λ h. a h, λ h. b h)
      ]

  unlisted :
      (id : String) (rows : List Category)
      → is_listed rows id ≡ false
      → (q : Category) → In q rows
      → str_eq q.id id ≡ false
  unlisted id [] h q m = absurd m
  unlisted id (c ∷ rows) h q (inl e) = rw e (ground (arith, h))
  unlisted id (c ∷ rows) h q (inr m) = unlisted id rows (ground (arith, h)) q m

  -- One more category that is placed.
  select_last :
      (p : Category → Bool) (placed : List Category) (c : Category)
      → map Category.id (select p (placed ++ c ∷ [])) ≡ (
          if p c
          then map Category.id (select p placed) ++ c.id ∷ []
          else map Category.id (select p placed))
  select_last p [] c = elim (Bool-cases (p c)) [ inl e ↦ rw e | inr e ↦ rw e ]
  select_last p (d ∷ placed) c = elim (Bool-cases (p d)) [
    | inl e ↦
        rw (e, select_last p placed c) (elim (Bool-cases (p c)) [ inl k ↦ rw k | inr k ↦ rw k ])
    | inr e ↦ rw (e, select_last p placed c)
  ]

  node_last :
      (placed : List Category) (c q : Category) (b : Bool)
      → is_below q.id c ≡ b
      → (if b then push c.id (node_after placed q) else node_after placed q)
        ≡ node_after (placed ++ c ∷ []) q
  node_last placed c q true e = rw (select_last (is_below q.id) placed c, e)
  node_last placed c q false e = rw (select_last (is_below q.id) placed c, e)

  roots_last :
      (placed : List Category) (c : Category) (b : Bool)
      → is_top categories c ≡ b
      → (if b then (after placed).roots ++ c.id ∷ [] else (after placed).roots)
        ≡ (after (placed ++ c ∷ [])).roots
  roots_last placed c true e = rw (select_last (is_top categories) placed c, e)
  roots_last placed c false e = rw (select_last (is_top categories) placed c, e)

  same_built : (b d : Built) → b.nodes ≡ d.nodes → b.roots ≡ d.roots → b ≡ d
  same_built b d e f =
      ap (λ nodes. record { nodes = nodes; roots = b.roots }) e
      ∙ ap (λ roots. record { nodes = d.nodes; roots = roots }) f

  place_lem :
      (placed : List Category) (c : Category) → place c (after placed) ≡ after (placed ++ c ∷ [])
  place_lem placed c = by_parent (truthy c.parent_id) (is_listed categories parent) refl refl
    where
      parent : String
      parent = or_else c.parent_id ""

      stays :
          ((q : Category) → In q categories → is_below q.id c ≡ false)
          → (after placed).nodes ≡ (after (placed ++ c ∷ [])).nodes
      stays h =
          map_same (node_after placed) (node_after (placed ++ c ∷ [])) categories
            (λ q m. node_last placed c q false (h q m))

      by_parent :
          (t l : Bool)
          → truthy c.parent_id ≡ t
          → is_listed categories parent ≡ l
          → place c (after placed) ≡ after (placed ++ c ∷ [])
      by_parent false l t h =
          rw t (same_built _ _ (stays (λ q m. rw t)) (roots_last placed c true (rw t)))
      by_parent true false t h =
          rw
            (
              t,
              find_row-map (is_node parent) (node_after placed) categories,
              (find_listed parent categories).0 h,
            )
            (same_built _ _ (stays (λ q m. rw (t, unlisted parent categories h q m)))
              (roots_last placed c true (rw (t, h))))
      by_parent true true t h =
          let (found, e) = (find_listed parent categories).1 h in
          rw (t, find_row-map (is_node parent) (node_after placed) categories, e)
            (same_built _ _
              (map-map_lem _ (node_after placed) categories
                ∙ map_same _ (node_after (placed ++ c ∷ [])) categories
                    (λ q m. node_last placed c q (str_eq q.id parent) (rw t)))
              (roots_last placed c false (rw (t, h))))

  place_all_lem :
      (placed rest : List Category) → place_all rest (after placed) ≡ after (placed ++ rest)
  unfolding place_all
  place_all_lem placed [] = rw (append-nil placed)
  place_all_lem placed (c ∷ rest) =
      rw (place_lem placed c, ← append_assoc placed (c ∷ []) rest)
        (place_all_lem (placed ++ c ∷ []) rest)

  build_lem : build categories ≡ after categories
  build_lem = place_all_lem [] categories

module _ (categories : List Category) (keys : AreKeys categories) where
  find_listed_row :
      (rows : List Category)
      → ((c : Category) → In c rows → In c categories)
      → (c : Category) → In c rows
      → find_row (λ q. str_eq q.id c.id) rows ≡ some c
  find_listed_row [] sub c m = absurd m
  find_listed_row (q ∷ rows) sub c m = elim (Bool-cases (str_eq q.id c.id)) [
    | inl e ↦ rw e (ap some (keys q c (sub q (inl refl)) (sub c m) ((eq_iff q.id c.id).0 e)))
    | inr e ↦ rw e (elim m [
      | inl same ↦ let z = (eq_iff q.id c.id).1 (ap Category.id (sym same)) in cc
      | inr n ↦ find_listed_row rows (λ d k. sub d (inr k)) c n
    ])
  ]

  trees_of_same :
      (f : String → Option Tree) (g : Category → Option Tree) (rows : List Category)
      → ((c : Category) → In c rows → f c.id ≡ g c)
      → trees_of f (map Category.id rows) ≡ trees_of g rows
  unfolding trees_of
  trees_of_same f g [] h = refl
  trees_of_same f g (c ∷ rows) h = rw (h c (inl refl), trees_of_same f g rows (λ q m. h q (inr m)))

  tree_at_lem :
      (fuel : ℕ) (c : Category)
      → In c categories
      → tree_at fuel (after categories categories).nodes c.id ≡ tree_of fuel categories c
  unfolding tree_at tree_of
  tree_at_lem zero c m = refl
  tree_at_lem (suc fuel) c m = rw (
    find_row-map (is_node c.id) (node_after categories categories) categories,
    find_listed_row categories (λ q k. k) c m,
    trees_of_same (tree_at fuel (after categories categories).nodes) (tree_of fuel categories)
        (select (is_below c.id) categories)
        (λ q k. tree_at_lem fuel q ((In-select (is_below c.id) categories q).0 k).0),
  )

  -- If no two categories have one identifier, `buildCategoryHierarchy` answers the trees that have, below
  -- each category, the trees of the categories of the list that name it as parent, in the order of the list,
  -- and whose roots are the categories without a parent in the list.
  pub build_category_hierarchy-eq :
      build_category_hierarchy categories ≡ forest (length categories) categories
  unfolding build_category_hierarchy
  build_category_hierarchy-eq = rw (build_lem categories) (
      trees_of_same (tree_at (length categories) (after categories categories).nodes)
        (tree_of (length categories) categories) (select (is_top categories) categories)
        (λ c m.
          tree_at_lem (length categories) c ((In-select (is_top categories) categories c).0 m).0))
