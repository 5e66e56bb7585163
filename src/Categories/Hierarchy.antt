-- ===== src/Categories/Hierarchy.antt =====
-- apps/core/src/modules/categories/categories.service.ts: `buildCategoryHierarchy` and the methods that
-- read categories. The objects of the map refer to their children by identifier, as the arrays of the
-- source do by reference; the tree that is answered follows the references. No chain of parents that
-- ends is longer than the list, whose length is the fuel.
pub mod Equal
pub mod Rooted
use heidi_microservices.Common.{
  ℕ, zero, suc, refl, Bool, true, false, not, ◌&&◌, Option, none, some, List, [], ◌∷◌, ◌++◌, map,
  String, str_eq, any, select, length, or_else, truthy, if◌then◌else◌,
}
use heidi_microservices.Common.Outcome.{Outcome, returned, thrown, not_found, map_returned}
use heidi_microservices.Rbac.Permissions.{Assignment, CoreDb}
use heidi_microservices.Categories.{Category, CityCategory, CategoryStore, find_row, update_rows}

-- A category of the map with its `children`.
pub record Node : Type 0 where
  pub category : Category
  pub children : List String

-- The map, and `rootCategories`.
pub record Built : Type 0 where
  pub nodes : List Node
  pub roots : List String

abbrev pub is_node : String → Node → Bool
is_node id n = str_eq n.category.id id

abbrev pub push : String → Node → Node
push id n = record n { children = n.children ++ id ∷ [] }

abbrev pub add_root : String → Built → Built
add_root id b = record b { roots = b.roots ++ id ∷ [] }

abbrev pub add_child : String → String → Built → Built
add_child parent id b = record b { nodes = update_rows (is_node parent) (push id) b.nodes }

-- The second pass on a category.
abbrev pub place_below : String → String → Option Node → Built → Built
place_below parent id none b = add_root id b
place_below parent id (some n) b = add_child parent id b

abbrev pub place : Category → Built → Built
place c b =
    if truthy c.parent_id
    then place_below (or_else c.parent_id "") c.id
        (find_row (is_node (or_else c.parent_id "")) b.nodes) b
    else add_root c.id b

unfoldable pub place_all : List Category → Built → Built
place_all [] b = b
place_all (c ∷ cs) b = place_all cs (place c b)

abbrev pub new_node : Category → Node
new_node c = record { category = c; children = [] }

abbrev pub build : List Category → Built
build categories = place_all categories (record { nodes = map new_node categories; roots = [] })

-- What is answered; a category without children has no trees below it.
mutual
  pub data Tree : Type 0 where
    tree : Category → Trees → Tree

  pub data Trees : Type 0 where
    end : Trees
    next : Tree → Trees → Trees

abbrev add_found : Option Tree → Trees → Trees
add_found none ts = ts
add_found (some t) ts = Trees.next t ts

-- The trees that a list leads to.
unfoldable pub trees_of : {A : Type 0} → (A → Option Tree) → List A → Trees
trees_of f [] = Trees.end
trees_of f (a ∷ others) = add_found (f a) (trees_of f others)

abbrev tree_found : (String → Option Tree) → Option Node → Option Tree
tree_found below none = none
tree_found below (some n) = some (Tree.tree n.category (trees_of below n.children))

-- The tree at an identifier.
unfoldable pub tree_at : ℕ → List Node → String → Option Tree
tree_at zero nodes id = none
tree_at (suc fuel) nodes id = tree_found (tree_at fuel nodes) (find_row (is_node id) nodes)

unfoldable pub build_category_hierarchy : List Category → Trees
build_category_hierarchy categories =
    let b = build categories in trees_of (tree_at (length categories) b.nodes) b.roots

-- The categories of trees, each before those below it.
unfoldable mutual
  pub members : Tree → List Category
  members (Tree.tree c ts) = c ∷ all_members ts

  pub all_members : Trees → List Category
  all_members Trees.end = []
  all_members (Trees.next t ts) = members t ++ all_members ts

-- The database's orders: of categories by type and name, of the rows of a town by `displayOrder` and
-- `addedAt`, of children by name.
module _ (by_type_and_name by_name : List Category → List Category)
    (by_display_order : List CityCategory → List CityCategory) where
  pub list_categories : CategoryStore → Trees
  list_categories s = build_category_hierarchy (by_type_and_name s.categories)

  -- `include: { category: true }`
  categories_of : CategoryStore → List CityCategory → List Category
  categories_of s [] = []
  categories_of s (r ∷ rows) =
      let rest = categories_of s rows in
      elim (find_row (λ c. str_eq c.id r.category_id) s.categories) [
        | none ↦ rest
        | some c ↦ c ∷ rest
      ]

  pub list_city_categories : String → CategoryStore → Trees
  list_city_categories city s = build_category_hierarchy (
      categories_of s
        (by_display_order (select (λ r. str_eq r.city_id city && r.is_active) s.city_categories)))

  abbrev has_parent : String → Category → Bool
  has_parent id c = elim c.parent_id [ none ↦ false | some parent ↦ str_eq parent id ]

  -- The category with its children, which the answer leaves out if there are none.
  pub get_category_by_id : String → CategoryStore → Outcome (Category × List Category)
  get_category_by_id id s = elim (find_row (λ c. str_eq c.id id) s.categories) [
    | none ↦ thrown (not_found "CATEGORY_NOT_FOUND")
    | some c ↦ returned (c, by_name (select (has_parent id) s.categories))
  ]

-- `findFirst` of an active assignment of the user to the city.
pub city_admin_has_access : CoreDb → String → String → Outcome Bool
city_admin_has_access db user city =
    map_returned (any (λ (a : Assignment). str_eq a.city_id city)) (db.active_assignments user)
