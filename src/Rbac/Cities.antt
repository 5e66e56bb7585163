-- ===== src/Rbac/Cities.antt =====
-- libs/rbac/src/city-hierarchy.service.ts. The queries on the city table are the parameter `CityDb`.
pub mod Descendants
pub mod Ancestors
use heidi_microservices.Common.{
  ℕ, zero, suc, Bool, true, false, Option, none, some, List, [], ◌∷◌, ◌++◌, map, String, includes,
  set_add, set_add_all, truthy, if◌then◌else◌,
}
use heidi_microservices.Common.Outcome.{Outcome, returned, unfinished, ◌>>=◌, catch_with}

pub record City : Type 0 where
  pub id : String
  pub name : String
  pub parent_city_id : Option String

-- The two queries, each of which may throw.
pub record CityDb : Type 0 where
  -- `city.findMany({ where: { parentCityId, isActive: true }, select: { id: true } })`
  pub active_children : String → Outcome (List String)
  -- `city.findUnique({ where: { id } })`
  pub find_city : String → Outcome (Option City)

module _ (db : CityDb) where
  -- The `for` loop of `getChildren`, on the array so far; `go` is the recursive call.
  visit :
      (String → List String → Outcome (List String))
      → Bool
      → List String
      → List String
      → Outcome (List String)
  visit go recursive [] found = returned found
  visit go recursive (child ∷ children) found =
      (if recursive then go child (found ++ child ∷ []) else returned (found ++ child ∷ []))
      >>= visit go recursive children

  -- `getChildren`, with fuel for the depth of its calls.
  get_children : ℕ → Bool → String → List String → Outcome (List String)
  get_children zero recursive parent found = unfinished
  get_children (suc fuel) recursive parent found = db.active_children parent >>= λ children.
      visit (get_children fuel recursive) recursive children found

  pub get_child_cities : ℕ → Bool → String → Outcome (List String)
  get_child_cities fuel recursive city_id = catch_with [] (get_children fuel recursive city_id [])

  -- The loop of `getAllManagedCities` over the assigned cities.
  collect : ℕ → List String → List String → Outcome (List String)
  collect fuel managed [] = returned managed
  collect fuel managed (city_id ∷ rest) = get_child_cities fuel true city_id >>= λ children.
      collect fuel (set_add_all managed children) rest

  pub get_all_managed_cities : ℕ → List String → Outcome (List String)
  get_all_managed_cities fuel city_ids =
      catch_with city_ids (collect fuel (set_add_all [] city_ids) city_ids)

  -- One round of the loop of `getCityPath`: `path.unshift` and on to the parent, or `break`.
  ascend :
      (Option String → List City → Outcome (List City))
      → List City
      → Option City
      → Outcome (List City)
  ascend go path none = returned path
  ascend go path (some city) = go city.parent_city_id (city ∷ path)

  -- The `while (currentCityId)` loop, on the path so far, with fuel for its rounds.
  climb : ℕ → Option String → List City → Outcome (List City)
  climb zero current path = unfinished
  climb (suc fuel) none path = returned path
  climb (suc fuel) (some current) path =
      if truthy (some current)
      then (db.find_city current >>= ascend (climb fuel) path)
      else returned path

  pub get_city_path : ℕ → String → Outcome (List City)
  get_city_path fuel city_id = catch_with [] (climb fuel (some city_id) [])

  pub get_hierarchical_cities : ℕ → String → Outcome (List String)
  get_hierarchical_cities fuel city_id = catch_with (city_id ∷ []) (do
    path ← get_city_path fuel city_id
    children ← get_child_cities fuel true city_id
    returned
        (set_add_all (set_add_all (set_add_all [] (city_id ∷ [])) (map City.id path)) children))

pub is_city_in_scope : String → List String → Bool
is_city_in_scope city_id managed = includes managed city_id
