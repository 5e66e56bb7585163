-- ===== src/Tiles.antt =====
-- apps/core/src/modules/tiles/tiles.service.ts: who may change a tile, and the cities of a tile.
pub mod Access
pub mod Assigned
pub mod Store
pub mod Keys
pub mod Editing
pub mod Pages
mod Tests
use heidi_microservices.Common.{
  ℕ, ◌+◌, ◌==◌, Bool, true, false, not, ◌&&◌, ◌||◌, Option, none, some, List, [], ◌∷◌, ◌++◌, map,
  String, str_eq, any, every, select, includes, truthy, or_else, is_some, if◌then◌else◌,
}
use heidi_microservices.Common.Outcome.{Outcome, returned, thrown, ◌>>=◌, ◌>>◌, throw_if, forbidden}
use heidi_microservices.Rbac.Roles.{UserRole, super_admin, city_admin, role_eq}
use heidi_microservices.Rbac.Cities.{CityDb}
use heidi_microservices.Rbac.Permissions.{CoreDb}
use heidi_microservices.Rbac.UserContext.{get_user_managed_cities}

-- A row of `tile_cities`; an order is taken to be no negative number.
pub record TileCity : Type 0 where
  pub id : String
  pub tile_id : String
  pub city_id : String
  pub is_primary : Bool
  pub display_order : ℕ

pub record TileCityReferenceDto : Type 0 where
  pub id : Option String
  pub city_id : String
  pub is_primary : Option Bool
  pub display_order : Option ℕ

-- `roles.includes(role)`
abbrev pub holds : List UserRole → UserRole → Bool
holds roles role = any (role_eq role) roles

abbrev pub is_admin : List UserRole → Bool
is_admin roles = holds roles super_admin || holds roles city_admin

-- The roles whose requests are checked against the managed cities.
abbrev pub is_restricted : List UserRole → Bool
is_restricted roles = holds roles city_admin && not (holds roles super_admin)

abbrev pub has_access : List String → List String → Bool
has_access managed requested = every (includes managed) requested

-- `if (managedCities.length > 0) { … if (!hasAccess) throw … }`
abbrev pub check_cities : String → List String → List String → Outcome (Unit {0})
check_cities message [] requested = returned tt
check_cities message (m ∷ managed) requested =
    throw_if (not (has_access (m ∷ managed) requested)) (forbidden message)

-- The texts of the refusals.
abbrev pub create_message : String
create_message = "You do not have access to create tiles for one or more specified cities"

abbrev pub update_message : String
update_message = "You do not have access to update this tile"

abbrev pub assign_message : String
assign_message = "You do not have access to assign tiles to one or more specified cities"

abbrev pub delete_message : String
delete_message = "You do not have access to delete this tile"

module _ (cities : CityDb) (db : CoreDb) (fuel : ℕ) where
  -- The check of `createTile` for a city admin, on the cities of the request.
  restrict_create : String → Option (List String) → Outcome (Unit {0})
  restrict_create user none = thrown (forbidden "City admins must specify at least one city")
  restrict_create user (some []) = thrown (forbidden "City admins must specify at least one city")
  restrict_create user (some (c ∷ requested)) =
      get_user_managed_cities cities db fuel user >>= λ managed.
      check_cities create_message managed (c ∷ requested)

  pub create_access : String → List UserRole → Option (List String) → Outcome (Unit {0})
  create_access user roles requested =
      throw_if (not (is_admin roles)) (forbidden "Only admins can create tiles")
      >> (if is_restricted roles then restrict_create user requested else returned tt)

  -- `if (existing.cities.length > 0) { … }`
  abbrev pub check_existing : String → List String → List String → Outcome (Unit {0})
  check_existing message managed [] = returned tt
  check_existing message managed (c ∷ existing) = check_cities message managed (c ∷ existing)

  -- The check of `updateTile`, on the cities of the tile and of the request.
  pub update_access :
      String → List UserRole → List String → Option (List String) → Outcome (Unit {0})
  update_access user roles existing requested =
      throw_if (not (is_admin roles)) (forbidden "Only admins can update tiles")
      >> (if is_restricted roles
          then (get_user_managed_cities cities db fuel user >>= λ managed.
              check_existing update_message managed existing
              >> check_existing assign_message managed (or_else requested []))
          else returned tt)

  pub delete_access : String → List UserRole → List String → Outcome (Unit {0})
  delete_access user roles existing =
      throw_if (not (is_admin roles)) (forbidden "Only admins can delete tiles")
      >> (if is_restricted roles
          then (get_user_managed_cities cities db fuel user >>= λ managed.
              check_existing delete_message managed existing)
          else returned tt)

abbrev pub row_for : String → String → TileCity → Bool
row_for tile city r = str_eq r.tile_id tile && str_eq r.city_id city

-- The `update` and the `create` of the upsert of a city at an index.
abbrev pub updated_city : ℕ → TileCityReferenceDto → TileCity → TileCity
updated_city index ref r = record r {
  is_primary = or_else ref.is_primary (index == 0);
  display_order = or_else ref.display_order index;
}

abbrev pub created_city : (ℕ → String) → String → ℕ → TileCityReferenceDto → TileCity
created_city ids tile index ref = record {
  id = if truthy ref.id then or_else ref.id (ids index) else ids index;
  tile_id = tile;
  city_id = ref.city_id;
  is_primary = or_else ref.is_primary (index == 0);
  display_order = or_else ref.display_order index;
}

abbrev pub upsert_city :
    (ℕ → String) → String → ℕ → TileCityReferenceDto → List TileCity → List TileCity
upsert_city ids tile index ref rows =
    if any (row_for tile ref.city_id) rows
    then map (λ r. if row_for tile ref.city_id r then updated_city index ref r else r) rows
    else rows ++ created_city ids tile index ref ∷ []

-- The upserts, one after another as their order in the request.
upsert_cities :
    (ℕ → String) → String → ℕ → List TileCityReferenceDto → List TileCity → List TileCity
upsert_cities ids tile index [] rows = rows
upsert_cities ids tile index (ref ∷ refs) rows =
    upsert_cities ids tile (index + 1) refs (upsert_city ids tile index ref rows)

-- `deleteMany` of the tile's cities that are not in a list.
abbrev pub stays : String → List String → TileCity → Bool
stays tile city_ids r = not (str_eq r.tile_id tile) || includes city_ids r.city_id

-- `syncTileCities` on the rows of `tile_cities`; `ids` gives the identifiers of new rows.
pub sync_tile_cities :
    (ℕ → String) → String → Option (List TileCityReferenceDto) → List TileCity → List TileCity
sync_tile_cities ids tile none rows = rows
sync_tile_cities ids tile (some []) rows = select (λ r. not (str_eq r.tile_id tile)) rows
sync_tile_cities ids tile (some (ref ∷ refs)) rows =
    upsert_cities ids tile 0 (ref ∷ refs)
      (select (stays tile (map TileCityReferenceDto.city_id (ref ∷ refs))) rows)
