-- ===== src/Tiles/Editing.antt =====
-- apps/core/src/modules/tiles/tiles.service.ts: `createTile`, `updateTile` and `deleteTile`. The files
-- of a tile's images are left out. `ids` gives the identifiers of new rows of `tile_cities`.
pub mod Rows
pub mod Consistent
pub mod Done
use heidi_microservices.Common.{
  set_or_keep, ℕ, ◌+◌, ◌==◌, Bool, true, false, not, Option, none, some, List, [], ◌∷◌, ◌++◌, map,
  String, str_eq, text_append, select, or_else, truthy, if◌then◌else◌,
}
use heidi_microservices.Common.Decimals.{decimal}
use heidi_microservices.Common.Outcome.{Outcome, returned, thrown, failure, not_found, forbidden}
use heidi_microservices.Common.Action.{Action, ◌>>=◌, ◌>>◌, query, throw_when, transaction}
use heidi_microservices.Database.{find_row, update_rows, has_twice}
use heidi_microservices.Slugs.{slugify, ensure_unique_slug, slug_if_set}
use heidi_microservices.Rbac.Roles.{UserRole}
use heidi_microservices.Rbac.Cities.{CityDb}
use heidi_microservices.Rbac.Permissions.{CoreDb}
use heidi_microservices.Tiles.{
  TileCity, TileCityReferenceDto, is_admin, create_access, update_access, delete_access,
  sync_tile_cities,
}
use heidi_microservices.Tiles.Store.{
  Tile, TileStore, TileResponse, tile_table, cities_of, map_tile, has_id, found,
}

pub record CreateTileCityReferenceDto : Type 0 where
  pub city_id : String
  pub is_primary : Option Bool
  pub display_order : Option ℕ

pub record CreateTileDto : Type 0 where
  pub header_background_color : Option String
  pub header : String
  pub subheader : Option String
  pub description : Option String
  pub content_background_color : Option String
  pub website_url : Option String
  pub open_in_external_browser : Option Bool
  pub display_order : Option ℕ
  pub is_active : Option Bool
  pub cities : Option (List CreateTileCityReferenceDto)

-- A field that is absent is `none`; a date that is empty is `none` in it.
pub record UpdateTileDto : Type 0 where
  pub slug : Option String
  pub header_background_color : Option String
  pub header : Option String
  pub subheader : Option String
  pub description : Option String
  pub content_background_color : Option String
  pub website_url : Option String
  pub open_in_external_browser : Option Bool
  pub display_order : Option ℕ
  pub is_active : Option Bool
  pub publish_at : Option (Option ℕ)
  pub expire_at : Option (Option ℕ)
  pub cities : Option (List TileCityReferenceDto)

-- `this.slugify(dto.header) || this.slugify(...)`
abbrev pub tile_slug : String → ℕ → String
tile_slug header now =
    if truthy (some (slugify header))
    then slugify header
    else slugify (text_append "tile-" (decimal now))

abbrev pub created_tile : String → String → String → ℕ → CreateTileDto → Tile
created_tile id user slug now dto = record {
  id = id;
  slug = slug;
  background_image_url = none;
  icon_image_url = none;
  header_background_color = dto.header_background_color;
  header = dto.header;
  subheader = dto.subheader;
  description = dto.description;
  content_background_color = dto.content_background_color;
  website_url = dto.website_url;
  open_in_external_browser = or_else dto.open_in_external_browser false;
  display_order = or_else dto.display_order 0;
  is_active = or_else dto.is_active true;
  publish_at = none;
  expire_at = none;
  created_by_user_id = some user;
  last_edited_by_user_id = some user;
  created_at = now;
  updated_at = now;
}

-- The rows that are created with the tile.
unfoldable pub new_cities :
    (ℕ → String) → String → ℕ → List CreateTileCityReferenceDto → List TileCity
new_cities ids tile index [] = []
new_cities ids tile index (city ∷ cities) =
    (record {
      id = ids index;
      tile_id = tile;
      city_id = city.city_id;
      is_primary = or_else city.is_primary (index == 0);
      display_order = or_else city.display_order index;
    })
    ∷ new_cities ids tile (index + 1) cities

abbrev pub city_ids : Option (List CreateTileCityReferenceDto) → List String
city_ids cities = map CreateTileCityReferenceDto.city_id (or_else cities [])

-- The store with a new tile and its cities.
abbrev pub with_tile : (ℕ → String) → CreateTileDto → Tile → TileStore → TileStore
with_tile ids dto t s = record {
  tiles = s.tiles ++ t ∷ [];
  tile_cities = s.tile_cities ++ new_cities ids t.id 0 (or_else dto.cities []);
}

-- A city that is named twice violates the unique key, and nothing is created.
unfoldable pub insert_tile : (ℕ → String) → CreateTileDto → Tile → Action TileStore TileResponse
insert_tile ids dto t s =
    if has_twice (city_ids dto.cities)
    then (thrown (failure "P2002"), s)
    else (returned (map_tile (with_tile ids dto t s) t), with_tile ids dto t s)

-- What an update sets of the row.
abbrev pub patched_tile : String → ℕ → Option String → UpdateTileDto → Tile → Tile
patched_tile user now slug dto t = record {
  id = t.id;
  slug = or_else slug t.slug;
  background_image_url = t.background_image_url;
  icon_image_url = t.icon_image_url;
  header_background_color = set_or_keep dto.header_background_color t.header_background_color;
  header = or_else dto.header t.header;
  subheader = set_or_keep dto.subheader t.subheader;
  description = set_or_keep dto.description t.description;
  content_background_color = set_or_keep dto.content_background_color t.content_background_color;
  website_url = set_or_keep dto.website_url t.website_url;
  open_in_external_browser = or_else dto.open_in_external_browser t.open_in_external_browser;
  display_order = or_else dto.display_order t.display_order;
  is_active = or_else dto.is_active t.is_active;
  publish_at = or_else dto.publish_at t.publish_at;
  expire_at = or_else dto.expire_at t.expire_at;
  created_by_user_id = t.created_by_user_id;
  last_edited_by_user_id = some user;
  created_at = t.created_at;
  updated_at = now;
}

-- The store after the update of the tile and the sync of its cities.
abbrev pub rewritten :
    (ℕ → String) → String → String → ℕ → UpdateTileDto → Option String → TileStore → TileStore
rewritten ids id user now dto slug s = record {
  tiles = update_rows (has_id id) (patched_tile user now slug dto) s.tiles;
  tile_cities = sync_tile_cities ids id dto.cities s.tile_cities;
}

-- The writes, and the row that is read again.
unfoldable pub write_tile :
    (ℕ → String)
    → String
    → String
    → ℕ
    → UpdateTileDto
    → Option String
    → Action TileStore TileResponse
write_tile ids id user now dto slug s =
    let t = rewritten ids id user now dto slug s in
    (found "Tile not found after update" t (find_row (has_id id) t.tiles), t)

-- `onDelete: Cascade` removes the cities of the tile.
abbrev pub without_tile : String → TileStore → TileStore
without_tile id s = record {
  tiles = select (λ t. not (has_id id t)) s.tiles;
  tile_cities = select (λ r. not (str_eq r.tile_id id)) s.tile_cities;
}

-- `findUnique` of a tile, which must be there.
unfoldable pub require_tile : String → Action TileStore Tile
require_tile id s = elim (find_row (has_id id) s.tiles) [
  | none ↦ (thrown (not_found "Tile not found"), s)
  | some t ↦ (returned t, s)
]

module _ (cities : CityDb) (db : CoreDb) (fuel : ℕ) where
  abbrev pub may_create : String → List UserRole → CreateTileDto → Action TileStore (Unit {0})
  may_create user roles dto = query (λ s. create_access cities db fuel user roles (elim dto.cities [
    | none ↦ none
    | some refs ↦ some (map CreateTileCityReferenceDto.city_id refs)
  ]))

  pub create_tile :
      ℕ
      → (ℕ → String)
      → String
      → ℕ
      → String
      → List UserRole
      → CreateTileDto
      → Action TileStore TileResponse
  create_tile slug_fuel ids id now user roles dto =
      may_create user roles dto
      >> query (
          ensure_unique_slug tile_table Tile.slug Tile.id slug_fuel (tile_slug dto.header now) none)
      >>= λ slug. insert_tile ids dto (created_tile id user slug now dto)

  -- `update_access` and `delete_access` begin with the check that has passed before.
  abbrev pub may_update :
      String → String → List UserRole → UpdateTileDto → Action TileStore (Unit {0})
  may_update id user roles dto = query (λ s.
      update_access cities db fuel user roles (map TileCity.city_id (cities_of id s))
        (elim dto.cities [
          | none ↦ none
          | some refs ↦ some (map TileCityReferenceDto.city_id refs)
        ]))

  pub update_tile :
      ℕ
      → (ℕ → String)
      → String
      → ℕ
      → String
      → List UserRole
      → UpdateTileDto
      → Action TileStore TileResponse
  update_tile slug_fuel ids id now user roles dto =
      throw_when (not (is_admin roles)) (forbidden "Only admins can update tiles")
      >> transaction (
          require_tile id
          >> may_update id user roles dto
          >> slug_if_set tile_table Tile.slug Tile.id slug_fuel id dto.slug
          >>= write_tile ids id user now dto)

  abbrev pub may_delete : String → String → List UserRole → Action TileStore (Unit {0})
  may_delete id user roles =
      query (λ s. delete_access cities db fuel user roles (map TileCity.city_id (cities_of id s)))

  pub delete_tile : String → String → List UserRole → Action TileStore String
  delete_tile id user roles =
      throw_when (not (is_admin roles)) (forbidden "Only admins can delete tiles")
      >> require_tile id
      >> may_delete id user roles
      >> λ s. (returned "Tile deleted successfully", without_tile id s)
