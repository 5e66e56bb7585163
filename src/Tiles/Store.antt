-- ===== src/Tiles/Store.antt =====
-- apps/core/src/modules/tiles/tiles.service.ts: the rows, what is answered of them, `getTileById` and
-- `getTileBySlug`. A table is the list of its rows. Dates are milliseconds since the epoch.
use heidi_microservices.Common.{
  ℕ, refl, Bool, Option, none, some, List, map, String, str_eq, select,
}
use heidi_microservices.Common.Outcome.{Outcome, returned, thrown, not_found}
use heidi_microservices.Database.{Table, find_row}
use heidi_microservices.Database.Memory.{memory}
use heidi_microservices.Tiles.{TileCity}

pub record Tile : Type 0 where
  pub id : String
  pub slug : String
  pub background_image_url : Option String
  pub icon_image_url : Option String
  pub header_background_color : Option String
  pub header : String
  pub subheader : Option String
  pub description : Option String
  pub content_background_color : Option String
  pub website_url : Option String
  pub open_in_external_browser : Bool
  pub display_order : ℕ
  pub is_active : Bool
  pub publish_at : Option ℕ
  pub expire_at : Option ℕ
  pub created_by_user_id : Option String
  pub last_edited_by_user_id : Option String
  pub created_at : ℕ
  pub updated_at : ℕ

pub record TileStore : Type 0 where
  pub tiles : List Tile
  pub tile_cities : List TileCity

-- The table of tiles, as the part of the store that it is.
abbrev pub tile_table : Table TileStore Tile
tile_table = memory TileStore.tiles (λ rows s. record s { tiles = rows }) (λ rows s. refl)

pub record TileCityDto : Type 0 where
  pub id : String
  pub city_id : String
  pub is_primary : Bool
  pub display_order : ℕ

-- The answer has the columns of the tile as they are.
pub record TileResponse : Type 0 where
  pub tile : Tile
  pub cities : List TileCityDto

abbrev pub city_dto : TileCity → TileCityDto
city_dto city = record {
  id = city.id;
  city_id = city.city_id;
  is_primary = city.is_primary;
  display_order = city.display_order;
}

-- `include: { cities: true }`
abbrev pub cities_of : String → TileStore → List TileCity
cities_of id s = select (λ r. str_eq r.tile_id id) s.tile_cities

-- `mapTile` of a row with its cities.
abbrev pub map_tile : TileStore → Tile → TileResponse
map_tile s t = record { tile = t; cities = map city_dto (cities_of t.id s) }

abbrev pub has_id : String → Tile → Bool
has_id id t = str_eq t.id id

unfoldable pub found : String → TileStore → Option Tile → Outcome TileResponse
found message s none = thrown (not_found message)
found message s (some t) = returned (map_tile s t)

unfoldable pub get_tile_by_id : String → TileStore → Outcome TileResponse
get_tile_by_id id s = found "Tile not found" s (find_row (has_id id) s.tiles)

unfoldable pub get_tile_by_slug : String → TileStore → Outcome TileResponse
get_tile_by_slug slug s = found "Tile not found" s (find_row (λ t. str_eq t.slug slug) s.tiles)
