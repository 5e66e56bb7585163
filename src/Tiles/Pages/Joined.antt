-- ===== src/Tiles/Pages/Joined.antt =====
-- apps/core/src/modules/tiles/tiles.service.ts: the bounds of a page of `listTiles`, and what all the
-- pages hold together.
use heidi_microservices.Common.{
  ℕ, Bool, Option, some, str_eq, if◌then◌else◌, List, map, String, select, or_else,
}
use heidi_microservices.Paging.{sort_field}
use heidi_microservices.Paging.Ordered.{earlier}
use heidi_microservices.Tiles.Store.{Tile, TileStore, TileResponse}
use heidi_microservices.Tiles.Pages.{TileFilter, sort_fields, TilePage, build_tile_where}

-- The tiles of a page.
abbrev pub tiles_of : TilePage → List Tile
tiles_of p = map TileResponse.tile p.items

-- The value of one of the columns that tiles can be sorted by.
abbrev pub column : String → Tile → Option ℕ
column by t =
    if str_eq by "createdAt"
    then some t.created_at
    else if str_eq by "updatedAt"
    then some t.updated_at
    else if str_eq by "publishAt"
    then t.publish_at
    else some t.display_order

-- The tiles that the filter selects.
abbrev pub selected : (String → String → Bool) → TileFilter → TileStore → List Tile
selected contains filter s = select (build_tile_where contains filter s) s.tiles

-- A tile stands before another in the order that the filter asks for.
abbrev pub asked_order : TileFilter → Tile → Tile → Bool
asked_order filter =
    earlier (column (sort_field sort_fields "displayOrder" filter.sort_by))
      (or_else filter.sort_direction "asc")
