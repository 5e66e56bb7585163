-- ===== src/Tiles/Pages.antt =====
-- apps/core/src/modules/tiles/tiles.service.ts: `buildTileWhere`, as the test that the database makes of
-- a tile, and `listTiles`.
pub mod Joined
use heidi_microservices.Common.{
  ℕ, refl, ◌≡◌, Bool, true, false, ◌&&◌, ◌||◌, Option, none, some, List, [], ◌∷◌, map, String,
  truthy, or_else, includes, any, select, length, if◌then◌else◌,
}
use heidi_microservices.Slugs.{strip, space}
use heidi_microservices.Paging.{positive_or, page_size, pages_of, page_rows, sort_field}
use heidi_microservices.Paging.Conditions.{flag_eq, asked, asked_any, in_range, asked_range}
use heidi_microservices.Tiles.{TileCity}
use heidi_microservices.Tiles.Store.{Tile, TileStore, TileResponse, cities_of, map_tile}

pub record TileFilter : Type 0 where
  pub search : Option String
  pub city_ids : Option (List String)
  pub is_active : Option Bool
  pub publish_after : Option ℕ
  pub publish_before : Option ℕ
  pub expire_after : Option ℕ
  pub expire_before : Option ℕ
  pub page : Option ℕ
  pub page_size : Option ℕ
  pub sort_by : Option String
  pub sort_direction : Option String

-- The request for the page of a number.
abbrev pub on_page : TileFilter → ℕ → TileFilter
on_page filter n = record filter { page = some n }

abbrev pub sort_fields : List String
sort_fields = "createdAt" ∷ "updatedAt" ∷ "publishAt" ∷ "displayOrder" ∷ []

pub record TilePage : Type 0 where
  pub items : List TileResponse
  pub page : ℕ
  pub page_size : ℕ
  pub total : ℕ
  pub total_pages : ℕ

-- The database's `contains` in the mode `insensitive`.
module _ (contains : String → String → Bool) where
  abbrev pub found_in : String → Tile → Bool
  found_in term t =
      contains term t.header
      || (elim t.subheader [ none ↦ false | some text ↦ contains term text ]
          || elim t.description [ none ↦ false | some text ↦ contains term text ])

  -- A search that is blank selects every tile.
  abbrev pub matches_search : Option String → Tile → Bool
  matches_search search t =
      let term = strip space (or_else search "") in
      if truthy search && truthy (some term) then found_in term t else true

  abbrev pub in_cities : TileStore → Tile → List String → Bool
  in_cities s t ids = any (λ c. includes ids c.city_id) (cities_of t.id s)

  unfoldable pub build_tile_where : TileFilter → TileStore → Tile → Bool
  build_tile_where f s t =
      matches_search f.search t
      && (asked_any f.city_ids (in_cities s t)
          && (asked f.is_active (flag_eq t.is_active)
              && (asked_range f.publish_after f.publish_before
                    (λ after before. in_range after before t.publish_at)
                  && asked_range f.expire_after f.expire_before
                      (λ after before. in_range after before t.expire_at))))

  -- The order that the database puts rows in for one query with `orderBy` a field and a direction. Rows with
  -- the same value may come in another order in the next query.
  module _ (order_by : String → String → List Tile → List Tile) where
    -- The tiles that the filter selects, in the order asked.
    abbrev pub sorted : TileFilter → TileStore → List Tile
    sorted filter s =
        order_by (sort_field sort_fields "displayOrder" filter.sort_by)
          (or_else filter.sort_direction "asc") (select (build_tile_where filter s) s.tiles)

    pub list_tiles : TileFilter → TileStore → TilePage
    list_tiles filter s =
        let total = length (select (build_tile_where filter s) s.tiles) in
        record {
          items = map (map_tile s) (page_rows filter.page filter.page_size (sorted filter s));
          page = positive_or 1 filter.page;
          page_size = page_size filter.page_size;
          total = total;
          total_pages = pages_of total (page_size filter.page_size);
        }
