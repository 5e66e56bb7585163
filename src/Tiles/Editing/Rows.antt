-- ===== src/Tiles/Editing/Rows.antt =====
-- The rows of tiles after each write of `createTile`, `updateTile` and `deleteTile`.
use heidi_microservices.Common.{
  ℕ, ◌≡◌, ◌≢◌, refl, sym, ◌∙◌, inl, inr, false, not, Option, none, List, [], ◌∷◌, String, str_eq,
  eq_iff, or_else, In, In-append, In-map, In-select, Bool-cases, either, if◌then◌else◌,
}
use heidi_microservices.Database.{IsTable, update_rows, has_twice}
use heidi_microservices.Database.Memory.{memory-IsTable}
use heidi_microservices.Slugs.Kept
use heidi_microservices.Slugs.Kept.{
  AreUnique, append-AreUnique, kept-AreUnique, unused, update_rows-AreUnique, slug_if_set_lem,
}
use heidi_microservices.Tiles.{TileCity, sync_tile_cities}
use heidi_microservices.Tiles.Assigned.{sync_tile_cities-other}
use heidi_microservices.Tiles.Store.{Tile, TileStore, tile_table, has_id}
use heidi_microservices.Tiles.Editing.{
  CreateTileDto, UpdateTileDto, new_cities, with_tile, city_ids, patched_tile, rewritten,
  without_tile,
}
use heidi_microservices.Tiles.Keys.{
  HasKeys, select-HasKeys, append-HasKeys, sync_tile_cities-HasKeys, new_cities_lem,
  new_cities-HasKeys,
}

pub table-IsTable : IsTable tile_table
table-IsTable =
    memory-IsTable TileStore.tiles (λ rows s. record s { tiles = rows }) (λ rows s. refl)

abbrev pub IsFree : Option String → String → TileStore → Type 0
IsFree = Kept.IsFree Tile.slug Tile.id tile_table table-IsTable

abbrev pub Chosen : String → Option String → TileStore → Type 0
Chosen = Kept.Chosen Tile.slug Tile.id tile_table table-IsTable

abbrev pub IsTileOf : TileStore → String → Type 0
IsTileOf s id = (t : Tile) × In t s.tiles × (t.id ≡ id)

-- No two tiles have one slug, no tile has a city twice, and a city's tile exists.
pub record IsConsistent (s : TileStore) : Type 0 where
  pub slugs : AreUnique Tile.slug Tile.id s.tiles
  pub keys : HasKeys s.tile_cities
  pub owners : (r : TileCity) → In r s.tile_cities → IsTileOf s r.tile_id

-- The writes.
pub with_tile-IsConsistent :
    (ids : ℕ → String) (dto : CreateTileDto) (t : Tile) (s : TileStore)
    → ¬ IsTileOf s t.id
    → IsFree none t.slug s
    → has_twice (city_ids dto.cities) ≡ false
    → IsConsistent s
    → IsConsistent (with_tile ids dto t s)
with_tile-IsConsistent ids dto t s new free once h = record {
  slugs =
      append-AreUnique Tile.slug Tile.id s.tiles t h.slugs
        (unused Tile.slug Tile.id tile_table table-IsTable t.slug s free);
  keys =
      append-HasKeys s.tile_cities rows h.keys
        (new_cities-HasKeys ids t.id 0 (or_else dto.cities []) once)
        (λ r q i j same.
          let (a, _) = new_cities_lem ids t.id 0 (or_else dto.cities []) q j in
          absurd (new (rw (← a, ← same) (h.owners r i))));
  owners = λ r m. elim ((In-append r s.tile_cities rows).0 m) [
    | inl i ↦
        let (owner, j, e) = h.owners r i in (owner, (In-append owner s.tiles (t ∷ [])).1 (inl j), e)
    | inr i ↦
        let (a, _) = new_cities_lem ids t.id 0 (or_else dto.cities []) r i in
        (t, (In-append t s.tiles (t ∷ [])).1 (inr (inl refl)), sym a)
  ];
}
  where
    rows : List TileCity
    rows = new_cities ids t.id 0 (or_else dto.cities [])

-- An updated tile keeps its place.
still_there :
    (id : String) (f : Tile → Tile) (s : TileStore) (other : String)
    → ((t : Tile) → (f t).id ≡ t.id)
    → IsTileOf s other
    → (t : Tile) × In t (update_rows (has_id id) f s.tiles) × (t.id ≡ other)
still_there id f s other same (t, m, e) =
    let change : Tile → Tile = λ q. if has_id id q then f q else q in
    let kept : (change t).id ≡ t.id =
      either (λ (q : Tile). q.id ≡ t.id) (has_id id t) (λ _. same t) (λ _. refl) in
    (change t, (In-map change s.tiles (change t)).1 (t, m, refl), kept ∙ e)

pub rewritten-IsConsistent :
    (ids : ℕ → String) (id user : String) (now : ℕ) (dto : UpdateTileDto) (slug : Option String)
    (s : TileStore)
    → IsTileOf s id
    → Chosen id slug s
    → IsConsistent s
    → IsConsistent (rewritten ids id user now dto slug s)
rewritten-IsConsistent ids id user now dto slug s there chosen h = record {
  slugs =
      update_rows-AreUnique Tile.slug Tile.id tile_table table-IsTable id slug
        (patched_tile user now slug dto) s h.slugs chosen (λ t. refl) (λ t. refl);
  keys = sync_tile_cities-HasKeys ids id dto.cities s.tile_cities h.keys;
  owners =
      λ r m. still_there id (patched_tile user now slug dto) s r.tile_id (λ t. refl) (owner r m);
}
  where
    owner :
        (r : TileCity)
        → In r (sync_tile_cities ids id dto.cities s.tile_cities)
        → IsTileOf s r.tile_id
    owner r m = elim (Bool-cases (str_eq r.tile_id id)) [
      | inl e ↦ rw ((eq_iff r.tile_id id).0 e) there
      | inr e ↦
          let other : r.tile_id ≢ id = λ q. let z = (eq_iff r.tile_id id).1 q in cc in
          h.owners r ((sync_tile_cities-other ids id dto.cities s.tile_cities r other).0 m)
    ]

pub without_tile-IsConsistent :
    (id : String) (s : TileStore) → IsConsistent s → IsConsistent (without_tile id s)
without_tile-IsConsistent id s h = record {
  slugs =
      kept-AreUnique Tile.slug Tile.id s.tiles (without_tile id s).tiles h.slugs
        (λ t m. (t, ((In-select (λ t. not (has_id id t)) s.tiles t).0 m).0, refl, refl));
  keys = select-HasKeys _ s.tile_cities h.keys;
  owners = λ r m.
      let (i, apart) = (In-select (λ r. not (str_eq r.tile_id id)) s.tile_cities r).0 m in
      let (t, j, e) = h.owners r i in
      (t, (In-select (λ t. not (has_id id t)) s.tiles t).1 (j, rw e apart), e);
}
