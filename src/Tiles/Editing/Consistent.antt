-- ===== src/Tiles/Editing/Consistent.antt =====
-- What `createTile`, `updateTile` and `deleteTile` keep true of the rows, however they end.
use heidi_microservices.Common.{
  ℕ, ◌≡◌, refl, ap, inl, inr, not, Option, none, some, List, String, eq_iff, Bool-cases,
}
use heidi_microservices.Common.Outcome.{
  Outcome, returned, thrown, not_found, forbidden, returned-inj,
}
use heidi_microservices.Common.Action.{
  Action, ◌>>=◌, ◌>>◌, query, Keeps, >>=-Fixes, bind_state, bind_returned, transaction-Keeps,
  throw_when, throw_when_state, transaction,
}
use heidi_microservices.Database.{find_row, find_row-eq-some, has_twice}
use heidi_microservices.Slugs.{ensure_unique_slug, slug_if_set}
use heidi_microservices.Slugs.Unique.{ensure_unique_slug-IsFreeFor}
use heidi_microservices.Slugs.Kept.{slug_if_set_lem}
use heidi_microservices.Rbac.Roles.{UserRole}
use heidi_microservices.Rbac.Cities.{CityDb}
use heidi_microservices.Rbac.Permissions.{CoreDb}
use heidi_microservices.Tiles.{is_admin}
use heidi_microservices.Tiles.Store.{Tile, TileStore, tile_table, has_id}
use heidi_microservices.Tiles.Editing.{
  CreateTileDto, UpdateTileDto, tile_slug, created_tile, insert_tile, city_ids, write_tile,
  require_tile, create_tile, update_tile, delete_tile, may_create, may_update, may_delete,
}
use heidi_microservices.Tiles.Editing.Rows.{
  table-IsTable, IsFree, IsTileOf, IsConsistent, with_tile-IsConsistent, rewritten-IsConsistent,
  without_tile-IsConsistent,
}

module _ (cities : CityDb) (db : CoreDb) (fuel : ℕ) where
  -- A new tile has an identifier that no tile has.
  create_tile-IsConsistent :
      (slug_fuel : ℕ) (ids : ℕ → String) (id : String) (now : ℕ) (user : String)
      (roles : List UserRole) (dto : CreateTileDto) (s : TileStore)
      → ¬ IsTileOf s id
      → IsConsistent s
      → IsConsistent (create_tile cities db fuel slug_fuel ids id now user roles dto s).1
  unfolding create_tile insert_tile
  create_tile-IsConsistent slug_fuel ids id now user roles dto s new h =
      let slugs = query {S = TileStore} (
        ensure_unique_slug tile_table Tile.slug Tile.id slug_fuel (tile_slug dto.header now)
          none) in
      let access = may_create cities db fuel user roles dto in
      let same : ((access >> slugs) s).1 ≡ s =
        >>=-Fixes (λ s. s) access (λ _. slugs) (λ s. refl) (λ _ s. refl) s in
      bind_state IsConsistent (access >> slugs)
        (λ slug. insert_tile ids dto (created_tile id user slug now dto)) s (rw same h)
        (λ slug e.
          let (_, _, _, k) = bind_returned access (λ _. slugs) s e in
          rw same (
            inserted slug (
              ensure_unique_slug-IsFreeFor tile_table table-IsTable Tile.slug Tile.id slug_fuel
                (tile_slug dto.header now) none s slug k)))
    where
      inserted :
          (slug : String)
          → IsFree none slug s
          → IsConsistent (insert_tile ids dto (created_tile id user slug now dto) s).1
      inserted slug free =
          let t = created_tile id user slug now dto in
          elim (Bool-cases (has_twice (city_ids dto.cities))) [
            | inl e ↦ rw e h
            | inr e ↦ rw e (with_tile-IsConsistent ids dto t s new free e h)
          ]

  pub require_tile_lem :
      (id : String) (s : TileStore)
      → ((require_tile id s).1 ≡ s)
        × ((t : Tile) → (require_tile id s).0 ≡ returned t → find_row (has_id id) s.tiles ≡ some t)
  unfolding require_tile
  require_tile_lem id s = go (find_row (has_id id) s.tiles)
    where
      go :
          (o : Option Tile)
          → let r : Outcome Tile × TileStore = elim o [
            | none ↦ (thrown (not_found "Tile not found"), s)
            | some t ↦ (returned t, s)
          ] in
            (r.1 ≡ s) × ((t : Tile) → r.0 ≡ returned t → o ≡ some t)
      go none = (refl, λ t h. cc)
      go (some q) = (refl, λ t h. ap some (returned-inj h))

  update_tile-IsConsistent :
      (slug_fuel : ℕ) (ids : ℕ → String) (id : String) (now : ℕ) (user : String)
      (roles : List UserRole) (dto : UpdateTileDto)
      → Keeps IsConsistent (update_tile cities db fuel slug_fuel ids id now user roles dto)
  unfolding update_tile write_tile
  update_tile-IsConsistent slug_fuel ids id now user roles dto s h =
      bind_state IsConsistent (throw_when _ _)
        (λ _. transaction (before >>= write_tile ids id user now dto)) s
        (rw (throw_when_state (not (is_admin roles)) (forbidden "Only admins can update tiles") s)
          h)
        (λ _ _.
          rw (throw_when_state (not (is_admin roles)) (forbidden "Only admins can update tiles") s)
            (transaction-Keeps IsConsistent (before >>= write_tile ids id user now dto) body s h))
    where
      first : Action TileStore (Unit {0})
      first = require_tile id >> may_update cities db fuel id user roles dto

      slug : Action TileStore (Option String)
      slug = slug_if_set tile_table Tile.slug Tile.id slug_fuel id dto.slug

      before : Action TileStore (Option String)
      before = first >> slug

      first_state : (s : TileStore) → (first s).1 ≡ s
      first_state =
          >>=-Fixes (λ s. s) (require_tile id) (λ _. may_update cities db fuel id user roles dto)
            (λ s. (require_tile_lem id s).0) (λ _ s. refl)

      before_state : (s : TileStore) → (before s).1 ≡ s
      before_state =
          >>=-Fixes (λ s. s) first (λ _. slug) first_state
            (λ _ s.
              (slug_if_set_lem Tile.slug Tile.id tile_table table-IsTable slug_fuel id dto.slug
                s).0)

      body : Keeps IsConsistent (before >>= write_tile ids id user now dto)
      body s h =
          bind_state IsConsistent before (write_tile ids id user now dto) s (rw (before_state s) h)
            (λ chosen e.
              let (_, k, _, free) = bind_returned first (λ _. slug) s e in
              let (t, k1, _, _) =
                bind_returned (require_tile id) (λ _. may_update cities db fuel id user roles dto) s
                  k in
              let (m, same) =
                find_row-eq-some (has_id id) s.tiles t ((require_tile_lem id s).1 t k1) in
              rw (before_state s) (
                rewritten-IsConsistent ids id user now dto chosen s (t, m, (eq_iff t.id id).0 same)
                  ((slug_if_set_lem Tile.slug Tile.id tile_table table-IsTable slug_fuel id dto.slug
                      s).1
                    chosen (rw (first_state s) at free))
                  h))

  delete_tile-IsConsistent :
      (id user : String) (roles : List UserRole)
      → Keeps IsConsistent (delete_tile cities db fuel id user roles)
  unfolding delete_tile
  delete_tile-IsConsistent id user roles s h =
      bind_state IsConsistent checks _ s (rw (checks_state s) h)
        (λ _ _. rw (checks_state s) (without_tile-IsConsistent id s h))
    where
      admin : Action TileStore (Unit {0})
      admin = throw_when (not (is_admin roles)) (forbidden "Only admins can delete tiles")

      checks : Action TileStore (Unit {0})
      checks = admin >> require_tile id >> may_delete cities db fuel id user roles

      checks_state : (s : TileStore) → (checks s).1 ≡ s
      checks_state =
          >>=-Fixes (λ s. s) (admin >> require_tile id)
            (λ _. may_delete cities db fuel id user roles)
            (>>=-Fixes (λ s. s) admin (λ _. require_tile id) (λ s. throw_when_state _ _ s)
              (λ _ s. (require_tile_lem id s).0))
            (λ _ s. refl)

  -- A call of one of the methods that write tiles.
  pub data TileCall : Type 0 where
    create : ℕ → (ℕ → String) → String → ℕ → String → List UserRole → CreateTileDto → TileCall
    update : ℕ → (ℕ → String) → String → ℕ → String → List UserRole → UpdateTileDto → TileCall
    delete : String → String → List UserRole → TileCall

  -- The store after it, whatever it answers.
  pub after : TileCall → TileStore → TileStore
  after (TileCall.create slug_fuel ids id now user roles dto) s =
      (create_tile cities db fuel slug_fuel ids id now user roles dto s).1
  after (TileCall.update slug_fuel ids id now user roles dto) s =
      (update_tile cities db fuel slug_fuel ids id now user roles dto s).1
  after (TileCall.delete id user roles) s = (delete_tile cities db fuel id user roles s).1

  -- The identifier of a new tile is no tile's.
  abbrev pub IsFresh : TileCall → TileStore → Type 0
  IsFresh (TileCall.create slug_fuel ids id now user roles dto) s = ¬ IsTileOf s id
  IsFresh (TileCall.update slug_fuel ids id now user roles dto) s = Unit {0}
  IsFresh (TileCall.delete id user roles) s = Unit {0}

  pub data Calls : TileStore → TileStore → Type 0 where
    stop : {s : TileStore} → Calls s s
    step : {s t : TileStore} (c : TileCall) → IsFresh c s → Calls (after c s) t → Calls s t

  after-IsConsistent :
      (c : TileCall) (s : TileStore) → IsFresh c s → IsConsistent s → IsConsistent (after c s)
  unfolding after
  after-IsConsistent (TileCall.create slug_fuel ids id now user roles dto) s new h =
      create_tile-IsConsistent slug_fuel ids id now user roles dto s new h
  after-IsConsistent (TileCall.update slug_fuel ids id now user roles dto) s new h =
      update_tile-IsConsistent slug_fuel ids id now user roles dto s h
  after-IsConsistent (TileCall.delete id user roles) s new h =
      delete_tile-IsConsistent id user roles s h

  -- Whatever tiles are created, changed and deleted, with whatever answers, no two tiles have one slug, no
  -- tile has a city twice and every row of a city belongs to a tile that exists, if that held before and
  -- each new identifier was no tile's.
  pub Calls-IsConsistent : {s t : TileStore} → Calls s t → IsConsistent s → IsConsistent t
  Calls-IsConsistent stop h = h
  Calls-IsConsistent {s} (step c new rest) h =
      Calls-IsConsistent rest (after-IsConsistent c s new h)
