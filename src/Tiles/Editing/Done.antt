-- ===== src/Tiles/Editing/Done.antt =====
-- When `createTile`, `updateTile` and `deleteTile` change the rows, and what is read afterwards.
use heidi_microservices.Common.{
  ℕ, ◌≡◌, refl, inl, inr, Bool, true, false, not, Option, none, some, List, [], ◌∷◌, ◌++◌, String,
  str_eq, eq_iff, select, In, Bool-cases,
}
use heidi_microservices.Common.Outcome.{returned, thrown, not_found, forbidden}
use heidi_microservices.Common.Action.{
  DoneOrKept, bind-DoneOrKept, transaction-DoneOrKept, >>=-Fixes, Action, ◌>>=◌, ◌>>◌, query,
  bind_returned, transaction, throw_when, throw_when_state,
}
use heidi_microservices.Database.{find_row, has_twice}
use heidi_microservices.Slugs.{ensure_unique_slug, slug_if_set}
use heidi_microservices.Slugs.Unique.{ensure_unique_slug-IsFreeFor}
use heidi_microservices.Slugs.Kept.{unused}
use heidi_microservices.Rbac.Roles.{UserRole}
use heidi_microservices.Rbac.Cities.{CityDb}
use heidi_microservices.Rbac.Permissions.{CoreDb}
use heidi_microservices.Tiles.{is_admin}
use heidi_microservices.Tiles.Store.{
  Tile, TileStore, TileResponse, tile_table, has_id, found, map_tile, get_tile_by_id,
  get_tile_by_slug,
}
use heidi_microservices.Tiles.Editing.{
  CreateTileDto, UpdateTileDto, tile_slug, created_tile, with_tile, insert_tile, city_ids,
  write_tile, require_tile, create_tile, update_tile, delete_tile, may_create, may_update,
  may_delete,
}
use heidi_microservices.Tiles.Editing.Rows.{table-IsTable, IsFree}
use heidi_microservices.Tiles.Editing.Consistent.{TileCall, require_tile_lem}

-- A method returned, its check had passed and the rows are as they are to be, or it changed nothing.
abbrev pub Done :
    {A : Type 0}
    → Action TileStore (Unit {0})
    → (A → TileStore → Type 0)
    → Action TileStore A
    → TileStore
    → Type 0
Done check After m s = DoneOrKept (λ a t. ((check s).0 ≡ returned tt) × After a t) s (m s)

find_row-append :
    (p : Tile → Bool) (rows : List Tile) (t : Tile)
    → ((r : Tile) → In r rows → p r ≡ false)
    → p t ≡ true
    → find_row p (rows ++ t ∷ []) ≡ some t
find_row-append p [] t h e = rw e
find_row-append p (r ∷ rows) t h e =
    rw (h r (inl refl)) (find_row-append p rows t (λ q m. h q (inr m)) e)

find_row-select-not :
    (p : Tile → Bool) (rows : List Tile) → find_row p (select (λ t. not (p t)) rows) ≡ none
find_row-select-not p [] = refl
find_row-select-not p (r ∷ rows) = elim (Bool-cases (p r)) [
  | inl e ↦ rw e (find_row-select-not p rows)
  | inr e ↦ rw (e, e, find_row-select-not p rows)
]

found-eq-returned :
    (message other : String) (s : TileStore) (o : Option Tile) (r : TileResponse)
    → found message s o ≡ returned r
    → found other s o ≡ returned r
unfolding found
found-eq-returned message other s none r h = cc
found-eq-returned message other s (some t) r h = h

module _ (cities : CityDb) (db : CoreDb) (fuel : ℕ) where
  -- After a creation the tile is found by its slug, after an update by its identifier, in each case as it
  -- was answered; after a deletion it is not found.
  abbrev pub IsDone : TileCall cities db fuel → TileStore → Type 0
  IsDone (TileCall.create slug_fuel ids id now user roles dto) s =
      Done (may_create cities db fuel user roles dto)
        (λ (r : TileResponse) t. get_tile_by_slug r.tile.slug t ≡ returned r)
        (create_tile cities db fuel slug_fuel ids id now user roles dto) s
  IsDone (TileCall.update slug_fuel ids id now user roles dto) s =
      Done (may_update cities db fuel id user roles dto)
        (λ (r : TileResponse) t. get_tile_by_id id t ≡ returned r)
        (update_tile cities db fuel slug_fuel ids id now user roles dto) s
  IsDone (TileCall.delete id user roles) s =
      Done (may_delete cities db fuel id user roles)
        (λ (r : String) t. get_tile_by_id id t ≡ thrown (not_found "Tile not found"))
        (delete_tile cities db fuel id user roles) s

  read_created :
      (ids : ℕ → String) (dto : CreateTileDto) (t : Tile) (s : TileStore)
      → IsFree none t.slug s
      → get_tile_by_slug t.slug (with_tile ids dto t s)
        ≡ returned (map_tile (with_tile ids dto t s) t)
  unfolding get_tile_by_slug found
  read_created ids dto t s free =
      let other : (r : Tile) → In r s.tiles → str_eq r.slug t.slug ≡ false = λ r m.
        elim (Bool-cases (str_eq r.slug t.slug)) [
          | inl e ↦ absurd (
              unused Tile.slug Tile.id tile_table table-IsTable t.slug s free r m
                ((eq_iff r.slug t.slug).0 e))
          | inr e ↦ e
        ] in
      rw (
        find_row-append (λ r. str_eq r.slug t.slug) s.tiles t other ((eq_iff t.slug t.slug).1 refl))

  create_tile-IsDone :
      (slug_fuel : ℕ) (ids : ℕ → String) (id : String) (now : ℕ) (user : String)
      (roles : List UserRole) (dto : CreateTileDto) (s : TileStore)
      → IsDone (TileCall.create slug_fuel ids id now user roles dto) s
  unfolding create_tile insert_tile
  create_tile-IsDone slug_fuel ids id now user roles dto s =
      bind-DoneOrKept P (access >> slugs) insert s state (λ slug e.
        let (_, k, _, free) = bind_returned access (λ _. slugs) s e in
        rw state (
          inserted slug k (
            ensure_unique_slug-IsFreeFor tile_table table-IsTable Tile.slug Tile.id slug_fuel
              (tile_slug dto.header now) none s slug free)))
    where
      access : Action TileStore (Unit {0})
      access = may_create cities db fuel user roles dto

      slugs : Action TileStore String
      slugs = query (
          ensure_unique_slug tile_table Tile.slug Tile.id slug_fuel (tile_slug dto.header now) none)

      insert : String → Action TileStore TileResponse
      insert slug = insert_tile ids dto (created_tile id user slug now dto)

      P : TileResponse → TileStore → Type 0
      P r t = ((access s).0 ≡ returned tt) × (get_tile_by_slug r.tile.slug t ≡ returned r)

      state : ((access >> slugs) s).1 ≡ s
      state = >>=-Fixes (λ s. s) access (λ _. slugs) (λ s. refl) (λ _ s. refl) s

      inserted :
          (slug : String)
          → (access s).0 ≡ returned tt
          → IsFree none slug s
          → DoneOrKept P s (insert slug s)
      inserted slug k free = elim (Bool-cases (has_twice (city_ids dto.cities))) [
        | inl e ↦ rw e (inr refl)
        | inr e ↦ rw e (
            let t = created_tile id user slug now dto in
            inl (map_tile (with_tile ids dto t s) t, refl, (k, read_created ids dto t s free)))
      ]

  update_tile-IsDone :
      (slug_fuel : ℕ) (ids : ℕ → String) (id : String) (now : ℕ) (user : String)
      (roles : List UserRole) (dto : UpdateTileDto) (s : TileStore)
      → IsDone (TileCall.update slug_fuel ids id now user roles dto) s
  unfolding update_tile write_tile get_tile_by_id
  update_tile-IsDone slug_fuel ids id now user roles dto s =
      bind-DoneOrKept P admin (λ _. transaction body) s (throw_when_state _ _ s)
        (λ _ _.
          rw (throw_when_state (not (is_admin roles)) (forbidden "Only admins can update tiles") s)
            (transaction-DoneOrKept P body s answered))
    where
      admin : Action TileStore (Unit {0})
      admin = throw_when (not (is_admin roles)) (forbidden "Only admins can update tiles")

      access : Action TileStore (Unit {0})
      access = may_update cities db fuel id user roles dto

      slug : Action TileStore (Option String)
      slug = slug_if_set tile_table Tile.slug Tile.id slug_fuel id dto.slug

      body : Action TileStore TileResponse
      body = require_tile id >> access >> slug >>= write_tile ids id user now dto

      P : TileResponse → TileStore → Type 0
      P r t = ((access s).0 ≡ returned tt) × (get_tile_by_id id t ≡ returned r)

      answered : (r : TileResponse) → (body s).0 ≡ returned r → P r (body s).1
      answered r h =
          let (chosen, a, same, b) =
            bind_returned (require_tile id >> access >> slug) (write_tile ids id user now dto) s
              h in
          let (_, c, _, _) = bind_returned (require_tile id >> access) (λ _. slug) s a in
          let (_, _, _, d) = bind_returned (require_tile id) (λ _. access) s c in
          (
            rw (require_tile_lem cities db fuel id s).0 at d,
            rw same (found-eq-returned "Tile not found after update" "Tile not found" _ _ r b),
          )

  delete_tile-IsDone :
      (id user : String) (roles : List UserRole) (s : TileStore)
      → IsDone (TileCall.delete id user roles) s
  unfolding delete_tile get_tile_by_id found
  delete_tile-IsDone id user roles s = bind-DoneOrKept P (checks >> access) _ s state (λ _ e.
      let (_, _, _, k) = bind_returned checks (λ _. access) s e in
      rw state (
        inl (
          "Tile deleted successfully",
          refl,
          (rw (checks_state s) at k, rw (find_row-select-not (has_id id) s.tiles)),
        )))
    where
      admin : Action TileStore (Unit {0})
      admin = throw_when (not (is_admin roles)) (forbidden "Only admins can delete tiles")

      checks : Action TileStore Tile
      checks = admin >> require_tile id

      access : Action TileStore (Unit {0})
      access = may_delete cities db fuel id user roles

      P : String → TileStore → Type 0
      P r t =
          ((access s).0 ≡ returned tt) × (get_tile_by_id id t ≡ thrown (not_found "Tile not found"))

      checks_state : (s : TileStore) → (checks s).1 ≡ s
      checks_state =
          >>=-Fixes (λ s. s) admin (λ _. require_tile id) (λ s. throw_when_state _ _ s)
            (λ _ s. (require_tile_lem cities db fuel id s).0)

      state : ((checks >> access) s).1 ≡ s
      state = >>=-Fixes (λ s. s) checks (λ _. access) checks_state (λ _ s. refl) s

  -- Each of `createTile`, `updateTile` and `deleteTile` either leaves every row as it was, or it returns:
  -- then the check of its user had passed, a created tile is found by its slug, and an updated one by its
  -- identifier, just as it was answered, and a deleted one is not found any more.
  pub call-IsDone : (c : TileCall cities db fuel) (s : TileStore) → IsDone c s
  call-IsDone (TileCall.create slug_fuel ids id now user roles dto) s =
      create_tile-IsDone slug_fuel ids id now user roles dto s
  call-IsDone (TileCall.update slug_fuel ids id now user roles dto) s =
      update_tile-IsDone slug_fuel ids id now user roles dto s
  call-IsDone (TileCall.delete id user roles) s = delete_tile-IsDone id user roles s
