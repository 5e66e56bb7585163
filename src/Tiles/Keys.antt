-- ===== src/Tiles/Keys.antt =====
-- The unique key of `tile_cities`: a tile has a city once.
use heidi_microservices.Common.{
  ℕ, ◌+◌, ◌≡◌, ◌≢◌, refl, sym, ◌∙◌, ap, inl, inr, Bool, true, false, Option, none, some, List, [],
  ◌∷◌, ◌++◌, map, String, arith, eq_iff, any, select, includes_of_In, In, In-append, In-map,
  In-select, Bool-cases, if◌then◌else◌,
}
use heidi_microservices.Database.{has_twice}
use heidi_microservices.Tiles.{
  TileCity, TileCityReferenceDto, row_for, updated_city, created_city, upsert_city, upsert_cities,
  sync_tile_cities,
}
use heidi_microservices.Tiles.Editing.{CreateTileCityReferenceDto, new_cities}

-- No two rows have one tile and one city.
abbrev pub HasKeys : List TileCity → Type 0
HasKeys [] = Unit {0}
HasKeys (r ∷ rest) =
    ((q : TileCity) → In q rest → r.tile_id ≡ q.tile_id → r.city_id ≢ q.city_id) × HasKeys rest

pub select-HasKeys :
    (p : TileCity → Bool) (rows : List TileCity) → HasKeys rows → HasKeys (select p rows)
select-HasKeys p [] h = tt
select-HasKeys p (r ∷ rest) (apart, h) = elim (Bool-cases (p r)) [
  | inl e ↦ rw e (λ q m. apart q ((In-select p rest q).0 m).0, select-HasKeys p rest h)
  | inr e ↦ rw e (select-HasKeys p rest h)
]

map-HasKeys :
    (f : TileCity → TileCity) (rows : List TileCity)
    → ((r : TileCity) → ((f r).tile_id ≡ r.tile_id) × ((f r).city_id ≡ r.city_id))
    → HasKeys rows
    → HasKeys (map f rows)
map-HasKeys f [] same h = tt
map-HasKeys f (r ∷ rest) same (apart, h) = (
  λ q m t c.
      let (old, i, e) = (In-map f rest q).0 m in
      apart old i (sym (same r).0 ∙ (t ∙ (ap TileCity.tile_id e ∙ (same old).0)))
        (sym (same r).1 ∙ (c ∙ (ap TileCity.city_id e ∙ (same old).1))),
  map-HasKeys f rest same h,
)

pub append-HasKeys :
    (rows more : List TileCity)
    → HasKeys rows
    → HasKeys more
    → ((r q : TileCity) → In r rows → In q more → r.tile_id ≡ q.tile_id → r.city_id ≢ q.city_id)
    → HasKeys (rows ++ more)
append-HasKeys [] more h k apart = k
append-HasKeys (r ∷ rest) more (first, h) k apart = (
  λ q m. elim ((In-append q rest more).0 m) [ inl i ↦ first q i | inr i ↦ apart r q (inl refl) i ],
  append-HasKeys rest more h k (λ a b i j. apart a b (inr i) j),
)

none_for :
    (tile city : String) (rows : List TileCity)
    → any (row_for tile city) rows ≡ false
    → (r : TileCity) → In r rows
    → r.tile_id ≡ tile
    → r.city_id ≢ city
none_for tile city [] h r m t c = absurd m
none_for tile city (q ∷ rows) h r (inl e) t c =
    let a = (eq_iff r.tile_id tile).1 t in
    let b = (eq_iff r.city_id city).1 c in
    let k : row_for tile city r ≡ true = rw (a, b) in
    absurd (let z = rw (← e) at h in ground (arith, k, z))
none_for tile city (q ∷ rows) h r (inr m) t c = none_for tile city rows (ground (arith, h)) r m t c

module _ (ids : ℕ → String) (tile : String) where
  upsert_city-HasKeys :
      (index : ℕ) (ref : TileCityReferenceDto) (rows : List TileCity)
      → HasKeys rows
      → HasKeys (upsert_city ids tile index ref rows)
  upsert_city-HasKeys index ref rows h = elim (Bool-cases (any (row_for tile ref.city_id) rows)) [
    | inl e ↦ rw e (map-HasKeys _ rows keeps h)
    | inr e ↦ rw e (
        append-HasKeys rows (created_city ids tile index ref ∷ []) h (λ q m. absurd m, tt)
          (λ r q i j t c. elim j [
            | inl same ↦
                none_for tile ref.city_id rows e r i (t ∙ ap TileCity.tile_id same)
                  (c ∙ ap TileCity.city_id same)
            | inr z ↦ absurd z
          ]))
  ]
    where
      changed : TileCity → TileCity
      changed r = if row_for tile ref.city_id r then updated_city index ref r else r

      keeps : (r : TileCity) → ((changed r).tile_id ≡ r.tile_id) × ((changed r).city_id ≡ r.city_id)
      keeps r = elim (Bool-cases (row_for tile ref.city_id r)) [
        | inl h ↦ rw h (refl, refl)
        | inr h ↦ rw h (refl, refl)
      ]

  upsert_cities-HasKeys :
      (index : ℕ) (refs : List TileCityReferenceDto) (rows : List TileCity)
      → HasKeys rows
      → HasKeys (upsert_cities ids tile index refs rows)
  unfolding upsert_cities
  upsert_cities-HasKeys index [] rows h = h
  upsert_cities-HasKeys index (ref ∷ refs) rows h =
      upsert_cities-HasKeys (index + 1) refs (upsert_city ids tile index ref rows)
        (upsert_city-HasKeys index ref rows h)

  pub sync_tile_cities-HasKeys :
      (cities : Option (List TileCityReferenceDto)) (rows : List TileCity)
      → HasKeys rows
      → HasKeys (sync_tile_cities ids tile cities rows)
  unfolding sync_tile_cities
  sync_tile_cities-HasKeys none rows h = h
  sync_tile_cities-HasKeys (some []) rows h = select-HasKeys _ rows h
  sync_tile_cities-HasKeys (some (ref ∷ refs)) rows h =
      upsert_cities-HasKeys 0 (ref ∷ refs) _ (select-HasKeys _ rows h)

  -- The rows of a new tile are its own, for the cities that are named.
  pub new_cities_lem :
      (index : ℕ) (refs : List CreateTileCityReferenceDto) (r : TileCity)
      → In r (new_cities ids tile index refs)
      → (r.tile_id ≡ tile) × In r.city_id (map CreateTileCityReferenceDto.city_id refs)
  unfolding new_cities
  new_cities_lem index [] r m = absurd m
  new_cities_lem index (ref ∷ refs) r (inl e) = (ap TileCity.tile_id e, inl (ap TileCity.city_id e))
  new_cities_lem index (ref ∷ refs) r (inr m) =
      let (a, b) = new_cities_lem (index + 1) refs r m in (a, inr b)

  pub new_cities-HasKeys :
      (index : ℕ) (refs : List CreateTileCityReferenceDto)
      → has_twice (map CreateTileCityReferenceDto.city_id refs) ≡ false
      → HasKeys (new_cities ids tile index refs)
  unfolding new_cities
  new_cities-HasKeys index [] h = tt
  new_cities-HasKeys index (ref ∷ refs) h =
      let others = map CreateTileCityReferenceDto.city_id refs in
      (
        λ q m t c.
            let (_, i) = new_cities_lem (index + 1) refs q m in
            let e = includes_of_In others ref.city_id (rw c i) in absurd (ground (arith, e, h)),
        new_cities-HasKeys (index + 1) refs (ground (arith, h)),
      )
