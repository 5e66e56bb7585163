-- ===== src/Tiles/Assigned.antt =====
-- The cities of a tile after `syncTileCities`.
use heidi_microservices.Common.{
  ℕ, ◌+◌, ◌≡◌, ◌≢◌, refl, sym, ◌∙◌, ap, ◌↔◌, ◌⊎◌, inl, inr, true, false, not, Option, none, some,
  List, [], ◌∷◌, ◌++◌, map, String, arith, str_eq, eq_iff, any, any-eq-true, select, In, In-append,
  In-map, In-select, In-of_includes, Bool-cases, if◌then◌else◌,
}
use heidi_microservices.Tiles.{
  TileCity, TileCityReferenceDto, row_for, updated_city, created_city, upsert_city, upsert_cities,
  stays, sync_tile_cities,
}

-- The tile has a row for the city.
abbrev pub HasCity : List TileCity → String → String → Type 0
HasCity rows tile city = (r : TileCity) × In r rows × (r.tile_id ≡ tile) × (r.city_id ≡ city)

module _ (ids : ℕ → String) (tile : String) where
  differs : (r : TileCity) → r.tile_id ≢ tile → not (str_eq r.tile_id tile) ≡ true
  differs r other = elim (Bool-cases (str_eq r.tile_id tile)) [
    | inl h ↦ absurd (other ((eq_iff r.tile_id tile).0 h))
    | inr h ↦ rw h
  ]

  -- An upsert leaves the tile's other cities alone and gives it the one of the request.
  upsert_city-HasCity :
      (index : ℕ) (ref : TileCityReferenceDto) (rows : List TileCity) (c : String)
      → HasCity (upsert_city ids tile index ref rows) tile c
        ↔ (HasCity rows tile c ⊎ (c ≡ ref.city_id))
  upsert_city-HasCity index ref rows c = elim (Bool-cases (any (row_for tile ref.city_id) rows)) [
    | inl e ↦ rw e (present e)
    | inr e ↦ rw e absent
  ]
    where
      changed : TileCity → TileCity
      changed r = if row_for tile ref.city_id r then updated_city index ref r else r

      keeps : (r : TileCity) → ((changed r).tile_id ≡ r.tile_id) × ((changed r).city_id ≡ r.city_id)
      keeps r = elim (Bool-cases (row_for tile ref.city_id r)) [
        | inl h ↦ rw h (refl, refl)
        | inr h ↦ rw h (refl, refl)
      ]

      moved :
          (r : TileCity) (d : String)
          → In r rows
          → r.tile_id ≡ tile
          → r.city_id ≡ d
          → HasCity (map changed rows) tile d
      moved r d m t e =
          let (u, v) = keeps r in
          (changed r, (In-map changed rows (changed r)).1 (r, m, refl), u ∙ t, v ∙ e)

      present :
          any (row_for tile ref.city_id) rows ≡ true
          → HasCity (map changed rows) tile c ↔ (HasCity rows tile c ⊎ (c ≡ ref.city_id))
      present e = (
        λ (r, m, t, k).
            let (q, i, a) = (In-map changed rows r).0 m in
            let (u, v) = keeps q in
            inl (
              q,
              i,
              sym u ∙ (ap TileCity.tile_id (sym a) ∙ t),
              sym v ∙ (ap TileCity.city_id (sym a) ∙ k),
            ),
        elim [
          | inl (r, m, t, k) ↦ moved r c m t k
          | inr same ↦
              let (q, m, h) = any-eq-true (row_for tile ref.city_id) rows e in
              moved q c m ((eq_iff q.tile_id tile).0 (ground arith))
                ((eq_iff q.city_id ref.city_id).0 (ground arith) ∙ sym same)
        ],
      )

      n : TileCity
      n = created_city ids tile index ref

      absent : HasCity (rows ++ n ∷ []) tile c ↔ (HasCity rows tile c ⊎ (c ≡ ref.city_id))
      absent = (
        λ (r, m, t, k). elim ((In-append r rows (n ∷ [])).0 m) [
          | inl i ↦ inl (r, i, t, k)
          | inr i ↦ elim i [ inl same ↦ inr (sym k ∙ ap TileCity.city_id same) | inr h ↦ absurd h ]
        ],
        elim [
          | inl (r, m, t, k) ↦ (r, (In-append r rows (n ∷ [])).1 (inl m), t, k)
          | inr same ↦ (n, (In-append n rows (n ∷ [])).1 (inr (inl refl)), refl, sym same)
        ],
      )

  -- An upsert leaves the rows of other tiles alone.
  upsert_city-other :
      (index : ℕ) (ref : TileCityReferenceDto) (rows : List TileCity) (r : TileCity)
      → r.tile_id ≢ tile
      → In r (upsert_city ids tile index ref rows) ↔ In r rows
  upsert_city-other index ref rows r other =
      elim (Bool-cases (any (row_for tile ref.city_id) rows)) [
        | inl e ↦ rw e (
          λ m.
              let (q, i, a) = (In-map changed rows r).0 m in
              elim (Bool-cases (row_for tile ref.city_id q)) [
                | inl h ↦
                    let same : r ≡ updated_city index ref q = rw h at a in
                    absurd
                      (other (ap TileCity.tile_id same ∙ (eq_iff q.tile_id tile).0 (ground arith)))
                | inr h ↦ let same : r ≡ q = rw h at a in rw same i
              ],
          λ m. (In-map changed rows r).1 (r, m, rw not_for),
        )
        | inr e ↦ rw e (
          λ m. elim ((In-append r rows (n ∷ [])).0 m) [
            | inl i ↦ i
            | inr i ↦ elim i [
              | inl same ↦ absurd (other (ap TileCity.tile_id same))
              | inr h ↦ absurd h
            ]
          ],
          λ m. (In-append r rows (n ∷ [])).1 (inl m),
        )
      ]
    where
      changed : TileCity → TileCity
      changed r = if row_for tile ref.city_id r then updated_city index ref r else r

      n : TileCity
      n = created_city ids tile index ref

      not_for : row_for tile ref.city_id r ≡ false
      not_for = elim (Bool-cases (str_eq r.tile_id tile)) [
        | inl h ↦ absurd (other ((eq_iff r.tile_id tile).0 h))
        | inr h ↦ rw h
      ]

  upsert_cities-other :
      (index : ℕ) (refs : List TileCityReferenceDto) (rows : List TileCity) (r : TileCity)
      → r.tile_id ≢ tile
      → In r (upsert_cities ids tile index refs rows) ↔ In r rows
  unfolding upsert_cities
  upsert_cities-other index [] rows r other = (λ m. m, λ m. m)
  upsert_cities-other index (ref ∷ refs) rows r other =
      let (a, b) =
        upsert_cities-other (index + 1) refs (upsert_city ids tile index ref rows) r other in
      let (x, y) = upsert_city-other index ref rows r other in (λ m. x (a m), λ m. b (y m))

  upsert_cities-HasCity :
      (index : ℕ) (refs : List TileCityReferenceDto) (rows : List TileCity) (c : String)
      → HasCity (upsert_cities ids tile index refs rows) tile c
        ↔ (HasCity rows tile c ⊎ In c (map TileCityReferenceDto.city_id refs))
  unfolding upsert_cities
  upsert_cities-HasCity index [] rows c = (inl, elim [ inl h ↦ h | inr m ↦ absurd m ])
  upsert_cities-HasCity index (ref ∷ refs) rows c =
      let (a, b) = upsert_cities-HasCity (index + 1) refs (upsert_city ids tile index ref rows) c in
      let (x, y) = upsert_city-HasCity index ref rows c in
      (
        λ h. elim (a h) [
          | inl k ↦ elim (x k) [ inl p ↦ inl p | inr e ↦ inr (inl e) ]
          | inr m ↦ inr (inr m)
        ],
        elim [
          | inl p ↦ b (inl (y (inl p)))
          | inr m ↦ elim m [ inl e ↦ b (inl (y (inr e))) | inr n ↦ b (inr n) ]
        ],
      )

  kept-HasCity :
      (keep : List String) (rows : List TileCity) (c : String)
      → HasCity (select (stays tile keep) rows) tile c
      → In c keep
  kept-HasCity keep rows c (r, m, t, e) =
      let (_, s) = (In-select (stays tile keep) rows r).0 m in
      let same = (eq_iff r.tile_id tile).1 t in
      In-of_includes keep c (rw (← e) (ground (arith, same, s)))

  -- After `syncTileCities` with a list of cities that is not empty, the tile has exactly the cities
  -- of the list.
  pub sync_tile_cities-HasCity :
      (ref : TileCityReferenceDto) (refs : List TileCityReferenceDto) (rows : List TileCity)
      (c : String)
      → HasCity (sync_tile_cities ids tile (some (ref ∷ refs)) rows) tile c
        ↔ In c (map TileCityReferenceDto.city_id (ref ∷ refs))
  unfolding sync_tile_cities
  sync_tile_cities-HasCity ref refs rows c =
      let keep = map TileCityReferenceDto.city_id (ref ∷ refs) in
      let (a, b) = upsert_cities-HasCity 0 (ref ∷ refs) (select (stays tile keep) rows) c in
      (λ h. elim (a h) [ inl k ↦ kept-HasCity keep rows c k | inr m ↦ m ], λ m. b (inr m))

  -- `syncTileCities` neither adds, removes nor changes a row of another tile, whatever its list of
  -- cities.
  pub sync_tile_cities-other :
      (cities : Option (List TileCityReferenceDto)) (rows : List TileCity) (r : TileCity)
      → r.tile_id ≢ tile
      → In r (sync_tile_cities ids tile cities rows) ↔ In r rows
  unfolding sync_tile_cities
  sync_tile_cities-other none rows r other = (λ m. m, λ m. m)
  sync_tile_cities-other (some []) rows r other =
      let (a, b) = In-select (λ r. not (str_eq r.tile_id tile)) rows r in
      (λ m. (a m).0, λ m. b (m, differs r other))
  sync_tile_cities-other (some (ref ∷ refs)) rows r other =
      let keep = map TileCityReferenceDto.city_id (ref ∷ refs) in
      let (a, b) = upsert_cities-other 0 (ref ∷ refs) (select (stays tile keep) rows) r other in
      let (x, y) = In-select (stays tile keep) rows r in
      (λ m. (x (a m)).0, λ m. b (y (m, rw (differs r other))))
