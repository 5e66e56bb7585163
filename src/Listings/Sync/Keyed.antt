-- ===== src/Listings/Sync/Keyed.antt =====
-- apps/core/src/modules/listings/listings.service.ts: the rows of a listing that are known by a key, after
-- `syncListingCategories` and `syncListingCities`.
use heidi_microservices.Common.{
  ℕ, suc, ◌≡◌, refl, ◌∙◌, inl, inr, Bool, true, false, not, ◌&&◌, ◌||◌, Option, none, some, List,
  [], ◌∷◌, map, String, arith, str_eq, eq_iff, any, any-append, select, select-append, includes,
  Bool-cases, either, ◌⊎◌, if◌then◌else◌,
}
use mathlib.Core.List.{append-nil}
use heidi_microservices.Listings.Sync.{upsert_row, upsert_rows, stays_keyed, sync_keyed}

-- The listing has exactly the keys that the request has, or the rows that it had if the request has none,
-- and the rows of other listings are as they were.
abbrev pub HasKeys :
    {Row Input : Type 0}
    → (Row → String)
    → (Row → String)
    → (Input → String)
    → String
    → Option (List Input)
    → List Row
    → List Row
    → Type 0
HasKeys listing_of key_of asked_key listing none before after = after ≡ before
HasKeys listing_of key_of asked_key listing (some inputs) before after =
    (key : String)
    → any (λ r. str_eq (listing_of r) listing && str_eq (key_of r) key) after
      ≡ includes (map asked_key inputs) key

pub record IsAsked {Row Input : Type 0} (listing_of key_of : Row → String)
    (asked_key : Input → String) (listing : String) (asked : Option (List Input))
    (before after : List Row) : Type 0 where
  pub keys : HasKeys listing_of key_of asked_key listing asked before after
  pub others :
      select (λ r. not (str_eq (listing_of r) listing)) after
      ≡ select (λ r. not (str_eq (listing_of r) listing)) before

module _ {Row Input : Type 0} (listing_of key_of : Row → String) (asked_key : Input → String)
    (change : ℕ → Input → Row → Row) (make : ℕ → Input → Row) (listing : String) where
  -- The row has the listing and the key.
  abbrev keyed : String → Row → Bool
  keyed key r = str_eq (listing_of r) listing && str_eq (key_of r) key

  -- The rows of the other listings.
  abbrev others : List Row → List Row
  others rows = select (λ r. not (str_eq (listing_of r) listing)) rows

  none_keyed : (key : String) (rows : List Row) → any (keyed key) (others rows) ≡ false
  none_keyed key [] = refl
  none_keyed key (r ∷ rows) = elim (Bool-cases (str_eq (listing_of r) listing)) [
    | inl e ↦ rw e (none_keyed key rows)
    | inr e ↦ rw (e, e) (none_keyed key rows)
  ]

  others_none : (rows : List Row) → others (others rows) ≡ others rows
  others_none [] = refl
  others_none (r ∷ rows) = elim (Bool-cases (str_eq (listing_of r) listing)) [
    | inl e ↦ rw e (others_none rows)
    | inr e ↦ rw (e, e, others_none rows)
  ]

  module _
      (changed_listing : (n : ℕ) (i : Input) (r : Row) → listing_of (change n i r) ≡ listing_of r)
      (changed_key : (n : ℕ) (i : Input) (r : Row) → key_of (change n i r) ≡ key_of r)
      (made_listing : (n : ℕ) (i : Input) → listing_of (make n i) ≡ listing)
      (made_key : (n : ℕ) (i : Input) → key_of (make n i) ≡ asked_key i) where
    others_map :
        (n : ℕ) (i : Input) (key : String) (rows : List Row)
        → others (map (λ r. if keyed key r then change n i r else r) rows) ≡ others rows
    others_map n i key [] = refl
    others_map n i key (r ∷ rows) = elim (Bool-cases (keyed key r)) [
      | inl e ↦
          let own : str_eq (listing_of r) listing ≡ true = ground (arith, e) in
          rw (e, changed_listing n i r, own) (others_map n i key rows)
      | inr e ↦ elim (Bool-cases (str_eq (listing_of r) listing)) [
        | inl o ↦ rw (e, o) (others_map n i key rows)
        | inr o ↦ rw (e, o, others_map n i key rows)
      ]
    ]

    others_upsert_row :
        (n : ℕ) (i : Input) (rows : List Row)
        → others (upsert_row listing_of key_of asked_key change make listing n i rows) ≡ others rows
    others_upsert_row n i rows = elim (Bool-cases (any (keyed (asked_key i)) rows)) [
      | inl e ↦ rw e (others_map n i (asked_key i) rows)
      | inr e ↦
          let own : str_eq (listing_of (make n i)) listing ≡ true =
            (eq_iff (listing_of (make n i)) listing).1 (made_listing n i) in
          rw e (
            select-append (λ r. not (str_eq (listing_of r) listing)) rows (make n i ∷ [])
            ∙ rw own (append-nil (others rows)))
    ]

    others_upsert_rows :
        (n : ℕ) (inputs : List Input) (rows : List Row)
        → others (upsert_rows listing_of key_of asked_key change make listing n inputs rows)
          ≡ others rows
    unfolding upsert_rows
    others_upsert_rows n [] rows = refl
    others_upsert_rows n (i ∷ rest) rows =
        others_upsert_rows (suc n) rest _ ∙ others_upsert_row n i rows

    others_stays :
        (keys : List String) (rows : List Row)
        → others (select (stays_keyed listing_of key_of asked_key change make listing keys) rows)
          ≡ others rows
    others_stays keys [] = refl
    others_stays keys (r ∷ rows) = elim (Bool-cases (str_eq (listing_of r) listing)) [
      | inl e ↦ elim (Bool-cases (includes keys (key_of r))) [
        | inl k ↦ rw (e, k, e) (others_stays keys rows)
        | inr k ↦ rw (e, k) (others_stays keys rows)
      ]
      | inr e ↦ rw (e, e, others_stays keys rows)
    ]

    keyed_changed :
        (n : ℕ) (i : Input) (r : Row) (key : String) → keyed key (change n i r) ≡ keyed key r
    keyed_changed n i r key = rw (changed_listing n i r, changed_key n i r) refl

    any-map :
        (n : ℕ) (i : Input) (at key : String) (rows : List Row)
        → any (keyed key) (map (λ r. if keyed at r then change n i r else r) rows)
          ≡ any (keyed key) rows
    any-map n i at key [] = refl
    any-map n i at key (r ∷ rows) = elim (Bool-cases (keyed at r)) [
      | inl e ↦ rw (e, keyed_changed n i r key, any-map n i at key rows) refl
      | inr e ↦ rw (e, any-map n i at key rows) refl
    ]

    any-upsert_row :
        (n : ℕ) (i : Input) (key : String) (rows : List Row)
        → any (keyed key) (upsert_row listing_of key_of asked_key change make listing n i rows)
          ≡ (any (keyed key) rows || str_eq (asked_key i) key)
    any-upsert_row n i key rows = elim (Bool-cases (any (keyed (asked_key i)) rows)) [
      | inl e ↦
          rw e
            (any-map n i (asked_key i) key rows ∙ present e (Bool-cases (str_eq (asked_key i) key)))
      | inr e ↦
          let own : str_eq listing listing ≡ true = (eq_iff listing listing).1 refl in
          rw e (
            any-append (keyed key) rows (make n i ∷ [])
            ∙ rw (made_listing n i, made_key n i, own) (ground arith))
    ]
      where
        present :
            any (keyed (asked_key i)) rows ≡ true
            → (str_eq (asked_key i) key ≡ true) ⊎ (str_eq (asked_key i) key ≡ false)
            → any (keyed key) rows ≡ (any (keyed key) rows || str_eq (asked_key i) key)
        present e (inl s) =
            let there : any (keyed key) rows ≡ true = rw ((eq_iff (asked_key i) key).0 s) at e in
            ground (arith, there)
        present e (inr s) = ground (arith, s)

    any-upsert_rows :
        (n : ℕ) (inputs : List Input) (key : String) (rows : List Row)
        → any
            (keyed key)
            (upsert_rows listing_of key_of asked_key change make listing n inputs rows)
          ≡ (any (keyed key) rows || includes (map asked_key inputs) key)
    unfolding upsert_rows
    any-upsert_rows n [] key rows = ground arith
    any-upsert_rows n (i ∷ rest) key rows =
        any-upsert_rows (suc n) rest key _ ∙ rw (any-upsert_row n i key rows) (ground arith)

    any_stays :
        (keys : List String) (key : String) (rows : List Row)
        → includes keys key ≡ false
        → any
            (keyed key)
            (select (stays_keyed listing_of key_of asked_key change make listing keys) rows)
          ≡ false
    any_stays keys key [] h = refl
    any_stays keys key (r ∷ rows) h = elim (Bool-cases (keyed key r)) [
      | inl e ↦
          let own : str_eq (listing_of r) listing ≡ true = ground (arith, e) in
          let same : str_eq (key_of r) key ≡ true = ground (arith, e) in
          let gone : includes keys (key_of r) ≡ false = rw ((eq_iff (key_of r) key).0 same) h in
          rw (own, gone) (any_stays keys key rows h)
      | inr e ↦
          either (λ (xs : List Row). any (keyed key) xs ≡ false)
            (stays_keyed listing_of key_of asked_key change make listing keys r)
            (λ _. rw (e, any_stays keys key rows h) refl) (λ _. any_stays keys key rows h)
    ]

    any_kept :
        (inputs : List Input) (key : String) (rows : List Row)
        → any (keyed key) (
            upsert_rows listing_of key_of asked_key change make listing 0 inputs (
              select
                (stays_keyed listing_of key_of asked_key change make listing (map asked_key inputs))
                rows))
          ≡ includes (map asked_key inputs) key
    any_kept inputs key rows =
        any-upsert_rows 0 inputs key _ ∙ elim (Bool-cases (includes (map asked_key inputs) key)) [
          | inl e ↦ ground (arith, e)
          | inr e ↦ rw (e, any_stays (map asked_key inputs) key rows e) refl
        ]

    pub sync_keyed-IsAsked :
        (asked : Option (List Input)) (rows : List Row)
        → IsAsked listing_of key_of asked_key listing asked rows
            (sync_keyed listing_of key_of asked_key change make listing asked rows)
    unfolding sync_keyed
    sync_keyed-IsAsked none rows = record { keys = refl; others = refl }
    sync_keyed-IsAsked (some []) rows = record {
      keys = λ key. none_keyed key rows;
      others = others_none rows;
    }
    sync_keyed-IsAsked (some (i ∷ rest)) rows = record {
      keys = λ key. any_kept (i ∷ rest) key rows;
      others = others_upsert_rows 0 (i ∷ rest) _ ∙ others_stays (map asked_key (i ∷ rest)) rows;
    }
