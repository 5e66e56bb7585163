-- ===== src/Slugs/Kept.antt =====
-- `ensureUniqueSlug` keeps the slugs of a table unique, when rows are made and changed with what it
-- returns.
use heidi_microservices.Common.{
  ℕ, ◌≡◌, ◌≢◌, refl, sym, ap, ◌∙◌, inl, inr, Bool, true, false, Option, none, some, List, [], ◌∷◌,
  ◌++◌, String, str_eq, or_else, In, In-map, In-append, eq_iff, if◌then◌else◌,
}
use heidi_microservices.Database.{Table, IsTable, update_rows}
use heidi_microservices.Database.Memory.{some-inj}
use heidi_microservices.Common.Outcome.{
  Outcome, returned, thrown, unfinished, returned-inj, map_returned,
}
use heidi_microservices.Slugs.{slugify, ensure_unique_slug, slug_if_set}
use heidi_microservices.Slugs.Unique.{IsFreeFor, ensure_unique_slug-IsFreeFor}

module _ {Row : Type 0} (slug_of id_of : Row → String) where
  -- Two rows with the same slug have the same identifier.
  abbrev pub AreUnique : List Row → Type 0
  AreUnique rows = (r q : Row) → In r rows → In q rows → slug_of r ≡ slug_of q → id_of r ≡ id_of q

  pub append-AreUnique :
      (rows : List Row) (new : Row)
      → AreUnique rows
      → ((r : Row) → In r rows → slug_of r ≢ slug_of new)
      → AreUnique (rows ++ new ∷ [])
  append-AreUnique rows new h free r q m n e = elim ((In-append r rows (new ∷ [])).0 m) [
    | inl a ↦ elim ((In-append q rows (new ∷ [])).0 n) [
      | inl b ↦ h r q a b e
      | inr b ↦ elim b [ inl same ↦ absurd (free r a (e ∙ ap slug_of same)) | inr z ↦ absurd z ]
    ]
    | inr a ↦ elim a [
      | inl same ↦ elim ((In-append q rows (new ∷ [])).0 n) [
        | inl b ↦ absurd (free q b (sym e ∙ ap slug_of same))
        | inr b ↦ elim b [ inl t ↦ ap id_of (same ∙ sym t) | inr z ↦ absurd z ]
      ]
      | inr z ↦ absurd z
    ]
  ]

  -- Rows that are left of others, with their slugs and identifiers.
  pub kept-AreUnique :
      (rows rest : List Row)
      → AreUnique rows
      → ((r : Row)
          → In r rest
          → (q : Row) × In q rows × (id_of r ≡ id_of q) × (slug_of r ≡ slug_of q))
      → AreUnique rest
  kept-AreUnique rows rest h kept r q m n e =
      let (r0, i, a, b) = kept r m in
      let (q0, j, c, d) = kept q n in a ∙ (h r0 q0 i j (sym b ∙ (e ∙ d)) ∙ sym c)

  module _ {S : Type 0} (table : Table S Row) (laws : IsTable table) where
    abbrev pub IsFree : Option String → String → S → Type 0
    IsFree current slug s = IsFreeFor table laws slug_of id_of current slug s

    -- A slug that is free for a new row is no other row's.
    pub unused :
        (slug : String) (s : S)
        → IsFree none slug s
        → (r : Row) → In r (table.rows s)
        → slug_of r ≢ slug
    unused slug s (inl free) = free
    unused slug s (inr (r, m, e, never)) = cc

    -- The slug of a changed row: free for the row, or none is set.
    abbrev pub Chosen : String → Option String → S → Type 0
    Chosen id none s = Unit {0}
    Chosen id (some slug) s = IsFree (some id) slug s

    -- A changed row and one that is not.
    changed_apart :
        (id : String) (slug : Option String) (s : S) (r q : Row)
        → AreUnique (table.rows s)
        → Chosen id slug s
        → In r (table.rows s)
        → In q (table.rows s)
        → id_of r ≡ id
        → or_else slug (slug_of r) ≡ slug_of q
        → id_of r ≡ id_of q
    changed_apart id none s r q h chosen m n k e = h r q m n e
    changed_apart id (some slug) s r q h (inl free) m n k e = absurd (free q n (sym e))
    changed_apart id (some slug) s r q h (inr (holder, i, has, same)) m n k e =
        let holds : id_of holder ≡ id = some-inj (id_of holder) id same in
        k ∙ (sym holds ∙ h holder q i n (has ∙ e))

    pub update_rows-AreUnique :
        (id : String) (slug : Option String) (f : Row → Row) (s : S)
        → AreUnique (table.rows s)
        → Chosen id slug s
        → ((r : Row) → id_of (f r) ≡ id_of r)
        → ((r : Row) → slug_of (f r) ≡ or_else slug (slug_of r))
        → AreUnique (update_rows (λ q. str_eq (id_of q) id) f (table.rows s))
    update_rows-AreUnique id slug f s h chosen same_id new_slug r q m n e =
        let (r0, i, er) = (In-map change (table.rows s) r).0 m in
        let (q0, j, eq) = (In-map change (table.rows s) q).0 n in
        rw (er, eq)
          (by_ids r0 q0 i j (str_eq (id_of r0) id) (str_eq (id_of q0) id) refl refl
            (rw (er, eq) at e))
      where
        change : Row → Row
        change c = if str_eq (id_of c) id then f c else c

        same : (c : Row) → str_eq (id_of c) id ≡ true → id_of c ≡ id
        same c k = (eq_iff (id_of c) id).0 k

        by_ids :
            (r q : Row)
            → In r (table.rows s)
            → In q (table.rows s)
            → (a b : Bool) → str_eq (id_of r) id ≡ a
            → str_eq (id_of q) id ≡ b
            → slug_of (if a then f r else r) ≡ slug_of (if b then f q else q)
            → id_of (if a then f r else r) ≡ id_of (if b then f q else q)
        by_ids r q i j true true x y e = same_id r ∙ (same r x ∙ (sym (same q y) ∙ sym (same_id q)))
        by_ids r q i j true false x y e =
            same_id r ∙ changed_apart id slug s r q h chosen i j (same r x) (sym (new_slug r) ∙ e)
        by_ids r q i j false true x y e = sym (
            same_id q
            ∙ changed_apart id slug s q r h chosen j i (same q y) (sym (new_slug q) ∙ sym e))
        by_ids r q i j false false x y e = h r q i j e

    pub slug_if_set_lem :
        (fuel : ℕ) (id : String) (slug : Option String) (s : S)
        → ((slug_if_set table slug_of id_of fuel id slug s).1 ≡ s)
          × ((free : Option String)
              → (slug_if_set table slug_of id_of fuel id slug s).0 ≡ returned free
              → Chosen id free s)
    unfolding slug_if_set
    slug_if_set_lem fuel id none s = (refl, λ free h. nothing free (sym (returned-inj h)))
      where
        nothing : (free : Option String) → free ≡ none → Chosen id free s
        nothing none e = tt
        nothing (some slug) e = cc
    slug_if_set_lem fuel id (some slug) s = (
      refl,
      by_slug (ensure_unique_slug table slug_of id_of fuel (slugify slug) (some id) s) refl,
    )
      where
        by_slug :
            (o : Outcome String)
            → ensure_unique_slug table slug_of id_of fuel (slugify slug) (some id) s ≡ o
            → (free : Option String) → map_returned some o ≡ returned free
            → Chosen id free s
        by_slug (returned free) e f h = rw (← returned-inj h) (
            ensure_unique_slug-IsFreeFor table laws slug_of id_of fuel (slugify slug) (some id) s
              free e)
        by_slug (thrown x) e f h = cc
        by_slug unfinished e f h = cc
