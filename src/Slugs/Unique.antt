-- ===== src/Slugs/Unique.antt =====
-- `ensureUniqueSlug` comes to an end.
use mathlib.Core.Path.{Path}
use mathlib.Core.Bool.{false≢true}
use text.Mathlib.TextLemmas.{append_cancel_left, append-nil, append-eq-nil_iff}
use heidi_microservices.Common.{
  ◌⊎◌, ℕ, zero, suc, ◌+◌, ◌≤◌, ◌<◌, ◌≡◌, ◌≢◌, refl, sym, ap, ◌∙◌, inl, inr, eq_iff, arith, Bool,
  true, false, Option, none, some, map, String, text_append, length, length-map, In, In-map,
  Bool-cases,
}
use heidi_microservices.Common.Decimals.{decimal, decimal-inj}
use heidi_microservices.Common.Pigeonhole.{length-run_of}
use heidi_microservices.Common.Outcome.{returned, returned-inj, >>=-eq-returned}
use heidi_microservices.Database.{Table, IsTable}
use heidi_microservices.Slugs.{numbered, has_slug, is_free, next_slug, ensure_unique_slug}

not_longer : (s t : String) → s ≢ text_append s (text_append "-" t)
not_longer s t h =
    let e = append_cancel_left s "" (text_append "-" t) (append-nil s ∙ h) in
    let k : text_append "-" t ≡ "" = sym e in
    absurd (no_dash ((append-eq-nil_iff {p = "-"} {q = t}).0 k).0)
  where
    no_dash : (Path String "-" "") → ⊥
    no_dash h = false≢true ((eq_iff "-" "").1 h)

-- The candidates in the order of the loop.
abbrev candidate : String → ℕ → String
candidate base zero = base
candidate base (suc n) = numbered base (suc n)

candidate-inj : (base : String) (i j : ℕ) → candidate base i ≡ candidate base j → i ≡ j
candidate-inj base zero zero h = refl
candidate-inj base zero (suc j) h = absurd (not_longer base (decimal (suc j)) h)
candidate-inj base (suc i) zero h = absurd (not_longer base (decimal (suc i)) (sym h))
candidate-inj base (suc i) (suc j) h = decimal-inj (suc i) (suc j) (
    append_cancel_left "-" (decimal (suc i)) (decimal (suc j)) (
      append_cancel_left base (text_append "-" (decimal (suc i)))
        (text_append "-" (decimal (suc j))) h))

none_between : (k i : ℕ) → k ≤ i → ¬ (i < k + 0)
none_between k i l u = ground arith

at_or_after : (k i : ℕ) → k ≤ i → (k ≡ i) ⊎ (suc k ≤ i)
at_or_after k i l = ground arith

module _ {S Row : Type 0} (table : Table S Row) (laws : IsTable table)
    (slug_of id_of : Row → String) where
  -- No other row has the slug.
  abbrev pub IsFreeFor : Option String → String → S → Type 0
  IsFreeFor current slug s =
      ((r : Row) → In r (table.rows s) → slug_of r ≢ slug)
      ⊎ ((r : Row) × In r (table.rows s) × (slug_of r ≡ slug) × (some (id_of r) ≡ current))

  free_lem :
      (current : Option String) (slug : String) (s : S) (o : Option Row)
      → table.find (has_slug table slug_of id_of slug) s ≡ returned o
      → is_free table slug_of id_of current o ≡ true
      → IsFreeFor current slug s
  free_lem current slug s none f e = inl (λ r m h.
      let k = laws.find_none (has_slug table slug_of id_of slug) s f r m in
      let t = (eq_iff (slug_of r) slug).1 h in cc)
  free_lem none slug s (some row) f e = cc
  free_lem (some id) slug s (some row) f e =
      let (m, h) = laws.find_some (has_slug table slug_of id_of slug) s row f in
      inr (row, m, (eq_iff (slug_of row) slug).0 h, ap some ((eq_iff (id_of row) id).0 e))

  taken_lem :
      (current : Option String) (slug : String) (s : S) (o : Option Row)
      → table.find (has_slug table slug_of id_of slug) s ≡ returned o
      → is_free table slug_of id_of current o ≡ false
      → In slug (map slug_of (table.rows s))
  taken_lem current slug s none f e = cc
  taken_lem current slug s (some row) f e =
      let (m, h) = laws.find_some (has_slug table slug_of id_of slug) s row f in
      (In-map slug_of (table.rows s) slug).1 (row, m, sym ((eq_iff (slug_of row) slug).0 h))

  -- A loop that does not end with the fuel has found all its candidates taken.
  unfinished_taken :
      (fuel : ℕ) (base : String) (current : Option String) (k : ℕ) (s : S)
      → ((p : Row → Bool) → (o : Option Row) × (table.find p s ≡ returned o))
      → ((slug : String) × (next_slug table slug_of id_of fuel base current
              (candidate base k)
              (suc k)
              s
            ≡ returned slug)
          × IsFreeFor current slug s)
        ⊎ ((i : ℕ) → k ≤ i → i < k + fuel → In (candidate base i) (map slug_of (table.rows s)))
  unfolding next_slug
  unfinished_taken zero base current k s answers = inr (λ i l u. absurd (none_between k i l u))
  unfinished_taken (suc fuel) base current k s answers =
      let ih = unfinished_taken fuel base current (suc k) s answers in
      let (o, f) = answers (has_slug table slug_of id_of (candidate base k)) in
      elim (Bool-cases (is_free table slug_of id_of current o)) [
        | inl e ↦ inl (candidate base k, rw (f, e), free_lem current (candidate base k) s o f e)
        | inr e ↦ elim ih [
          | inl (slug, r, free) ↦ inl (slug, rw (f, e) r, free)
          | inr taken ↦ inr (λ i l u. elim (at_or_after k i l) [
            | inl same ↦ rw (← same) (taken_lem current (candidate base k) s o f e)
            | inr after ↦ taken i after (omega arith)
          ])
        ]
      ]

  -- `ensureUniqueSlug` comes to an end, after at most one query more than there are rows, if the
  -- table answers its queries; the slug that it returns is free, or the row's that has it already.
  pub ensure_unique_slug_returns :
      (fuel : ℕ) (base : String) (current : Option String) (s : S)
      → length (table.rows s) < fuel
      → ((p : Row → Bool) → (o : Option Row) × (table.find p s ≡ returned o))
      → (slug : String) × (ensure_unique_slug table slug_of id_of fuel base current s
          ≡ returned slug)
        × IsFreeFor current slug s
  unfolding ensure_unique_slug
  ensure_unique_slug_returns fuel base current s enough answers =
      elim (unfinished_taken fuel base current 0 s answers) [
        | inl r ↦ r
        | inr taken ↦
            let most =
              length-run_of (candidate base) (candidate-inj base) fuel 0
                (map slug_of (table.rows s)) taken in
            absurd (too_many fuel most enough)
      ]
    where
      too_many : (n : ℕ) → n ≤ length (map slug_of (table.rows s)) → ¬ (length (table.rows s) < n)
      too_many n l u = let e = length-map slug_of (table.rows s) in ground (arith, e)

  next_slug-IsFreeFor :
      (fuel : ℕ) (base : String) (current : Option String) (tried : String) (counter : ℕ) (s : S)
      (slug : String)
      → next_slug table slug_of id_of fuel base current tried counter s ≡ returned slug
      → IsFreeFor current slug s
  unfolding next_slug
  next_slug-IsFreeFor zero base current tried counter s slug h = cc
  next_slug-IsFreeFor (suc fuel) base current tried counter s slug h =
      let (o, f, k) = >>=-eq-returned (table.find (has_slug table slug_of id_of tried) s) _ h in
      elim (Bool-cases (is_free table slug_of id_of current o)) [
        | inl e ↦
            let same : tried ≡ slug = returned-inj (rw e at k) in
            rw (← same) (free_lem current tried s o f e)
        | inr e ↦
            next_slug-IsFreeFor fuel base current (numbered base counter) (suc counter) s slug
              (rw e at k)
      ]

  pub ensure_unique_slug-IsFreeFor :
      (fuel : ℕ) (base : String) (current : Option String) (s : S) (slug : String)
      → ensure_unique_slug table slug_of id_of fuel base current s ≡ returned slug
      → IsFreeFor current slug s
  unfolding ensure_unique_slug
  ensure_unique_slug-IsFreeFor fuel base current s slug h =
      next_slug-IsFreeFor fuel base current base 1 s slug h
