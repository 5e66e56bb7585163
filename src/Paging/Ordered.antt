-- ===== src/Paging/Ordered.antt =====
-- What the database promises of `orderBy` a column: a permutation of the rows in which no row stands before
-- one that the column puts first. Rows with the same value come in any order, which may be another one in
-- the next query.
use mathlib.Core.List.{Permᴰ}
use heidi_microservices.Common.{
  ℕ, ◌≡◌, refl, sym, ap, ◌∙◌, ◌↔◌, ◌⊎◌, inl, inr, Bool, true, false, Option, none, some, List, [],
  ◌∷◌, String, arith, str_eq, ltb, In, length, if◌then◌else◌,
}

-- A null comes last in ascending order.
abbrev pub earlier_value : Option ℕ → Option ℕ → Bool
earlier_value none b = false
earlier_value (some a) none = true
earlier_value (some a) (some b) = ltb a b

-- The column puts the first row before the second.
abbrev pub earlier {ℓ} : {A : Type ℓ} → (A → Option ℕ) → String → A → A → Bool
earlier column direction r q =
    if str_eq direction "desc"
    then earlier_value (column q) (column r)
    else earlier_value (column r) (column q)

asymmetric_value : (a b : Option ℕ) → earlier_value a b ≡ true → earlier_value b a ≡ true → ⊥
asymmetric_value none b h k = cc
asymmetric_value (some a) none h k = cc
asymmetric_value (some a) (some b) h k = ground (arith, h, k)

module _ {A : Type 0} where
  -- Any two rows have different values, so that one of them is the earlier one.
  abbrev pub Apart : (A → A → Bool) → List A → Type 0
  Apart before [] = Unit {0}
  Apart before (r ∷ rows) =
      ((q : A) → In q rows → (before r q ≡ true) ⊎ (before q r ≡ true)) × Apart before rows

  abbrev pub IsSorted : (A → A → Bool) → List A → Type 0
  IsSorted before [] = Unit {0}
  IsSorted before (r ∷ rows) = ((q : A) → In q rows → before q r ≡ false) × IsSorted before rows

  -- The rows as the database may order them for one query.
  pub record IsOrder (before : A → A → Bool) (rows ordered : List A) : Type 0 where
    pub permutes : Permᴰ rows ordered
    pub sorts : IsSorted before ordered

  In-Permᴰ : {xs ys : List A} → Permᴰ xs ys → (a : A) → In a xs ↔ In a ys
  In-Permᴰ Permᴰ.nil a = (λ m. m, λ m. m)
  In-Permᴰ (Permᴰ.cons x p) a =
      let (f, g) = In-Permᴰ p a in
      (
        elim [ inl e ↦ inl (e ∙ x) | inr m ↦ inr (f m) ],
        elim [ inl e ↦ inl (e ∙ sym x) | inr m ↦ inr (g m) ],
      )
  In-Permᴰ (Permᴰ.swap x y) a = (
    elim [
      | inl e ↦ inr (inl (e ∙ x))
      | inr m ↦ elim m [ inl e ↦ inl (e ∙ y) | inr n ↦ inr (inr n) ]
    ],
    elim [
      | inl e ↦ inr (inl (e ∙ sym y))
      | inr m ↦ elim m [ inl e ↦ inl (e ∙ sym x) | inr n ↦ inr (inr n) ]
    ],
  )
  In-Permᴰ (Permᴰ.trans p q) a =
      let (f, g) = In-Permᴰ p a in let (h, k) = In-Permᴰ q a in (λ m. h (f m), λ m. g (k m))

  pub length-Permᴰ : {xs ys : List A} → Permᴰ xs ys → length xs ≡ length ys
  length-Permᴰ Permᴰ.nil = refl
  length-Permᴰ (Permᴰ.cons x p) = rw (length-Permᴰ p)
  length-Permᴰ (Permᴰ.swap x y) = refl
  length-Permᴰ (Permᴰ.trans p q) = length-Permᴰ p ∙ length-Permᴰ q

  module _ (before : A → A → Bool) where
    turned :
        {r q : A}
        → (before r q ≡ true) ⊎ (before q r ≡ true)
        → (before q r ≡ true) ⊎ (before r q ≡ true)
    turned (inl h) = inr h
    turned (inr h) = inl h

    Apart-Permᴰ : {xs ys : List A} → Permᴰ xs ys → Apart before xs → Apart before ys
    Apart-Permᴰ Permᴰ.nil h = tt
    Apart-Permᴰ (Permᴰ.cons x p) (first, h) =
        (λ q m. rw (← x) (first q ((In-Permᴰ p q).1 m)), Apart-Permᴰ p h)
    Apart-Permᴰ (Permᴰ.swap x y) (first, (second, h)) = (
      λ q m. elim m [
        | inl e ↦ rw (e, ← x, ← y) (turned (first _ (inl refl)))
        | inr n ↦ rw (← y) (second q n)
      ],
      (λ q m. rw (← x) (first q (inr m)), h),
    )
    Apart-Permᴰ (Permᴰ.trans p q) h = Apart-Permᴰ q (Apart-Permᴰ p h)

    -- Each row is before all that follow.
    Strict : List A → Type 0
    Strict [] = Unit {0}
    Strict (r ∷ rows) = ((q : A) → In q rows → before r q ≡ true) × Strict rows

    strict_lem : (rows : List A) → IsSorted before rows → Apart before rows → Strict rows
    unfolding Strict
    strict_lem [] s a = tt
    strict_lem (r ∷ rows) (last, s) (first, a) = (
      λ q m. elim (first q m) [ inl h ↦ h | inr h ↦ let k = last q m in cc ],
      strict_lem rows s a,
    )

    module _ (asymmetric : (r q : A) → before r q ≡ true → before q r ≡ true → ⊥) where
      same_members :
          (xs ys : List A) → Strict xs → Strict ys → ((a : A) → In a xs ↔ In a ys) → xs ≡ ys
      unfolding Strict
      same_members [] [] s t h = refl
      same_members [] (y ∷ ys) s t h = absurd ((h y).1 (inl refl))
      same_members (x ∷ xs) [] s t h = absurd ((h x).0 (inl refl))
      same_members (x ∷ xs) (y ∷ ys) (s, s') (t, t') h =
          let same : x ≡ y = elim ((h x).0 (inl refl)) [
            | inl e ↦ e
            | inr m ↦ elim ((h y).1 (inl refl)) [
              | inl e ↦ sym e
              | inr n ↦ absurd (asymmetric x y (s y n) (t x m))
            ]
          ] in
          let never : (a : A) → In a xs → a ≡ y → ⊥ = λ a m e.
            let k : before x a ≡ true = s a m in
            let loop : before x x ≡ true = rw (e ∙ sym same) at k in asymmetric x x loop loop in
          let never' : (a : A) → In a ys → a ≡ x → ⊥ = λ a m e.
            let k : before y a ≡ true = t a m in
            let loop : before y y ≡ true = rw (e ∙ same) at k in asymmetric y y loop loop in
          ap (λ z. z ∷ xs) same
          ∙ ap (λ zs. y ∷ zs)
              (same_members xs ys s' t' (λ a. (
                λ m. elim ((h a).0 (inr m)) [ inl e ↦ absurd (never a m e) | inr n ↦ n ],
                λ m. elim ((h a).1 (inr m)) [ inl e ↦ absurd (never' a m e) | inr n ↦ n ],
              )))

  asymmetric_lem :
      (column : A → Option ℕ) (direction : String) (r q : A)
      → earlier column direction r q ≡ true
      → earlier column direction q r ≡ true
      → ⊥
  asymmetric_lem column direction r q = by_direction (str_eq direction "desc")
    where
      by_direction :
          (b : Bool)
          → (if b then earlier_value (column q) (column r) else earlier_value (column r) (column q))
            ≡ true
          → (if b then earlier_value (column r) (column q) else earlier_value (column q) (column r))
            ≡ true
          → ⊥
      by_direction true h k = asymmetric_value (column q) (column r) h k
      by_direction false h k = asymmetric_value (column r) (column q) h k

  -- Two queries that order the same rows, without two of one value, answer alike.
  pub order_lem :
      (column : A → Option ℕ) (direction : String) (rows first second : List A)
      → Apart (earlier column direction) rows
      → IsOrder (earlier column direction) rows first
      → IsOrder (earlier column direction) rows second
      → first ≡ second
  order_lem column direction rows first second apart f g =
      let before = earlier column direction in
      same_members before (asymmetric_lem column direction) first second
        (strict_lem before first f.sorts (Apart-Permᴰ before f.permutes apart))
        (strict_lem before second g.sorts (Apart-Permᴰ before g.permutes apart))
        (λ a.
          let (h, k) = In-Permᴰ f.permutes a in
          let (i, j) = In-Permᴰ g.permutes a in (λ m. i (k m), λ m. h (j m)))
