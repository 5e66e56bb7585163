-- ===== src/Terms/Latest.antt =====
-- Which terms are the latest ones of a locale and a city.
pub mod Runs
use heidi_microservices.Common.{
  ℕ, ◌≡◌, ◌≢◌, refl, sym, ◌∙◌, ap, ◌⊎◌, inl, inr, ◌↔◌, Bool, true, false, not, Option, none, some,
  List, [], ◌∷◌, ◌++◌, String, arith, str_eq, eq_iff, In, In-map, In-append, Bool-cases, or_else,
  if◌then◌else◌,
}
use heidi_microservices.Database.{apply_where}
use heidi_microservices.Terms.{
  Terms, UpdateTermsDto, same_city, for_city, with_terms_id, unmark, latest_of, other_latest,
  edited,
}

-- No two rows have the same identifier, and no two are the latest for the same locale and city.
pub record IsOrderly (rows : List Terms) : Type 0 where
  pub ids : (q r : Terms) → In q rows → In r rows → q.id ≡ r.id → q ≡ r
  pub single :
      (q r : Terms)
      → In q rows
      → In r rows
      → q.is_latest ≡ true
      → r.is_latest ≡ true
      → q.locale ≡ r.locale
      → q.city_id ≡ r.city_id
      → q ≡ r

pub same_city_iff : (a b : Option String) → (same_city a b ≡ true) ↔ (a ≡ b)
same_city_iff none none = (λ _. refl, λ _. refl)
same_city_iff (some a) none = (λ h. cc, λ h. cc)
same_city_iff none (some b) = (λ h. cc, λ h. cc)
same_city_iff (some a) (some b) = (λ h. ap some ((eq_iff a b).0 h), λ h. (eq_iff a b).1 (cc))

-- No row other than that of `id` is the latest for the locale and the city.
abbrev pub Cleared : List Terms → String → String → Option String → Type 0
Cleared rows id locale city =
    (r : Terms)
    → In r rows
    → r.id ≢ id
    → r.is_latest ≡ true
    → r.locale ≡ locale
    → r.city_id ≡ city
    → ⊥

module _ (p : Terms → Bool) (f : Terms → Terms) (rows : List Terms)
    (same_id : (r : Terms) → (f r).id ≡ r.id) (same_locale : (r : Terms) → (f r).locale ≡ r.locale)
    (city_same : (r : Terms) → (f r).city_id ≡ r.city_id) where
  abbrev changed : Terms → Terms
  changed r = if p r then f r else r

  -- A field that `f` keeps.
  keeps :
      {A : Type 0} (key : Terms → A)
      → ((r : Terms) → key (f r) ≡ key r)
      → (r : Terms) → key (changed r) ≡ key r
  keeps key same r = elim (Bool-cases (p r)) [ inl h ↦ rw h (same r) | inr h ↦ rw h ]

  -- Rows that are the latest only if they were, or alone in their locale and city.
  pub IsOrderly-apply_where :
      ((q r : Terms)
        → In q rows
        → In r rows
        → (changed q).is_latest ≡ true
        → (changed r).is_latest ≡ true
        → q.locale ≡ r.locale
        → q.city_id ≡ r.city_id
        → q ≡ r)
      → IsOrderly rows
      → IsOrderly (apply_where p f rows)
  IsOrderly-apply_where alone orderly = record {
    ids = λ q r m n e.
        let (q', i, a) = (In-map changed rows q).0 m in
        let (r', j, b) = (In-map changed rows r).0 n in
        let u = keeps (λ t. t.id) same_id q' in
        let v = keeps (λ t. t.id) same_id r' in
        let same : q' ≡ r' = orderly.ids q' r' i j (cc) in a ∙ (ap changed same ∙ sym b);
    single = λ q r m n l k e c.
        let (q', i, a) = (In-map changed rows q).0 m in
        let (r', j, b) = (In-map changed rows r).0 n in
        let u = keeps (λ t. t.locale) same_locale q' in
        let v = keeps (λ t. t.locale) same_locale r' in
        let x = keeps (λ t. t.city_id) city_same q' in
        let y = keeps (λ t. t.city_id) city_same r' in
        let same : q' ≡ r' = alone q' r' i j (rw a at l) (rw b at k) (cc) (cc) in
        a ∙ (ap changed same ∙ sym b);
  }

-- Rows that are not the latest any more.
module _ (p : Terms → Bool) (rows : List Terms) where
  changed_latest : (r : Terms) → (if p r then unmark r else r).is_latest ≡ true → r.is_latest ≡ true
  changed_latest r h = ground arith

  pub unmark-IsOrderly : IsOrderly rows → IsOrderly (apply_where p unmark rows)
  unmark-IsOrderly orderly =
      IsOrderly-apply_where p unmark rows (λ _. refl) (λ _. refl) (λ _. refl)
        (λ q r i j l k. orderly.single q r i j (changed_latest q l) (changed_latest r k)) orderly

  pub unmark-Cleared :
      (id locale : String) (city : Option String)
      → ((r : Terms)
          → r.id ≢ id
          → r.is_latest ≡ true
          → r.locale ≡ locale
          → r.city_id ≡ city
          → p r ≡ true)
      → Cleared (apply_where p unmark rows) id locale city
  unmark-Cleared id locale city covers r m n l e c =
      let (q, i, a) = (In-map (λ t. if p t then unmark t else t) rows r).0 m in
      elim (Bool-cases (p q)) [
        | inl h ↦
            let gone : r ≡ unmark q = rw h at a in
            let off : r.is_latest ≡ false = ap (λ t. t.is_latest) gone in cc
        | inr h ↦
            let same : r ≡ q = rw h at a in
            let on : p q ≡ true = covers q (λ x. n (ap (λ t. t.id) same ∙ x)) (cc) (cc) (cc) in cc
      ]

pub IsOrderly-snoc :
    (rows : List Terms) (n : Terms)
    → ((r : Terms) → In r rows → r.id ≢ n.id)
    → (n.is_latest ≡ true → Cleared rows n.id n.locale n.city_id)
    → IsOrderly rows
    → IsOrderly (rows ++ n ∷ [])
IsOrderly-snoc rows n fresh clear orderly = record {
  ids = λ q r m k e.
      pair q r m k (λ i j. orderly.ids q r i j e) (λ i h. fresh q i (cc)) (λ i h. fresh r i (cc));
  single = λ q r m k l h e c.
      pair q r m k (λ i j. orderly.single q r i j l h e c)
        (λ i a. clear (cc) q i (fresh q i) l (cc) (cc))
        (λ i a. clear (cc) r i (fresh r i) h (cc) (cc));
}
  where
    pair :
        (q r : Terms)
        → In q (rows ++ n ∷ [])
        → In r (rows ++ n ∷ [])
        → (In q rows → In r rows → q ≡ r)
        → (In q rows → r ≡ n → ⊥)
        → (In r rows → q ≡ n → ⊥)
        → q ≡ r
    pair q r m k both left right = elim ((In-append q rows (n ∷ [])).0 m) [
      | inl i ↦ elim ((In-append r rows (n ∷ [])).0 k) [
        | inl j ↦ both i j
        | inr b ↦ elim b [ inl h ↦ absurd (left i h) | inr h ↦ absurd h ]
      ]
      | inr a ↦ elim a [
        | inr h ↦ absurd h
        | inl g ↦ elim ((In-append r rows (n ∷ [])).0 k) [
          | inl j ↦ absurd (right j g)
          | inr b ↦ elim b [ inl h ↦ g ∙ sym h | inr h ↦ absurd h ]
        ]
      ]
    ]
