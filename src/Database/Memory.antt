-- ===== src/Database/Memory.antt =====
-- A table that is a part of a state kept in memory, and answers every query.
use heidi_microservices.Common.{
  ℕ, ◌≤◌, ◌≡◌, refl, sym, ◌∙◌, inl, inr, Bool, true, false, Option, none, some, List, [], ◌∷◌, ◌++◌,
  arith, In, select, length, leb, Bool-cases, either, if◌then◌else◌,
}
use mathlib.Core.Path.{subst}
use mathlib.Core.Bool.{false≢true}
use heidi_microservices.Common.Outcome.{Outcome, returned, thrown, failure}
use heidi_microservices.Database.{Table, IsTable, Effect, apply_where}

pub some-inj : {A : Type 0} (a b : A) → some a ≡ some b → a ≡ b
some-inj a b h = cc

returned-inj : {A : Type 0} {a b : A} → returned a ≡ returned b → a ≡ b
returned-inj h = cc

module _ {Row : Type 0} (p : Row → Bool) where
  abbrev first : List Row → Option Row
  first [] = none
  first (r ∷ rs) = if p r then some r else first rs

  first-some : (rs : List Row) (r : Row) → first rs ≡ some r → In r rs × (p r ≡ true)
  first-some [] r h = cc
  first-some (q ∷ rs) r h = elim (Bool-cases (p q)) [
    | inl e ↦ let same = some-inj q r (rw e at h) in (inl (sym same), rw (← same) e)
    | inr e ↦ let (m, k) = first-some rs r (rw e at h) in (inr m, k)
  ]

  first-none : (rs : List Row) → first rs ≡ none → (r : Row) → In r rs → p r ≡ false
  first-none [] h r m = absurd m
  first-none (q ∷ rs) h r m = elim (Bool-cases (p q)) [
    | inl e ↦ let k : some q ≡ none = rw e at h in cc
    | inr e ↦ elim m [ inl same ↦ rw same e | inr n ↦ first-none rs (rw e at h) r n ]
  ]

  module _ (key : Row → ℕ) where
    abbrev newer : Row → Option Row → Row
    newer r none = r
    newer r (some q) = if leb (key q) (key r) then r else q

    abbrev newest : List Row → Option Row
    newest [] = none
    newest (r ∷ rs) = let rest = newest rs in if p r then some (newer r rest) else rest

    newest-none : (rs : List Row) → newest rs ≡ none → (r : Row) → In r rs → p r ≡ false
    newest-none [] h r m = absurd m
    newest-none (q ∷ rs) h r m = elim (Bool-cases (p q)) [
      | inl e ↦ let k : some (newer q (newest rs)) ≡ none = rw e at h in cc
      | inr e ↦ elim m [ inl same ↦ rw same e | inr n ↦ newest-none rs (rw e at h) r n ]
    ]

    -- The newest of the rows that pass the test.
    abbrev Newest : List Row → Row → Type 0
    Newest rs t = In t rs × (p t ≡ true) × ((q : Row) → In q rs → p q ≡ true → key q ≤ key t)

    newer_lem :
        (r : Row) (rs : List Row) (o : Option Row)
        → p r ≡ true
        → newest rs ≡ o
        → ((t : Row) → o ≡ some t → Newest rs t)
        → Newest (r ∷ rs) (newer r o)
    newer_lem r rs none e h rec = (
      inl refl,
      e,
      λ q m k. elim m [
        | inl same ↦ rw same (omega arith)
        | inr n ↦ absurd (let z = newest-none rs h q n in false≢true (sym z ∙ k))
      ],
    )
    newer_lem r rs (some t) e h rec =
        let (m, k, g) = rec t refl in
        either (Newest (r ∷ rs)) (leb (key t) (key r))
          (λ b. (
            inl refl,
            e,
            λ q n z. elim n [
              | inl same ↦ rw same (omega arith)
              | inr i ↦ let y = g q i z in ground (arith, b, y)
            ],
          ))
          (λ b. (
            inr m,
            k,
            λ q n z. elim n [ inl same ↦ rw same (ground (arith, b)) | inr i ↦ g q i z ],
          ))

    newest-some : (rs : List Row) (t : Row) → newest rs ≡ some t → Newest rs t
    newest-some [] t h = cc
    newest-some (r ∷ rs) t h = elim (Bool-cases (p r)) [
      | inl e ↦
          let same : newer r (newest rs) ≡ t = some-inj (newer r (newest rs)) t (rw e at h) in
          subst (λ x. Newest (r ∷ rs) x) same (newer_lem r rs (newest rs) e refl (newest-some rs))
      | inr e ↦
          let (m, k, g) = newest-some rs t (rw e at h) in
          (
            inr m,
            k,
            λ q n z. elim n [
              | inl same ↦ absurd (false≢true (sym (rw same e) ∙ z))
              | inr i ↦ g q i z
            ],
          )
    ]

module _ {S Row : Type 0} (rows : S → List Row) (put : List Row → S → S)
    (rows-put : (rs : List Row) (s : S) → rows (put rs s) ≡ rs) where
  -- `update` fails when no row has the key.
  abbrev update_first : (Row → Bool) → (Row → Row) → Option Row → S → Outcome Row × S
  update_first p f none s = (thrown (failure "Record to update not found."), s)
  update_first p f (some r) s = (returned (f r), put (apply_where p f (rows s)) s)

  abbrev pub memory : Table S Row
  memory = record {
    rows = rows;
    find = λ p s. returned (first p (rows s));
    find_newest = λ p key s. returned (newest p key (rows s));
    find_many = λ p s. returned (select p (rows s));
    create = λ r s. (returned r, put (rows s ++ r ∷ []) s);
    update = λ p f s. update_first p f (first p (rows s)) s;
    update_many =
        λ p f s. (returned (length (select p (rows s))), put (apply_where p f (rows s)) s);
  }

  update_first-Effect :
      (p : Row → Bool) (f : Row → Row) (o : Option Row) (s : S)
      → Effect rows (apply_where p f (rows s)) s (update_first p f o s)
  update_first-Effect p f none s = inr (λ a h. cc, refl)
  update_first-Effect p f (some r) s = inl (f r, refl, rows-put (apply_where p f (rows s)) s)

  pub memory-IsTable : IsTable memory
  memory-IsTable = record {
    find_some = λ p s r h. first-some p (rows s) r (returned-inj h);
    find_none = λ p s h. first-none p (rows s) (returned-inj h);
    newest_some = λ p key s r h. newest-some p key (rows s) r (returned-inj h);
    newest_none = λ p key s h. newest-none p key (rows s) (returned-inj h);
    create_effect = λ r s. inl (r, refl, rows-put (rows s ++ r ∷ []) s);
    create_row = λ r q s h. sym (returned-inj h);
    update_effect = λ p f s. update_first-Effect p f (first p (rows s)) s;
    update_many_effect =
        λ p f s. inl (length (select p (rows s)), refl, rows-put (apply_where p f (rows s)) s);
  }
