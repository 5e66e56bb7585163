-- ===== src/Terms/Latest/Runs.antt =====
-- Sequences of calls of the terms service.
use heidi_microservices.Common.{
  ℕ, ◌≡◌, ◌≢◌, refl, sym, ◌∙◌, ap, inl, inr, Bool, true, false, Option, none, some, List, String,
  eq_iff, In, In-map, Bool-cases, or_else, if◌then◌else◌,
}
use heidi_microservices.Common.Outcome.{Outcome, returned, thrown, unfinished}
use heidi_microservices.Common.Action.{Action, continue}
use heidi_microservices.Database.{Table, IsTable, Effect, apply_where}
use heidi_microservices.Terms.{
  Terms, UserTermsAcceptance, CreateTermsDto, UpdateTermsDto, AcceptTermsDto, with_terms_id,
  accepted_by, unmark, latest_of, other_latest, edited, version_for, new_terms, new_acceptance,
}
use heidi_microservices.Terms.Changes.{
  update_when, create_unless, create_terms, update_found, update_terms, accept_new, accept_found,
  accept_terms,
}
use heidi_microservices.Terms.Latest.{
  IsOrderly, Cleared, same_city_iff, IsOrderly-apply_where, unmark-IsOrderly, unmark-Cleared,
  IsOrderly-snoc,
}

was_latest : (o : Option Bool) (b : Bool) → or_else o b ≡ true → or_else o false ≡ false → b ≡ true
was_latest none b h k = h
was_latest (some true) b h k = cc
was_latest (some false) b h k = cc

module _ {S : Type 0} (terms : Table S Terms) (acceptances : Table S UserTermsAcceptance)
    (default_days : ℕ) (laws : IsTable terms)
    (apart : (r : UserTermsAcceptance) (s : S)
      → terms.rows (acceptances.create r s).1 ≡ terms.rows s) where
  abbrev Orderly : S → Type 0
  Orderly s = IsOrderly (terms.rows s)

  -- A write, and then another part of the method.
  write_then :
      {A B : Type 0} (after : List Terms) (s : S) (r : Outcome A × S) (k : Action S B)
      → Effect terms.rows after s r
      → Orderly s
      → IsOrderly after
      → ((t : S) → terms.rows t ≡ after → Orderly (k t).1)
      → Orderly (continue (λ _. k) r).1
  write_then after s (returned a, t) k (inl (_, _, e)) h i g = g t e
  write_then after s (returned a, t) k (inr (n, e)) h i g = absurd (n a refl)
  write_then after s (thrown x, t) k (inl (_, _, e)) h i g = rw e i
  write_then after s (thrown x, t) k (inr (_, e)) h i g = rw e h
  write_then after s (unfinished, t) k (inl (_, _, e)) h i g = rw e i
  write_then after s (unfinished, t) k (inr (_, e)) h i g = rw e h

  write :
      {A : Type 0} (after : List Terms) (s : S) (r : Outcome A × S)
      → Effect terms.rows after s r
      → Orderly s
      → IsOrderly after
      → Orderly r.1
  write after s (m, t) (inl (_, _, e)) h i = rw e i
  write after s (m, t) (inr (_, e)) h i = rw e h

  find_then :
      {A : Type 0} (p : Terms → Bool) (k : Option Terms → Action S A) (s : S)
      → Orderly s
      → Orderly (k none s).1
      → ((row : Terms) → In row (terms.rows s) → p row ≡ true → Orderly (k (some row) s).1)
      → Orderly (continue k (terms.find p s, s)).1
  find_then p k s h missing found = go (terms.find p s) refl
    where
      go : (o : Outcome (Option Terms)) → terms.find p s ≡ o → Orderly (continue k (o, s)).1
      go (returned none) e = missing
      go (returned (some row)) e = let (m, h) = laws.find_some p s row e in found row m h
      go (thrown x) e = h
      go unfinished e = h

  -- An identifier, drawn at random, that is not in the table yet.
  abbrev pub IsNewId : String → S → Type 0
  IsNewId id s = (r : Terms) → In r (terms.rows s) → r.id ≢ id

  -- The rows after the first update keep their identifiers.
  unmark_ids :
      (p : Terms → Bool) (id : String) (rows : List Terms)
      → ((r : Terms) → In r rows → r.id ≢ id)
      → (r : Terms) → In r (apply_where p unmark rows)
      → r.id ≢ id
  unmark_ids p id rows fresh r m =
      let (q, i, a) = (In-map (λ t. if p t then unmark t else t) rows r).0 m in
      let new = fresh q i in rw a (elim (Bool-cases (p q)) [ inl h ↦ rw h new | inr h ↦ rw h new ])

  latest_of-true :
      (locale : String) (city : Option String) (r : Terms)
      → r.is_latest ≡ true
      → r.locale ≡ locale
      → r.city_id ≡ city
      → latest_of locale city r ≡ true
  latest_of-true locale city r l e c =
      rw (l, (eq_iff r.locale locale).1 e, (same_city_iff r.city_id city).1 c)

  -- The row that is created, after the others of its locale and city are unmarked if it is to be
  -- the latest.
  create_rest :
      (n : Terms) (latest : Bool) (s : S)
      → n.is_latest ≡ latest
      → IsNewId n.id s
      → Orderly s
      → Orderly
          (continue
            (λ _. terms.create n)
            (update_when terms acceptances default_days latest
              (latest_of n.locale n.city_id)
              unmark
              s)).1
  unfolding update_when
  create_rest n false s l fresh h =
      write _ s _ (laws.create_effect n s) h (IsOrderly-snoc (terms.rows s) n fresh (λ k. cc) h)
  create_rest n true s l fresh h =
      let p = latest_of n.locale n.city_id in
      let unmarked = unmark-IsOrderly p (terms.rows s) h in
      write_then _ s _ _ (laws.update_many_effect p unmark s) h unmarked λ t same.
        write _ t _ (laws.create_effect n t) (rw same unmarked) (
          rw same (
            IsOrderly-snoc (apply_where p unmark (terms.rows s)) n
              (unmark_ids p n.id (terms.rows s) fresh)
              (λ _.
                unmark-Cleared p (terms.rows s) n.id n.locale n.city_id
                  (λ r _. latest_of-true n.locale n.city_id r))
              unmarked))

  create_terms-Orderly :
      (id : String) (now : ℕ) (dto : CreateTermsDto) (by : Option String) (s : S)
      → IsNewId id s
      → Orderly s
      → Orderly (create_terms terms acceptances default_days id now dto by s).1
  unfolding create_terms create_unless
  create_terms-Orderly id now dto by s fresh h =
      find_then (version_for dto.version dto.locale dto.city_id) _ s h
        (create_rest (new_terms default_days id now dto by) (or_else dto.is_latest false) s refl
          fresh h)
        (λ _ _ _. h)

  -- An update of the row `t`, with the others of its locale and city unmarked if it is to be the
  -- latest.
  module _ (t : Terms) (dto : UpdateTermsDto) (rows : List Terms)
      (clear : or_else dto.is_latest false ≡ true → Cleared rows t.id t.locale t.city_id)
      (kept : (r : Terms)
        → In r rows
        → r.id ≡ t.id
        → (r.locale ≡ t.locale) × (r.city_id ≡ t.city_id))
      (h : IsOrderly rows) where
    abbrev edit : Terms → Terms
    edit r = if with_terms_id t.id r then edited dto r else r

    -- The row that was edited against another.
    edited_alone :
        (q r : Terms)
        → In q rows
        → In r rows
        → q.id ≡ t.id
        → r.id ≢ t.id
        → or_else dto.is_latest q.is_latest ≡ true
        → r.is_latest ≡ true
        → q.locale ≡ r.locale
        → q.city_id ≡ r.city_id
        → q ≡ r
    edited_alone q r i j a b l k e c =
        let (x, y) = kept q i a in
        elim (Bool-cases (or_else dto.is_latest false)) [
          | inl g ↦ absurd (clear g r j b k (sym e ∙ x) (sym c ∙ y))
          | inr g ↦ h.single q r i j (was_latest dto.is_latest q.is_latest l g) k e c
        ]

    edit_Orderly : IsOrderly (apply_where (with_terms_id t.id) (edited dto) rows)
    edit_Orderly =
        IsOrderly-apply_where (with_terms_id t.id) (edited dto) rows (λ _. refl) (λ _. refl)
          (λ _. refl) alone h
      where
        is_t : (r : Terms) → with_terms_id t.id r ≡ true → r.id ≡ t.id
        is_t r = (eq_iff r.id t.id).0

        not_t : (r : Terms) → with_terms_id t.id r ≡ false → r.id ≢ t.id
        not_t r e x = let y = (eq_iff r.id t.id).1 x in cc

        alone :
            (q r : Terms)
            → In q rows
            → In r rows
            → (edit q).is_latest ≡ true
            → (edit r).is_latest ≡ true
            → q.locale ≡ r.locale
            → q.city_id ≡ r.city_id
            → q ≡ r
        alone q r i j l k e c = elim (Bool-cases (with_terms_id t.id q)) [
          | inl a ↦ elim (Bool-cases (with_terms_id t.id r)) [
            | inl b ↦ h.ids q r i j (is_t q a ∙ sym (is_t r b))
            | inr b ↦ edited_alone q r i j (is_t q a) (not_t r b) (rw a at l) (rw b at k) e c
          ]
          | inr a ↦ elim (Bool-cases (with_terms_id t.id r)) [
            | inl b ↦ sym (
                edited_alone r q j i (is_t r b) (not_t q a) (rw b at k) (rw a at l) (sym e) (sym c))
            | inr b ↦ h.single q r i j (rw a at l) (rw b at k) e c
          ]
        ]

  other_latest-true :
      (t r : Terms)
      → r.id ≢ t.id
      → r.is_latest ≡ true
      → r.locale ≡ t.locale
      → r.city_id ≡ t.city_id
      → other_latest t r ≡ true
  other_latest-true t r n l e c = elim (Bool-cases (with_terms_id t.id r)) [
    | inl a ↦ absurd (n ((eq_iff r.id t.id).0 a))
    | inr a ↦ rw (latest_of-true t.locale t.city_id r l e c, a)
  ]

  -- A row that has the identifier of `t` has its locale and its city.
  kept_by :
      (t : Terms) (rows : List Terms)
      → IsOrderly rows
      → In t rows
      → (r : Terms) → In r rows
      → r.id ≡ t.id
      → (r.locale ≡ t.locale) × (r.city_id ≡ t.city_id)
  kept_by t rows h m r i e =
      let same : r ≡ t = h.ids r t i m e in (ap (λ x. x.locale) same, ap (λ x. x.city_id) same)

  unmarked_kept_by :
      (p : Terms → Bool) (t : Terms) (rows : List Terms)
      → IsOrderly rows
      → In t rows
      → (r : Terms) → In r (apply_where p unmark rows)
      → r.id ≡ t.id
      → (r.locale ≡ t.locale) × (r.city_id ≡ t.city_id)
  unmarked_kept_by p t rows h m r i =
      let (q, j, a) = (In-map (λ x. if p x then unmark x else x) rows r).0 i in
      let k = kept_by t rows h m q j in
      rw a (elim (Bool-cases (p q)) [ inl g ↦ rw g k | inr g ↦ rw g k ])

  update_rest :
      (t : Terms) (dto : UpdateTermsDto) (latest : Bool) (s : S)
      → or_else dto.is_latest false ≡ latest
      → In t (terms.rows s)
      → Orderly s
      → Orderly
          (continue
            (λ _. terms.update (with_terms_id t.id) (edited dto))
            (update_when terms acceptances default_days latest (other_latest t) unmark s)).1
  unfolding update_when
  update_rest t dto false s l m h =
      write _ s _ (laws.update_effect (with_terms_id t.id) (edited dto) s) h
        (edit_Orderly t dto (terms.rows s) (λ k. cc) (kept_by t (terms.rows s) h m) h)
  update_rest t dto true s l m h =
      let p = other_latest t in
      let unmarked = unmark-IsOrderly p (terms.rows s) h in
      write_then _ s _ _ (laws.update_many_effect p unmark s) h unmarked λ u same.
        write _ u _ (laws.update_effect (with_terms_id t.id) (edited dto) u) (rw same unmarked) (
          rw same (
            edit_Orderly t dto (apply_where p unmark (terms.rows s))
              (λ _. unmark-Cleared p (terms.rows s) t.id t.locale t.city_id (other_latest-true t))
              (unmarked_kept_by p t (terms.rows s) h m) unmarked))

  update_terms-Orderly :
      (id : String) (dto : UpdateTermsDto) (s : S)
      → Orderly s
      → Orderly (update_terms terms acceptances default_days id dto s).1
  unfolding update_terms update_found
  update_terms-Orderly id dto s h =
      find_then (with_terms_id id) _ s h h
        (λ t m _. update_rest t dto (or_else dto.is_latest false) s refl m h)

  accept_terms-Orderly :
      (id : String) (now : ℕ) (user : String) (dto : AcceptTermsDto) (ip agent : Option String)
      (s : S)
      → Orderly s
      → Orderly (accept_terms terms acceptances default_days id now user dto ip agent s).1
  unfolding accept_terms accept_found accept_new
  accept_terms-Orderly id now user dto ip agent s h =
      find_then (with_terms_id dto.terms_id) _ s h h (λ t m _. elim (Bool-cases t.is_active) [
        | inl e ↦ rw e (accepted t (acceptances.find (accepted_by user t.id) s))
        | inr e ↦ rw e h
      ])
    where
      accepted :
          (t : Terms) (o : Outcome (Option UserTermsAcceptance))
          → Orderly
              (continue
                (accept_new terms acceptances default_days id now user dto ip agent t)
                (o, s)).1
      accepted t (returned none) = rw (apart (new_acceptance id now user dto ip agent t) s) h
      accepted t (returned (some a)) = h
      accepted t (thrown e) = h
      accepted t unfinished = h

  -- One call of the service that may write, at any time and with any arguments.
  pub data Call (s : S) : S → Type 0 where
    create :
        (id : String) (now : ℕ) (dto : CreateTermsDto) (by : Option String)
        → IsNewId id s
        → Call s (create_terms terms acceptances default_days id now dto by s).1
    update :
        (id : String) (dto : UpdateTermsDto)
        → Call s (update_terms terms acceptances default_days id dto s).1
    accept :
        (id : String) (now : ℕ) (user : String) (dto : AcceptTermsDto) (ip agent : Option String)
        → Call s (accept_terms terms acceptances default_days id now user dto ip agent s).1

  pub data Run (s : S) : S → Type 0 where
    start : Run s s
    call : {t u : S} → Run s t → Call t u → Run s u

  Call-IsOrderly : {s t : S} → Call s t → Orderly s → Orderly t
  Call-IsOrderly {s} (create id now dto by new) h = create_terms-Orderly id now dto by s new h
  Call-IsOrderly {s} (update id dto) h = update_terms-Orderly id dto s h
  Call-IsOrderly {s} (accept id now user dto ip agent) h =
      accept_terms-Orderly id now user dto ip agent s h

  -- Any sequence of calls, each ending before the next begins, keeps it so that no two rows have
  -- the same identifier or are the latest for the same locale and city, also when a write of a
  -- call fails. New identifiers are not in the table yet.
  pub Run-IsOrderly : {s t : S} → Run s t → IsOrderly (terms.rows s) → IsOrderly (terms.rows t)
  Run-IsOrderly start h = h
  Run-IsOrderly (call r c) h = Call-IsOrderly c (Run-IsOrderly r h)
