-- ===== src/Verification/Keeps.antt =====
-- Every method keeps the table of tokens sound.
use heidi_microservices.Common.{
  ℕ, ◌≡◌, ◌≢◌, refl, inl, inr, Bool, true, false, ◌||◌, Option, none, some, List, String, arith,
  either, eq_iff, In, In-map, Bool-cases, Option-cases, if◌then◌else◌, ltb, leb,
}
use heidi_microservices.Common.Outcome.{
  Outcome, returned, thrown, unfinished, unprocessable, bad_request,
}
use heidi_microservices.Common.Action.{
  Action, continue, throw_when, pure, query, throw, ◌>>◌, ◌>>=◌,
}
use heidi_microservices.Database.{Table, IsTable, Effect, apply_where}
use heidi_microservices.Verification.{
  is_verified, is_cancelled, Token, Strategy, Event, SendDto, Verified, replaced_by, cancel_row,
  new_token, with_id, with_token, expire_row, verify_row, cancel_row_at, resend_dto, emitted,
  deliver, sent_answer, awaiting, still_valid, verification_sent, verified_answer,
  verification_verified, verification_cancelled, send_by, dispatch, send_verification, verify_found,
  verify_row_or, verify_token, cancel_found, cancel_row_or, cancel_verification,
  resend_verification,
}
use heidi_microservices.Verification.Invariant.{
  IsOk, IsSound, expire_row-IsOk, verify_row-IsOk, cancel_row-IsOk, cancel_row_at-IsOk,
  attempts_left, new_token-IsOk, IsSound-apply_where, IsSound-snoc,
}

replaced_open :
    (dto : SendDto) (r : Token) → replaced_by dto r ≡ true → is_verified r.status ≡ false
replaced_open dto r h = ground arith

module _ {S : Type 0} (table : Table S Token) (laws : IsTable table)
    (strategies : String → Option Strategy) (emit : Event → S → S)
    (quiet : (e : Event) (s : S) → table.rows (emit e s) ≡ table.rows s) (K : String → Type 0) where
  abbrev Sound : S → Type 0
  Sound s = IsSound K (table.rows s)

  Effect-Sound :
      {A : Type 0} (after : List Token) (s : S) (r : Outcome A × S)
      → Effect table.rows after s r
      → Sound s
      → IsSound K after
      → Sound r.1
  Effect-Sound after s (m, t) (inl (a, _, e)) h k = rw e k
  Effect-Sound after s (m, t) (inr (_, e)) h k = rw e h

  continue-Sound :
      {A B : Type 0} (r : Outcome A × S) (k : A → Action S B)
      → Sound r.1
      → ((a : A) (t : S) → Sound t → Sound (k a t).1)
      → Sound (continue k r).1
  continue-Sound (returned a, t) k h g = g a t h
  continue-Sound (thrown e, t) k h g = h
  continue-Sound (unfinished, t) k h g = h

  -- One part after another.
  then_Sound :
      {A B : Type 0} (m : Action S A) (k : Action S B) (s : S)
      → Sound (m s).1
      → ((t : S) → Sound t → Sound (k t).1)
      → Sound ((m >> k) s).1
  then_Sound m k s h g = continue-Sound (m s) (λ _. k) h (λ _. g)

  quiet_Sound : (e : Event) (s : S) → Sound s → Sound (emit e s)
  quiet_Sound e s h = rw (quiet e s) h

  -- An update of the row that was found.
  update_Sound :
      (row : Token) (f : Token → Token) (s : S)
      → ((r : Token) → (f r).id ≡ r.id)
      → ((r : Token) → (f r).token ≡ r.token)
      → ((r : Token) → r.is_used ≡ true → (f r).is_used ≡ true)
      → In row (table.rows s)
      → (IsOk row → IsOk (f row))
      → Sound s
      → Sound (table.update (with_id row) f s).1
  update_Sound row f s same_id same_token still m okay h =
      Effect-Sound _ s _ (laws.update_effect (with_id row) f s) h (
        IsSound-apply_where (with_id row) f (table.rows s) same_id same_token still
          (λ r i e k.
            let q : r ≡ row = h.ids r row i m ((eq_iff r.id row.id).0 e) in rw q (okay (rw q at k)))
          h)

  verify_found-Sound :
      (row : Token) (now : ℕ) (s : S)
      → In row (table.rows s)
      → Sound s
      → Sound (verify_found table strategies emit row now s).1
  unfolding verify_found
  verify_found-Sound row now s m h =
      let P = λ (a : Action S Verified). Sound (a s).1 in
      let okay = h.each row m in
      either P (row.is_used || is_verified row.status) (λ _. h)
        λ fresh.
          either P (is_cancelled row.status) (λ _. h)
            λ live.
              either P (ltb row.expires_at now)
                (λ _.
                  then_Sound (table.update (with_id row) expire_row)
                    (throw (unprocessable "VERIFICATION_TOKEN_EXPIRED")) s
                    (update_Sound row expire_row s (λ _. refl) (λ _. refl) (λ _ u. u) m
                      (λ k. expire_row-IsOk row k fresh) h)
                    (λ t k. k))
                λ timely.
                  either P (leb row.max_attempts row.attempts)
                    (λ over. absurd (cc (attempts_left row okay)))
                    λ _.
                      then_Sound (table.update (with_id row) (verify_row now))
                        (emitted table strategies emit
                            (verification_verified row.user_id row.type row.identifier)
                          >> pure (verified_answer row now))
                        s
                        (update_Sound row (verify_row now) s (λ _. refl) (λ _. refl) (λ _ _. refl) m
                          (λ k. verify_row-IsOk row k now fresh) h)
                        (λ t k.
                          quiet_Sound (verification_verified row.user_id row.type row.identifier) t
                            k)

  cancel_found-Sound :
      (row : Token) (now : ℕ) (s : S)
      → In row (table.rows s)
      → Sound s
      → Sound (cancel_found table strategies emit row now s).1
  unfolding cancel_found
  cancel_found-Sound row now s m h =
      let P = λ (a : Action S String). Sound (a s).1 in
      either P (is_verified row.status) (λ _. h)
        λ open_row.
          either P (is_cancelled row.status) (λ _. h)
            λ _.
              then_Sound (table.update (with_id row) (cancel_row_at now))
                (emitted table strategies emit
                    (verification_cancelled row.user_id row.type row.identifier)
                  >> pure "success.VERIFICATION_CANCELLED")
                s
                (update_Sound row (cancel_row_at now) s (λ _. refl) (λ _. refl) (λ _ u. u) m
                  (λ k. cancel_row_at-IsOk row k now open_row) h)
                (λ t k.
                  quiet_Sound (verification_cancelled row.user_id row.type row.identifier) t k)

  -- The state that follows a query is the one before it, and a row that it answers is in the table.
  find_Sound :
      {A : Type 0} (p : Token → Bool) (k : Option Token → Action S A) (s : S)
      → Sound s
      → Sound (k none s).1
      → ((row : Token) → In row (table.rows s) → Sound (k (some row) s).1)
      → Sound (continue k (table.find p s, s)).1
  find_Sound p k s h missing found = go (table.find p s) refl
    where
      go : (o : Outcome (Option Token)) → table.find p s ≡ o → Sound (continue k (o, s)).1
      go (returned none) e = missing
      go (returned (some row)) e = found row (laws.find_some p s row e).0
      go (thrown x) e = h
      go unfinished e = h

  pub verify_token-Sound :
      (token : String) (now : ℕ) (s : S)
      → Sound s
      → Sound (verify_token table strategies emit token now s).1
  unfolding verify_token verify_row_or
  verify_token-Sound token now s h =
      find_Sound (with_token token) _ s h h (λ row m. verify_found-Sound row now s m h)

  pub cancel_verification-Sound :
      (token : String) (now : ℕ) (s : S)
      → Sound s
      → Sound (cancel_verification table strategies emit token now s).1
  unfolding cancel_verification cancel_row_or
  cancel_verification-Sound token now s h =
      find_Sound (with_token token) _ s h h (λ row m. cancel_found-Sound row now s m h)

  -- The identifier and the text of a token, both drawn at random, are not in the table yet.
  abbrev pub IsFresh : String → String → S → Type 0
  IsFresh id token s = (r : Token) → In r (table.rows s) → (r.id ≢ id) × (r.token ≢ token)

  cancelled_IsFresh :
      (dto : SendDto) (id token : String) (s : S)
      → IsFresh id token s
      → (r : Token) → In r (apply_where (replaced_by dto) cancel_row (table.rows s))
      → (r.id ≢ id) × (r.token ≢ token)
  cancelled_IsFresh dto id token s fresh r m =
      let (q, i, e) =
        (In-map (λ r. if replaced_by dto r then cancel_row r else r) (table.rows s) r).0 m in
      let (a, b) = fresh q i in
      rw e (elim (Bool-cases (replaced_by dto q)) [ inl h ↦ rw h (a, b) | inr h ↦ rw h (a, b) ])

  -- The cancelling of the tokens that are replaced.
  replace_Sound :
      (dto : SendDto) (id token : String) (s : S) (r : Outcome ℕ × S)
      → Effect table.rows (apply_where (replaced_by dto) cancel_row (table.rows s)) s r
      → Sound s
      → IsFresh id token s
      → Sound r.1 × IsFresh id token r.1
  replace_Sound dto id token s (m, t) (inl (a, _, e)) h fresh = (
    rw e (
        IsSound-apply_where (replaced_by dto) cancel_row (table.rows s) (λ _. refl) (λ _. refl)
          (λ _ u. u) (λ r _ p k. cancel_row-IsOk r k (replaced_open dto r p)) h),
    λ r i. cancelled_IsFresh dto id token s fresh r (rw e at i),
  )
  replace_Sound dto id token s (m, t) (inr (_, e)) h fresh = (rw e h, λ r i. fresh r (rw e at i))

  continue_with :
      {A B : Type 0} (P : S → Type 0) (r : Outcome A × S) (k : A → Action S B)
      → P r.1
      → (P r.1 → Sound r.1)
      → ((a : A) (t : S) → P t → Sound (k a t).1)
      → Sound (continue k r).1
  continue_with P (returned a, t) k h w g = g a t h
  continue_with P (thrown e, t) k h w g = w h
  continue_with P (unfinished, t) k h w g = w h

  create_Sound :
      (n : Token) (s : S) → IsOk n → IsFresh n.id n.token s → Sound s → Sound (table.create n s).1
  create_Sound n s okay fresh h =
      Effect-Sound _ s _ (laws.create_effect n s) h (IsSound-snoc (table.rows s) n okay fresh h)

  deliver-Sound :
      (strategy : Strategy) (token : String) (language : Option String) (dto : SendDto)
      (row : Token) (s : S)
      → Sound s
      → Sound (deliver table strategies emit strategy token language dto row s).1
  unfolding deliver
  deliver-Sound strategy token language dto row s h =
      let event = verification_sent dto.user_id dto.type dto.identifier in
      then_Sound (query (λ s. strategy.send dto.identifier token dto.user_id))
        (emitted table strategies emit event >> pure (sent_answer language dto row)) s h
        (λ t k. quiet_Sound event t k)

  send_by-Sound :
      (strategy : Strategy) (id token : String) (language : Option String) (dto : SendDto) (now : ℕ)
      (s : S)
      → IsFresh id token s
      → Sound s
      → Sound (send_by table strategies emit strategy id token language dto now s).1
  unfolding send_by new_token
  send_by-Sound strategy id token language dto now s fresh h =
      let n = new_token id token language dto now in
      let create = table.create n >>= deliver table strategies emit strategy token language dto in
      let created = λ (t : S) (w : Sound t × IsFresh id token t).
        continue-Sound (table.create n t)
          (deliver table strategies emit strategy token language dto)
          (create_Sound n t (new_token-IsOk id token language dto now) w.1 w.0)
          (λ row. deliver-Sound strategy token language dto row) in
      elim (Bool-cases (strategy.validate_identifier dto.identifier)) [
        | inl e ↦ rw e (
            continue_with (λ t. Sound t × IsFresh id token t)
              (table.update_many (replaced_by dto) cancel_row s) (λ _. create)
              (replace_Sound dto id token s _
                (laws.update_many_effect (replaced_by dto) cancel_row s) h fresh)
              (λ w. w.0) (λ _ t w. created t w))
        | inr e ↦ rw e h
      ]

  pub send_verification-Sound :
      (id token : String) (language : Option String) (dto : SendDto) (now : ℕ) (s : S)
      → IsFresh id token s
      → Sound s
      → Sound (send_verification table strategies emit id token language dto now s).1
  unfolding send_verification dispatch
  send_verification-Sound id token language dto now s fresh h =
      elim (Option-cases (strategies dto.type)) [
        | inl e ↦ rw e h
        | inr (strategy, e) ↦ rw e (send_by-Sound strategy id token language dto now s fresh h)
      ]

  pub resend_verification-Sound :
      (id token : String) (language : Option String) (dto : SendDto) (now : ℕ) (s : S)
      → IsFresh id token s
      → Sound s
      → Sound (resend_verification table strategies emit id token language dto now s).1
  unfolding resend_verification
  resend_verification-Sound id token language dto now s fresh h =
      go (table.find_newest (awaiting dto) Token.created_at s)
    where
      sent :
          Sound (send_verification table strategies emit id token language (resend_dto dto) now s).1
      sent = send_verification-Sound id token language (resend_dto dto) now s fresh h

      go :
          (o : Outcome (Option Token))
          → Sound
              (continue
                (λ existing.
                  throw_when (still_valid existing now) (bad_request "VERIFICATION_ALREADY_SENT")
                  >> send_verification table strategies emit id token language (resend_dto dto) now)
                (o, s)).1
      go (returned existing) = elim (Bool-cases (still_valid existing now)) [
        | inl e ↦ rw e h
        | inr e ↦ rw e sent
      ]
      go (thrown e) = h
      go unfinished = h
