-- ===== src/Verification/Delivery.antt =====
-- A token that was sent can be used.
use heidi_microservices.Common.{
  ℕ, ◌+◌, ◌≤◌, ◌≡◌, refl, inl, inr, false, Option, none, some, [], ◌∷◌, ◌++◌, String, arith,
  str_eq_refl, eq_iff, In, In-append, Bool-cases, Option-cases, ltb,
}
use heidi_microservices.Common.Outcome.{Outcome, returned, thrown, unfinished}
use heidi_microservices.Common.Action.{Action, continue, ◌>>◌, ◌>>=◌, pure}
use heidi_microservices.Database.{Table, IsTable, Effect}
use heidi_microservices.Verification.{
  Token, Strategy, Event, SendDto, Sent, verification_sent, emitted, sent_answer, new_token,
  replaced_by, cancel_row, token_expiry, with_token, with_id, verify_row, deliver, send_by,
  dispatch, send_verification, verify_found, verify_row_or, verify_token,
}
use heidi_microservices.Verification.Invariant.{IsSound}
use heidi_microservices.Verification.Keeps.{IsFresh, send_verification-Sound}

module _ {S : Type 0} (table : Table S Token) (laws : IsTable table)
    (strategies : String → Option Strategy) (emit : Event → S → S)
    (quiet : (e : Event) (s : S) → table.rows (emit e s) ≡ table.rows s) where
  -- The end of a call leaves the table alone.
  deliver-rows :
      (strategy : Strategy) (token : String) (language : Option String) (dto : SendDto)
      (row : Token) (s : S)
      → table.rows (deliver table strategies emit strategy token language dto row s).1
        ≡ table.rows s
  unfolding deliver
  deliver-rows strategy token language dto row s =
      go (strategy.send dto.identifier token dto.user_id)
    where
      event : Event
      event = verification_sent dto.user_id dto.type dto.identifier

      go :
          (o : Outcome (Unit {0}))
          → table.rows
              (continue
                (λ _. emitted table strategies emit event >> pure (sent_answer language dto row))
                (o, s)).1
            ≡ table.rows s
      go (returned _) = quiet event s
      go (thrown e) = refl
      go unfinished = refl

  create_then :
      {A : Type 0} (n : Token) (s : S) (r : Outcome Token × S) (k : Token → Action S A) {a : A}
      → Effect table.rows (table.rows s ++ n ∷ []) s r
      → ((row : Token) (t : S) → table.rows (k row t).1 ≡ table.rows t)
      → (continue k r).0 ≡ returned a
      → In n (table.rows (continue k r).1)
  create_then n s (returned b, t) k (inl (_, _, e)) keeps h =
      rw (keeps b t, e) ((In-append n (table.rows s) (n ∷ [])).1 (inr (inl refl)))
  create_then n s (returned b, t) k (inr (never, _)) keeps h = absurd (never b refl)
  create_then n s (thrown e, t) k _ keeps h = cc
  create_then n s (unfinished, t) k _ keeps h = cc

  after_any :
      {A B : Type 0} (n : Token) (r : Outcome A × S) (m : Action S B) {b : B}
      → ((t : S) → (m t).0 ≡ returned b → In n (table.rows (m t).1))
      → (continue (λ (_ : A). m) r).0 ≡ returned b
      → In n (table.rows (continue (λ (_ : A). m) r).1)
  after_any n (returned a, t) m h k = h t k
  after_any n (thrown e, t) m h k = cc
  after_any n (unfinished, t) m h k = cc

  -- A call of `sendVerification` that returns has stored the new row.
  send_verification-In :
      (id token : String) (language : Option String) (dto : SendDto) (now : ℕ) (s : S) {a : Sent}
      → (send_verification table strategies emit id token language dto now s).0 ≡ returned a
      → In
          (new_token id token language dto now)
          (table.rows (send_verification table strategies emit id token language dto now s).1)
  unfolding send_verification dispatch send_by
  send_verification-In id token language dto now s h = elim (Option-cases (strategies dto.type)) [
    | inl e ↦ let k = rw e at h in cc
    | inr (strategy, e) ↦ elim (Bool-cases (strategy.validate_identifier dto.identifier)) [
      | inl v ↦
          rw (e, v)
            (after_any n (table.update_many (replaced_by dto) cancel_row s)
              (table.create n >>= deliver table strategies emit strategy token language dto)
              (λ t k.
                create_then n t (table.create n t)
                  (deliver table strategies emit strategy token language dto)
                  (laws.create_effect n t) (deliver-rows strategy token language dto) k)
              (rw (e, v) at h))
      | inr v ↦ let k = rw (e, v) at h in cc
    ]
  ]
    where
      n : Token
      n = new_token id token language dto now

  then_returned :
      {A B : Type 0} (r : Outcome A × S) (k : Action S B) {a : A} {b : B}
      → r.0 ≡ returned a
      → ((t : S) → (k t).0 ≡ returned b)
      → (continue (λ _. k) r).0 ≡ returned b
  then_returned (returned a, t) k h g = g t
  then_returned (thrown e, t) k h g = cc
  then_returned (unfinished, t) k h g = cc

  still_live : (later end : ℕ) → later ≤ end → ltb end later ≡ false
  still_live later end h = ground arith

  found_new :
      (n : Token) (t : S) (o : Option Token) {K : String → Type 0}
      → table.find (with_token n.token) t ≡ returned o
      → IsSound K (table.rows t)
      → In n (table.rows t)
      → o ≡ some n
  found_new n t none f sound m =
      let missing = laws.find_none (with_token n.token) t f n m in
      let present = str_eq_refl n.token in cc
  found_new n t (some row) f sound m =
      let (i, h) = laws.find_some (with_token n.token) t row f in
      rw (sound.tokens row n i m ((eq_iff row.token n.token).0 h))

  -- On a sound table, a token that `sendVerification` has just sent is verified by a call within
  -- the day, with the user and the address that it was sent for, if the table answers both queries
  -- of that call.
  pub sent_then_verified :
      {K : String → Type 0} (id token : String) (language : Option String) (dto : SendDto)
      (now later : ℕ) (s : S) (a : Sent) (found : Option Token) (updated : Token)
      → IsSound K (table.rows s)
      → IsFresh table laws strategies emit quiet K id token s
      → (send_verification table strategies emit id token language dto now s).0 ≡ returned a
      → later ≤ now + token_expiry
      → table.find
          (with_token token)
          (send_verification table strategies emit id token language dto now s).1
        ≡ returned found
      → (table.update
          (with_id (new_token id token language dto now))
          (verify_row later)
          (send_verification table strategies emit id token language dto now s).1).0
        ≡ returned updated
      → (verify_token table strategies emit token later
          (send_verification table strategies emit id token language dto now s).1).0
        ≡ returned (record {
          type = dto.type;
          identifier = dto.identifier;
          user_id = dto.user_id;
          verified_at = later;
        })
  unfolding verify_token verify_row_or verify_found new_token
  sent_then_verified {K} id token language dto now later s a found updated sound fresh h day f u =
      let n = new_token id token language dto now in
      let t = (send_verification table strategies emit id token language dto now s).1 in
      let kept =
        send_verification-Sound table laws strategies emit quiet K id token language dto now s fresh
          sound in
      let same = found_new n t found f kept (send_verification-In id token language dto now s h) in
      let live = still_live later (now + token_expiry) day in
      rw (f, same, live)
        (then_returned (table.update (with_id n) (verify_row later) t) _ u (λ _. refl))
