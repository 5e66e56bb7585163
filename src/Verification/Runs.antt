-- ===== src/Verification/Runs.antt =====
-- Sequences of calls of the verification service.
use heidi_microservices.Common.{ℕ, ◌≡◌, ◌≢◌, List, [], Option, String, refl}
use heidi_microservices.Common.Outcome.{returned}
use heidi_microservices.Database.{Table, IsTable}
use heidi_microservices.Verification.{
  Token, Strategy, Event, SendDto, Verified, send_verification, verify_token, cancel_verification,
  resend_verification,
}
use heidi_microservices.Verification.Invariant.{IsSound, IsSpent}
use heidi_microservices.Verification.Keeps.{
  IsFresh, verify_token-Sound, cancel_verification-Sound, send_verification-Sound,
  resend_verification-Sound,
}
use heidi_microservices.Verification.Use.{verify_token-IsSpent, verify_token-spent}

-- No token text is followed.
abbrev pub NoneYet : String → Type 0
NoneYet _ = ⊥

module _ {S : Type 0} (table : Table S Token) (laws : IsTable table)
    (strategies : String → Option Strategy) (emit : Event → S → S)
    (quiet : (e : Event) (s : S) → table.rows (emit e s) ≡ table.rows s) where
  -- One call of the service, at any time and with any arguments.
  pub data Call (s : S) : S → Type 0 where
    send :
        (id token : String) (language : Option String) (dto : SendDto) (now : ℕ)
        → IsFresh table laws strategies emit quiet NoneYet id token s
        → Call s (send_verification table strategies emit id token language dto now s).1
    resend :
        (id token : String) (language : Option String) (dto : SendDto) (now : ℕ)
        → IsFresh table laws strategies emit quiet NoneYet id token s
        → Call s (resend_verification table strategies emit id token language dto now s).1
    verify : (token : String) (now : ℕ) → Call s (verify_token table strategies emit token now s).1
    cancel :
        (token : String) (now : ℕ)
        → Call s (cancel_verification table strategies emit token now s).1

  pub data Run (s : S) : S → Type 0 where
    start : Run s s
    call : {t u : S} → Run s t → Call t u → Run s u

  Call-IsSound :
      (K : String → Type 0) {s t : S}
      → Call s t
      → IsSound K (table.rows s)
      → IsSound K (table.rows t)
  Call-IsSound K {s} (send id token language dto now fresh) h =
      send_verification-Sound table laws strategies emit quiet K id token language dto now s fresh h
  Call-IsSound K {s} (resend id token language dto now fresh) h =
      resend_verification-Sound table laws strategies emit quiet K id token language dto now s fresh
        h
  Call-IsSound K {s} (verify token now) h =
      verify_token-Sound table laws strategies emit quiet K token now s h
  Call-IsSound K {s} (cancel token now) h =
      cancel_verification-Sound table laws strategies emit quiet K token now s h

  Run-IsSound :
      (K : String → Type 0) {s t : S}
      → Run s t
      → IsSound K (table.rows s)
      → IsSound K (table.rows t)
  Run-IsSound K start h = h
  Run-IsSound K (call r c) h = Call-IsSound K c (Run-IsSound K r h)

  empty-IsSound : IsSound NoneYet []
  empty-IsSound = record {
    each = λ r m. absurd m;
    ids = λ q r m. absurd m;
    tokens = λ q r m. absurd m;
    spent = λ t k. absurd k;
  }

  -- After any sequence of calls on an empty table, no two tokens share an identifier or a text, each
  -- is used exactly if it is verified, counts one attempt if it is used and none otherwise, allows
  -- five, and has not failed. New identifiers and texts are not in the table yet, the table obeys
  -- its laws and an event leaves it alone.
  pub Run-IsSound_empty : {s t : S} → table.rows s ≡ [] → Run s t → IsSound NoneYet (table.rows t)
  Run-IsSound_empty e r = Run-IsSound NoneYet r (rw e empty-IsSound)

  -- A token text that is spent may be followed from here on.
  follow :
      (rows : List Token) (token : String)
      → IsSound NoneYet rows
      → IsSpent rows token
      → IsSound (λ x. x ≡ token) rows
  follow rows token h spent = record {
    each = h.each;
    ids = h.ids;
    tokens = h.tokens;
    spent = λ x e. rw e spent;
  }

  -- From an empty table on, once a verification of a token has returned, none of the same token
  -- returns again, whatever calls come before and between, and at whatever times. New identifiers
  -- and texts are not in the table yet, the table obeys its laws and an event leaves it alone.
  pub verifies_once :
      (token : String) (now later : ℕ) {s t u : S} {v w : Verified}
      → table.rows s ≡ []
      → Run s t
      → (verify_token table strategies emit token now t).0 ≡ returned v
      → Run (verify_token table strategies emit token now t).1 u
      → (verify_token table strategies emit token later u).0 ≢ returned w
  verifies_once token now later {s} {t} {u} empty before h after =
      let sound = Run-IsSound_empty empty (call before (verify token now)) in
      let spent = verify_token-IsSpent table laws strategies emit quiet token now t h in
      let followed = Run-IsSound (λ x. x ≡ token) after (follow _ token sound spent) in
      verify_token-spent table laws strategies emit quiet token later u followed refl
