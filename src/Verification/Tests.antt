-- ===== src/Verification/Tests.antt =====
-- The verification service on a table in memory, with one strategy that accepts every address.
use heidi_microservices.Common.{
  arith, ◌≡◌, ◌≢◌, refl, true, Option, none, some, List, [], ◌∷◌, String, str_eq, if◌then◌else◌,
}
use heidi_microservices.Common.Outcome.{returned}
use heidi_microservices.Database.{Table, IsTable}
use heidi_microservices.Database.Memory.{memory, memory-IsTable}
use heidi_microservices.Verification.{
  sent_answer, verify_row, Token, Strategy, Event, SendDto, new_token, verified_answer,
  send_verification, dispatch, send_by, deliver, verify_token, verify_row_or, verify_found,
}
use heidi_microservices.Verification.Invariant.{IsSound}
use heidi_microservices.Verification.Delivery.{sent_then_verified}
use heidi_microservices.Verification.Runs.{
  Run, send, verify, start, call, NoneYet, Run-IsSound_empty, verifies_once,
}

abbrev State : Type 0
State = List Token × List Event

abbrev table : Table State Token
table = memory (λ (s : State). s.0) (λ rs s. (rs, s.1)) (λ rs s. refl)

table-IsTable : IsTable table
table-IsTable = memory-IsTable (λ (s : State). s.0) (λ rs s. (rs, s.1)) (λ rs s. refl)

abbrev emit : Event → State → State
emit e s = (s.0, e ∷ s.1)

abbrev mail : Strategy
mail = record { validate_identifier = λ i. true; send = λ i t u. returned tt }

abbrev strategies : String → Option Strategy
strategies type = if str_eq type "EMAIL" then some mail else none

abbrev to_anna : SendDto
to_anna = record {
  user_id = "anna";
  type = "EMAIL";
  identifier = "anna@example.org";
  metadata = none;
}

abbrev sent : State
sent = (send_verification table strategies emit "v1" "secret" none to_anna 1000 ([], [])).1

sent-Run : Run table table-IsTable strategies emit (λ e s. refl) ([], []) sent
sent-Run = call start (send "v1" "secret" none to_anna 1000 (λ r m. absurd m))

abbrev verified_state : State
verified_state = (verify_token table strategies emit "secret" 2000 sent).1

sent_verifies :
    (verify_token table strategies emit "secret" 2000 sent).0
    ≡ returned (verified_answer (new_token "v1" "secret" none to_anna 1000) 2000)
unfolding send_verification dispatch send_by deliver new_token verify_token verify_row_or
    verify_found
sent_verifies = refl

Run-IsSound_empty_example : IsSound NoneYet verified_state.0
Run-IsSound_empty_example =
    Run-IsSound_empty table table-IsTable strategies emit (λ e s. refl) refl
      (call sent-Run (verify "secret" 2000))

verifies_once_example :
    (verify_token table strategies emit "secret" 3000 verified_state).0
    ≢ returned (verified_answer (new_token "v1" "secret" none to_anna 1000) 3000)
verifies_once_example =
    verifies_once table table-IsTable strategies emit (λ e s. refl) "secret" 2000 3000 refl sent-Run
      sent_verifies start

sent_then_verified_example :
    (verify_token table strategies emit "secret" 2000 sent).0
    ≡ returned (record {
      type = "EMAIL";
      identifier = "anna@example.org";
      user_id = "anna";
      verified_at = 2000;
    })
unfolding send_verification dispatch send_by deliver new_token
sent_then_verified_example =
    sent_then_verified table table-IsTable strategies emit (λ e s. refl) "v1" "secret" none to_anna
      1000 2000 ([], []) (sent_answer none to_anna (new_token "v1" "secret" none to_anna 1000))
      (some (new_token "v1" "secret" none to_anna 1000))
      (verify_row 2000 (new_token "v1" "secret" none to_anna 1000))
      (Run-IsSound_empty table table-IsTable strategies emit (λ e s. refl) {s = ([], [])} refl
        start)
      (λ r m. absurd m) refl (omega arith) refl refl
