-- ===== src/PasswordReset/Tests.antt =====
-- One account, which asks for a new password.
use heidi_microservices.Common.{◌≡◌, refl, some, [], ◌∷◌, String, text_append}
use heidi_microservices.Common.Outcome.{returned, thrown, bad_request}
use heidi_microservices.PasswordReset.{
  ResetConfig, ResetStore, send_password_reset_email, cancel_earlier, create_token,
  mark_token_as_used, set_password, verify_reset_token, verify_found_row, reset_password,
}
use heidi_microservices.PasswordReset.Once.{IsReset, reset_password-IsReset, reset_once}

abbrev config : ResetConfig
config = record { expiry_hours = 1; max_attempts = 3 }

abbrev start : ResetStore
start = record {
  tokens = [];
  accounts = record { id = "ann"; email = some "ann@town"; password = some "#old" } ∷ [];
  requests = [];
  marks = [];
}

abbrev sent : ResetStore
sent =
    (send_password_reset_email config (λ row. returned tt) "t1" "secret" 100 "ann@town" "ann"
      start).1

abbrev hash : String → String
hash = text_append "#"

reset : (reset_password hash "secret" "new" 200 sent).0 ≡ returned tt
unfolding reset_password verify_reset_token verify_found_row set_password send_password_reset_email
    cancel_earlier create_token
reset = refl

reset_password-IsReset_example :
    IsReset hash "secret" "new" 200 sent (reset_password hash "secret" "new" 200 sent).1
reset_password-IsReset_example = reset_password-IsReset hash "secret" "new" 200 sent reset

reset_once_example :
    reset_password hash "secret" "newer" 250
      (mark_token_as_used "secret" 220 (reset_password hash "secret" "new" 200 sent).1).1
    ≡ (
      thrown (bad_request "Invalid or expired password reset token"),
      (mark_token_as_used "secret" 220 (reset_password hash "secret" "new" 200 sent).1).1,
    )
reset_once_example = reset_once hash "secret" "new" "newer" 200 220 250 sent reset
