-- ===== src/Jwt/Tests.antt =====
-- The kinds of tokens at a concrete user.
use heidi_microservices.Common.{◌≡◌, refl, none, false}
use heidi_microservices.Common.Outcome.{thrown, unauthorized}
use heidi_microservices.Rbac.Roles.{number}
use heidi_microservices.Jwt.{
  JwtConfig, TokenOptions, generate_access_token, generate_refresh_token, verify_access_token,
  verify_refresh_token, token_payload, claim_number,
}
use heidi_microservices.Jwt.Memory.{memory, memory-IsSigner}
use heidi_microservices.Jwt.Laws.{generated_kinds}

-- One secret for both kinds.
abbrev config : JwtConfig
config = record {
  access_secret = "secret";
  refresh_secret = "secret";
  access_expiry = "15m";
  refresh_expiry = "7d";
}

abbrev no_options : TokenOptions
no_options = record {
  is_guest = false;
  device_id = none;
  city_id = none;
  city_ids = none;
  selected_city_id = none;
  city_assignments = none;
  permissions = none;
}

generated_kinds_example :
    (verify_refresh_token memory config "A1anna" 9
      ≡ thrown (unauthorized "Invalid or expired refresh token"))
    × (verify_access_token memory config "R1anna" 9
        ≡ thrown (unauthorized "Invalid or expired token"))
unfolding generate_access_token generate_refresh_token token_payload claim_number
generated_kinds_example =
    generated_kinds memory memory-IsSigner config "anna" none (number 3) no_options 5 9 "A1anna"
      "R1anna" refl refl
