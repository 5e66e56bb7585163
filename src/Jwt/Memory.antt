-- ===== src/Jwt/Memory.antt =====
-- A signer whose tokens show their kind, whether they were signed at the start of the clock, and
-- their user.
use Prim.Native.Char.{Char, code}
use Prim.Native.String as NativeString
use heidi_microservices.Common.{
  ℕ, ◌≡◌, refl, sym, ap, ◌∙◌, false, Option, none, some, String, ◌==◌, if◌then◌else◌,
}
use heidi_microservices.Jwt.{TokenKind, access, refresh, TokenPayload, Signer}
use heidi_microservices.Jwt.Laws.{IsSigner}

abbrev kind_letter : TokenKind → Char
kind_letter access = "A"
kind_letter refresh = "R"

abbrev letter_kind : Char → TokenKind
letter_kind c = if code c == b'A' then access else refresh

abbrev stamp : ℕ → Char
stamp now = if now == 0 then "0" else "1"

abbrev pub bare_payload : TokenKind → String → TokenPayload
bare_payload kind user = record {
  sub = user;
  email = none;
  role = 3;
  type = kind;
  is_guest = false;
  device_id = none;
  city_id = none;
  city_ids = none;
  selected_city_id = none;
  city_assignments = none;
  permissions = none;
}

abbrev read_stamped : TokenKind → String → Option TokenPayload
read_stamped kind NativeString.[] = none
read_stamped kind (NativeString.◌∷◌ d s) = some (bare_payload kind s)

abbrev read_token : String → Option TokenPayload
read_token NativeString.[] = none
read_token (NativeString.◌∷◌ c s) = read_stamped (letter_kind c) s

abbrev pub memory : Signer
memory = record {
  sign = λ secret expiry p now.
      some (NativeString.◌∷◌ (kind_letter p.type) (NativeString.◌∷◌ (stamp now) p.sub));
  verify = λ secret token now. read_token token;
}

letter_lem : (k : TokenKind) → letter_kind (kind_letter k) ≡ k
letter_lem access = refl
letter_lem refresh = refl

some-inj : {A : Type 0} {a b : A} → some a ≡ some b → a ≡ b
some-inj {A} {a} h = ap (λ o. elim o [ some x ↦ x | none ↦ a ]) h

pub memory-IsSigner : IsSigner memory
memory-IsSigner = record {
  claims = λ secret expiry secret' token p q now later h k.
      let t = some-inj h in
      let same = some-inj (rw (← t) at k) in
      (ap TokenPayload.type (sym same) ∙ letter_lem p.type, ap TokenPayload.sub (sym same));
  no_empty = λ secret now. refl;
  one_user = λ secret token p q now later h k. ap TokenPayload.sub (some-inj (sym h ∙ k));
}
