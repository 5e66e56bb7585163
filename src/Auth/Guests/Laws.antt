-- ===== src/Auth/Guests/Laws.antt =====
-- apps/auth/src/modules/auth/auth.service.ts: what the guest methods require and leave behind.
use mathlib.Core.Path.{Path}
use heidi_microservices.Common.{
  ℕ, ◌≡◌, refl, sym, ap, ◌∙◌, Bool, true, false, Option, none, some, String, if◌then◌else◌,
}
use heidi_microservices.Common.Outcome.{
  Outcome, returned, thrown, unfinished, Exception, unauthorized,
}
use heidi_microservices.Common.Action.{throw}
use heidi_microservices.Auth.{World, User, Caller, Deps, handled}
use heidi_microservices.Auth.Guests.{
  ConvertGuestDto, GuestRemote, GuestAnswer, is_guest_user, is_unauthorized, convert_found,
  convert_failed, convert_guest_to_registered,
}

module _ {R D : Type 0} (deps : Deps R D) (guests : GuestRemote D) where
  -- `convertGuestToRegistered` refuses a user who is missing or no guest before the users service is asked to convert anyone, so that
  -- the databases and the cache are what they were.
  pub convert_refused :
      (session : String) (dto : ConvertGuestDto) (caller : Caller) (now : ℕ) (s : World R D)
      (o : Option User)
      → deps.remote.find_by_id dto.guest_user_id s.db ≡ returned o
      → ((user : User) → o ≡ some user → is_guest_user user ≡ false)
      → convert_guest_to_registered deps guests session dto caller now s
        ≡ (thrown (unauthorized "Invalid guest user"), s)
  unfolding convert_guest_to_registered convert_found
  convert_refused session dto caller now s none f h = rw f
  convert_refused session dto caller now s (some user) f h = rw (f, h user refl)

  -- `convertGuestToRegistered` fails in one way only, with an `UnauthorizedException`.
  pub convert_fails :
      (session : String) (dto : ConvertGuestDto) (caller : Caller) (now : ℕ) (s : World R D)
      (e : Exception)
      → (convert_guest_to_registered deps guests session dto caller now s).0 ≡ thrown e
      → is_unauthorized e ≡ true
  unfolding convert_guest_to_registered
  convert_fails session dto caller now s e h = go _ h
    where
      same_kind :
          (x : Exception)
          → Path (Outcome GuestAnswer) (thrown x) (thrown e)
          → is_unauthorized x ≡ is_unauthorized e
      same_kind x k = ap (λ m. elim m [ thrown y ↦ is_unauthorized y | _ ↦ true ]) k

      by_kind :
          (x : Exception) (t : World R D) (b : Bool)
          → is_unauthorized x ≡ b
          → Path
              (Outcome GuestAnswer)
              ((if b then throw x else throw (unauthorized "Failed to convert guest user")) t).0
              (thrown e)
          → is_unauthorized e ≡ true
      by_kind x t true i k = sym (same_kind x k) ∙ i
      by_kind x t false i k = sym (same_kind (unauthorized "Failed to convert guest user") k)

      go :
          (r : Outcome GuestAnswer × World R D)
          → (handled (convert_failed deps guests) r).0 ≡ thrown e
          → is_unauthorized e ≡ true
      go (returned a, t) k = cc
      go (unfinished, t) k = cc
      go (thrown x, t) k = by_kind x t (is_unauthorized x) refl k
