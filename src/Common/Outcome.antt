-- ===== src/Common/Outcome.antt =====
-- How an asynchronous method ends: with a value, with an exception, or not within the fuel given.
use Prim.Native.String.{String}
use mathlib.Core.Path.{◌≡◌, refl, ap}
use mathlib.Core.Logic.{◌↔◌}
use mathlib.Core.Bool.{Bool, true, false}

-- Nest's HTTP exceptions, by the text they carry; `failure` is any other error.
pub data Exception : Type 0 where
  unauthorized forbidden not_found bad_request unprocessable failure : String → Exception

pub data Outcome {ℓ} (A : Type ℓ) : Type ℓ where
  returned : A → Outcome A
  thrown : Exception → Outcome A
  unfinished : Outcome A

infixl 5 ◌>>=◌ ◌>>◌
abbrev pub ◌>>=◌ {ℓ κ} : {A : Type ℓ} {B : Type κ} → Outcome A → (A → Outcome B) → Outcome B
returned a >>= f = f a
thrown e >>= f = thrown e
unfinished >>= f = unfinished

abbrev pub ◌>>◌ {ℓ} : {B : Type ℓ} → Outcome (Unit {0}) → Outcome B → Outcome B
m >> k = m >>= λ _. k

-- `if (c) throw e`
abbrev pub throw_if : Bool → Exception → Outcome (Unit {0})
throw_if true e = thrown e
throw_if false e = returned tt

-- `try { … } catch { return d; }`
abbrev pub catch_with {ℓ} : {A : Type ℓ} → A → Outcome A → Outcome A
catch_with d (returned a) = returned a
catch_with d (thrown e) = returned d
catch_with d unfinished = unfinished

-- Inversion of a bind that returned.
pub >>=-eq-returned {ℓ κ} :
    {A : Type ℓ} {B : Type κ} (m : Outcome A) (f : A → Outcome B) {b : B}
    → (m >>= f) ≡ returned b
    → (a : A) × (m ≡ returned a) × (f a ≡ returned b)
>>=-eq-returned (returned a) f h = (a, refl, h)
>>=-eq-returned (thrown e) f h = cc
>>=-eq-returned unfinished f h = cc

-- From what a method returns and what that means, when it returns `true`.
pub returns_true_iff {ℓ} :
    {P : Type ℓ} (m : Outcome Bool)
    → (b : Bool) × (m ≡ returned b) × ((b ≡ true) ↔ P)
    → (m ≡ returned true) ↔ P
returns_true_iff m (true, r, x) = (λ _. x.0 refl, λ _. r)
returns_true_iff m (false, r, x) = (λ h. cc, λ p. cc (x.1 p))

-- What a method makes of a reply.
abbrev pub map_returned {ℓ κ} : {A : Type ℓ} {B : Type κ} → (A → B) → Outcome A → Outcome B
map_returned f m = m >>= λ a. returned (f a)

pub returned-inj {ℓ} : {A : Type ℓ} {a b : A} → returned a ≡ returned b → a ≡ b
returned-inj {a = a} h = ap (λ m. elim m [ returned x ↦ x | _ ↦ a ]) h
