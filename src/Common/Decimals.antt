-- ===== src/Common/Decimals.antt =====
-- Numbers in texts: the digits that `parseInt` reads, and a number in a template text.
use Prim.Native.Char.{Char, code}
use Prim.Native.String as NativeString
use Prim.Native.String.{String}
use Prim.Native.Nat.{ℕ, zero, suc, ◌+◌, ◌-◌, ◌*◌, ◌/◌, ◌%◌, ◌<◌}
use mathlib.Core.Path.{◌≡◌, refl, sym, ap, ◌∙◌}
use mathlib.Core.Bool.{Bool, true, ◌&&◌}
use native.Mathlib.Omega.{arith}
use heidi_microservices.Common.Tests.{if◌then◌else◌, ltb, leb, either}

abbrev pub is_digit : Char → Bool
is_digit c = leb 48 (code c) && leb (code c) 57

-- The longest run of digits at the front, onto the number read so far.
pub digits_onto : ℕ → String → ℕ
digits_onto n NativeString.[] = n
digits_onto n (NativeString.◌∷◌ c s) =
    let rest = digits_onto (10 * n + (code c - 48)) s in if is_digit c then rest else n

digit : ℕ → Char
digit zero = "0"
digit (suc zero) = "1"
digit (suc (suc zero)) = "2"
digit (suc (suc (suc zero))) = "3"
digit (suc (suc (suc (suc zero)))) = "4"
digit (suc (suc (suc (suc (suc zero))))) = "5"
digit (suc (suc (suc (suc (suc (suc zero)))))) = "6"
digit (suc (suc (suc (suc (suc (suc (suc zero))))))) = "7"
digit (suc (suc (suc (suc (suc (suc (suc (suc zero)))))))) = "8"
digit (suc (suc (suc (suc (suc (suc (suc (suc (suc n))))))))) = "9"

-- The digits of a number before a text, with fuel for their number.
decimal_onto : ℕ → ℕ → String → String
unfolding digit
decimal_onto zero n s = s
decimal_onto (suc fuel) n s =
    let more = decimal_onto fuel (n / 10) (NativeString.◌∷◌ (digit (n % 10)) s) in
    if ltb n 10 then NativeString.◌∷◌ (digit n) s else more

-- A number in a template text.
unfoldable pub decimal : ℕ → String
unfolding decimal_onto
decimal n = decimal_onto (suc n) n ""

too_large : (n : ℕ) → ¬ ((suc (suc (suc (suc (suc (suc (suc (suc (suc (suc n)))))))))) < 10)
too_large n h = ground arith

digit_lem : (n : ℕ) → n < 10 → (is_digit (digit n) ≡ true) × (code (digit n) ≡ 48 + n)
unfolding digit
digit_lem zero h = (refl, refl)
digit_lem (suc zero) h = (refl, refl)
digit_lem (suc (suc zero)) h = (refl, refl)
digit_lem (suc (suc (suc zero))) h = (refl, refl)
digit_lem (suc (suc (suc (suc zero)))) h = (refl, refl)
digit_lem (suc (suc (suc (suc (suc zero))))) h = (refl, refl)
digit_lem (suc (suc (suc (suc (suc (suc zero)))))) h = (refl, refl)
digit_lem (suc (suc (suc (suc (suc (suc (suc zero))))))) h = (refl, refl)
digit_lem (suc (suc (suc (suc (suc (suc (suc (suc zero)))))))) h = (refl, refl)
digit_lem (suc (suc (suc (suc (suc (suc (suc (suc (suc zero))))))))) h = (refl, refl)
digit_lem (suc (suc (suc (suc (suc (suc (suc (suc (suc (suc n)))))))))) h = absurd (too_large n h)

digits_onto-digit :
    (m n : ℕ) (s : String)
    → n < 10
    → digits_onto m (NativeString.◌∷◌ (digit n) s) ≡ digits_onto (10 * m + n) s
unfolding digits_onto
digits_onto-digit m n s h =
    let (d, c) = digit_lem n h in rw (d, c) (ap (λ k. digits_onto k s) (omega arith))

none_below : (n : ℕ) → ¬ (n < 0)
none_below n h = ground arith

digits_onto-decimal_onto :
    (fuel n : ℕ) (s : String) → n < fuel → digits_onto 0 (decimal_onto fuel n s) ≡ digits_onto n s
unfolding decimal_onto
digits_onto-decimal_onto zero n s h = absurd (none_below n h)
digits_onto-decimal_onto (suc fuel) n s h =
    let ih = digits_onto-decimal_onto fuel (n / 10) (NativeString.◌∷◌ (digit (n % 10)) s) in
    either (λ t. digits_onto 0 t ≡ digits_onto n s) (ltb n 10)
      (λ l. digits_onto-digit 0 n s (ground arith) ∙ ap (λ k. digits_onto k s) (omega arith))
      (λ l.
        ih (ground arith)
        ∙ (digits_onto-digit (n / 10) (n % 10) s (omega arith)
            ∙ ap (λ k. digits_onto k s) (omega arith)))

-- Different numbers have different texts.
pub decimal-inj : (m n : ℕ) → decimal m ≡ decimal n → m ≡ n
unfolding decimal digits_onto
decimal-inj m n h =
    sym (digits_onto-decimal_onto (suc m) m "" (omega arith))
    ∙ (ap (digits_onto 0) h ∙ digits_onto-decimal_onto (suc n) n "" (omega arith))
