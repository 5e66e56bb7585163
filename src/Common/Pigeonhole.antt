-- ===== src/Common/Pigeonhole.antt =====
-- Different texts in a list: a list that holds them all is at least as long.
use Prim.Native.Nat.{ℕ, zero, suc, ◌+◌, ◌≤◌, ◌<◌}
use Prim.Native.String.{String}
use mathlib.Core.Path.{◌≡◌, sym, ◌∙◌}
use mathlib.Core.Logic.{◌≢◌, inl, inr}
use mathlib.Core.Bool.{false}
use mathlib.Core.List.{List, [], ◌∷◌}
use native.Mathlib.Omega.{arith}
use text.Mathlib.TextEquality.{eq_iff}
use heidi_microservices.Common.Tests.{if◌then◌else◌, Bool-cases}
use heidi_microservices.Common.Lists.{length, In}
use heidi_microservices.Common.Texts.{str_eq}

-- The values of a function at `n` numbers from `start` on.
abbrev pub run_of : (ℕ → String) → ℕ → ℕ → List String
run_of f zero start = []
run_of f (suc n) start = f start ∷ run_of f n (suc start)

-- The list without the first copy of a text.
without : String → List String → List String
without x [] = []
without x (y ∷ ys) = let rest = without x ys in if str_eq y x then ys else y ∷ rest

length-without : (x : String) (ys : List String) → In x ys → suc (length (without x ys)) ≤ length ys
unfolding without
length-without x [] m = absurd m
length-without x (y ∷ ys) m = elim (Bool-cases (str_eq y x)) [
  | inl e ↦ rw e (omega arith)
  | inr e ↦ rw e (elim m [
    | inl h ↦ absurd (differ y x e (sym h))
    | inr n ↦ let ih = length-without x ys n in omega (arith, ih)
  ])
]
  where
    differ : (y x : String) → str_eq y x ≡ false → y ≢ x
    differ y x e h = let t = (eq_iff y x).1 h in cc

In-without : (x z : String) (ys : List String) → z ≢ x → In z ys → In z (without x ys)
unfolding without
In-without x z [] d m = absurd m
In-without x z (y ∷ ys) d m =
    let ih = In-without x z ys d in
    elim (Bool-cases (str_eq y x)) [
      | inl e ↦ rw e (elim m [ inl h ↦ absurd (d (h ∙ (eq_iff y x).0 e)) | inr n ↦ n ])
      | inr e ↦ rw e (elim m [ inl h ↦ inl h | inr n ↦ inr (ih n) ])
    ]

-- As many different texts as there are in a run are not all in a shorter list.
pub length-run_within :
    (f : ℕ → String) (n start : ℕ) (ys : List String)
    → ((i j : ℕ) → i < start + n → j < start + n → f i ≡ f j → i ≡ j)
    → ((i : ℕ) → start ≤ i → i < start + n → In (f i) ys)
    → n ≤ length ys
length-run_within f zero start ys inj all = omega arith
length-run_within f (suc n) start ys inj all =
    let here = all start (omega arith) (omega arith) in
    let ih =
      length-run_within f n (suc start) (without (f start) ys)
        (λ i j l k. inj i j (omega arith) (omega arith))
        (λ i l u.
          In-without (f start) (f i) ys
            (λ h. let e = inj i start (omega arith) (omega arith) h in omega arith)
            (all i (omega arith) (omega arith))) in
    let shorter = length-without (f start) ys here in omega (arith, ih, shorter)

pub length-run_of :
    (f : ℕ → String)
    → ((i j : ℕ) → f i ≡ f j → i ≡ j)
    → (n start : ℕ) (ys : List String) → ((i : ℕ) → start ≤ i → i < start + n → In (f i) ys)
    → n ≤ length ys
length-run_of f inj n start ys all = length-run_within f n start ys (λ i j _ _. inj i j) all
