-- ===== src/Common/Texts.antt =====
-- Identifiers are texts: the array and set operations on them that the source uses.
use Prim.Native.String as NativeString
use Prim.Native.String.{String}
use mathlib.Core.Path.{◌≡◌, refl, sym, ◌∙◌}
use mathlib.Core.Logic.{◌⊎◌, inl, inr, ◌↔◌}
use mathlib.Core.Bool.{Bool, true, false, ◌||◌, not}
use mathlib.Core.Option.{Option, none, some}
use mathlib.Core.List.{List, [], ◌∷◌, ◌++◌}
use native.Mathlib.Omega.{arith}
use text.Mathlib.Text.{◌==◌}
use text.Mathlib.TextEquality.{eq_iff}
use heidi_microservices.Common.Tests.{if◌then◌else◌, Bool-cases}
use heidi_microservices.Common.Lists.{In}

abbrev pub str_eq : String → String → Bool
str_eq a b = a == b

-- A template text is built by joining its parts.
abbrev pub text_append : String → String → String
text_append = NativeString.◌++◌

pub str_eq_refl : (a : String) → str_eq a a ≡ true
str_eq_refl a = (eq_iff a a).1 refl

-- `xs.includes(x)`
abbrev pub includes : List String → String → Bool
includes [] x = false
includes (y ∷ ys) x = str_eq y x || includes ys x

pub includes-append :
    (xs ys : List String) (x : String) → includes (xs ++ ys) x ≡ (includes xs x || includes ys x)
includes-append [] ys x = refl
includes-append (y ∷ xs) ys x = ground (arith, includes-append xs ys x)

pub includes_of_In : (xs : List String) (x : String) → In x xs → includes xs x ≡ true
includes_of_In [] x m = elim m [ ]
includes_of_In (y ∷ ys) x (inl e) = ground (arith, eq_iff y x)
includes_of_In (y ∷ ys) x (inr m) = ground (arith, includes_of_In ys x m)

pub In-of_includes : (xs : List String) (x : String) → includes xs x ≡ true → In x xs
In-of_includes [] x h = cc
In-of_includes (y ∷ ys) x h = elim (Bool-cases (str_eq y x)) [
  | inl e ↦ inl (ground (arith, eq_iff y x))
  | inr e ↦ inr (In-of_includes ys x (rw e at h))
]

-- `set.add(x)` on a set in insertion order.
pub set_add : List String → String → List String
set_add xs x = if includes xs x then xs else xs ++ x ∷ []

-- Adds each of a list; `new Set(xs)` is `set_add_all [] xs`.
pub set_add_all : List String → List String → List String
unfolding set_add
set_add_all s [] = s
set_add_all s (x ∷ xs) = set_add_all (set_add s x) xs

includes-set_add :
    (s : List String) (y x : String) → includes (set_add s y) x ≡ (includes s x || str_eq y x)
unfolding set_add
includes-set_add s y x = elim (Bool-cases (includes s y)) [
  | inl e ↦ ground (arith, eq_iff y x)
  | inr e ↦ rw (e, includes-append s (y ∷ []) x) (ground arith)
]

pub includes-set_add_all :
    (s xs : List String) (x : String)
    → includes (set_add_all s xs) x ≡ (includes s x || includes xs x)
unfolding set_add_all
includes-set_add_all s [] x = ground arith
includes-set_add_all s (y ∷ xs) x =
    rw (includes-set_add_all (set_add s y) xs x, includes-set_add s y x) (ground arith)

pub In-set_add_all :
    (s xs : List String) (x : String) → In x (set_add_all s xs) ↔ (In x s ⊎ In x xs)
In-set_add_all s xs x = (
  λ m.
      let e = includes-set_add_all s xs x in
      let h : (includes s x || includes xs x) ≡ true =
        sym e ∙ includes_of_In (set_add_all s xs) x m in
      elim (Bool-cases (includes s x)) [
        | inl l ↦ inl (In-of_includes s x l)
        | inr l ↦ inr (In-of_includes xs x (rw l at h))
      ],
  λ h. In-of_includes _ x (
      includes-set_add_all s xs x ∙ elim h [
        | inl m ↦ rw (includes_of_In s x m)
        | inr m ↦
            rw (includes_of_In xs x m)
              (elim (Bool-cases (includes s x)) [ inl l ↦ rw l | inr l ↦ rw l ])
      ]),
)

-- A text that JavaScript takes for true: present and not empty.
abbrev pub truthy : Option String → Bool
truthy none = false
truthy (some s) = not (str_eq s "")

-- `a || b` on optional texts.
abbrev pub or_text : Option String → Option String → Option String
or_text a b = if truthy a then a else b
