-- ===== src/Common/Action.antt =====
-- Methods that change a state and may throw: what was written stays written after an exception.
use mathlib.Core.Path.{◌≡◌, refl, sym, ap, ◌∙◌}
use mathlib.Core.Logic.{◌⊎◌, inl, inr}
use mathlib.Core.Bool.{Bool, true, false}
use heidi_microservices.Common.Outcome.{Outcome, returned, thrown, unfinished, Exception}

abbrev pub Action : Type 0 → Type 0 → Type 0
Action S A = S → Outcome A × S

-- The rest of a method, by how its first part ended.
abbrev pub continue : {S A B : Type 0} → (A → Action S B) → Outcome A × S → Outcome B × S
continue f (returned a, s) = f a s
continue f (thrown e, s) = (thrown e, s)
continue f (unfinished, s) = (unfinished, s)

infixl 5 ◌>>=◌ ◌>>◌
abbrev pub ◌>>=◌ : {S A B : Type 0} → Action S A → (A → Action S B) → Action S B
◌>>=◌ m f s = continue f (m s)

abbrev pub ◌>>◌ : {S A B : Type 0} → Action S A → Action S B → Action S B
m >> k = m >>= λ _. k

abbrev pub pure : {S A : Type 0} → A → Action S A
pure a s = (returned a, s)

abbrev pub throw : {S A : Type 0} → Exception → Action S A
throw e s = (thrown e, s)

-- A query, which leaves the state alone.
abbrev pub query : {S A : Type 0} → (S → Outcome A) → Action S A
query f s = (f s, s)

abbrev pub throw_when : {S : Type 0} → Bool → Exception → Action S (Unit {0})
throw_when true e s = (thrown e, s)
throw_when false e s = (returned tt, s)

-- However the method ends, the invariant holds after it if it held before.
abbrev pub Keeps : {S A : Type 0} → (S → Type 0) → Action S A → Type 0
Keeps {S} I m = (s : S) → I s → I (m s).1

-- The invariant holds after a method by parts.
pub >>=-Keeps :
    {S A B : Type 0} (I : S → Type 0) (m : Action S A) (f : A → Action S B)
    → Keeps I m
    → ((a : A) → Keeps I (f a))
    → Keeps I (m >>= f)
>>=-Keeps {S} {A} {B} I m f k l s h = go (m s) (k s h)
  where
    go : (r : Outcome A × S) → I r.1 → I (continue f r).1
    go (returned a, t) i = l a t i
    go (thrown e, t) i = i
    go (unfinished, t) i = i

-- Inversion of a bind that returned.
pub >>=-eq-returned :
    {S A B : Type 0} (m : Action S A) (f : A → Action S B) (s : S) {b : B}
    → ((m >>= f) s).0 ≡ returned b
    → (a : A) × ((m s).0 ≡ returned a) × ((m >>= f) s ≡ f a (m s).1)
>>=-eq-returned {S} {A} {B} m f s {b} h = go (m s) h
  where
    go :
        (r : Outcome A × S)
        → (continue f r).0 ≡ returned b
        → (a : A) × (r.0 ≡ returned a) × (continue f r ≡ f a r.1)
    go (returned a, t) h = (a, refl, refl)
    go (thrown e, t) h = cc
    go (unfinished, t) h = cc

-- The same, with what the rest returned.
pub bind_returned :
    {S A B : Type 0} (m : Action S A) (f : A → Action S B) (s : S) {b : B}
    → ((m >>= f) s).0 ≡ returned b
    → (a : A) × ((m s).0 ≡ returned a)
      × ((m >>= f) s ≡ f a (m s).1)
      × ((f a (m s).1).0 ≡ returned b)
bind_returned m f s h =
    let (a, k, e) = >>=-eq-returned m f s h in (a, k, e, ap (λ r. r.0) (sym e) ∙ h)

-- However the method ends, it leaves a part of the state alone.
abbrev pub Fixes : {S C A : Type 0} → (S → C) → Action S A → Type 0
Fixes {S} view m = (s : S) → view (m s).1 ≡ view s

pub >>=-Fixes :
    {S C A B : Type 0} (view : S → C) (m : Action S A) (f : A → Action S B)
    → Fixes view m
    → ((a : A) → Fixes view (f a))
    → Fixes view (m >>= f)
>>=-Fixes {S} {C} {A} {B} view m f h k s = go (m s) (h s)
  where
    go : (r : Outcome A × S) → view r.1 ≡ view s → view (continue f r).1 ≡ view s
    go (returned a, t) e = k a t ∙ e
    go (thrown x, t) e = e
    go (unfinished, t) e = e

-- `prisma.$transaction`: an exception undoes what was written.
abbrev pub settled : {S A : Type 0} → S → Outcome A × S → Outcome A × S
settled s (returned a, t) = (returned a, t)
settled s (thrown e, t) = (thrown e, s)
settled s (unfinished, t) = (unfinished, s)

abbrev pub transaction : {S A : Type 0} → Action S A → Action S A
transaction m s = settled s (m s)

pub settled-eq-returned :
    {S A : Type 0} (s : S) (r : Outcome A × S) {a : A}
    → (settled s r).0 ≡ returned a
    → (settled s r ≡ r) × (r.0 ≡ returned a)
settled-eq-returned s (returned x, t) h = (refl, h)
settled-eq-returned s (thrown e, t) h = cc
settled-eq-returned s (unfinished, t) h = cc

pub transaction-Keeps :
    {S A : Type 0} (I : S → Type 0) (m : Action S A) → Keeps I m → Keeps I (transaction m)
transaction-Keeps {S} {A} I m k s h = go (m s) (k s h)
  where
    go : (r : Outcome A × S) → I r.1 → I (settled s r).1
    go (returned a, t) i = i
    go (thrown e, t) i = h
    go (unfinished, t) i = h

-- What holds of the state after the first part, and after the rest if the first part returned, holds
-- after both.
pub bind_state :
    {S A B : Type 0} (I : S → Type 0) (m : Action S A) (f : A → Action S B) (s : S)
    → I (m s).1
    → ((a : A) → (m s).0 ≡ returned a → I (f a (m s).1).1)
    → I ((m >>= f) s).1
bind_state {S} {A} {B} I m f s i k = go (m s) i k
  where
    go :
        (r : Outcome A × S)
        → I r.1
        → ((a : A) → r.0 ≡ returned a → I (f a r.1).1)
        → I (continue f r).1
    go (returned a, t) i k = k a refl
    go (thrown e, t) i k = i
    go (unfinished, t) i k = i

pub throw_when_state : {S : Type 0} (b : Bool) (e : Exception) (s : S) → (throw_when b e s).1 ≡ s
throw_when_state true e s = refl
throw_when_state false e s = refl

-- A method returned, with what is to hold then, or it left the state as it was.
abbrev pub DoneOrKept : {S A : Type 0} → (A → S → Type 0) → S → Outcome A × S → Type 0
DoneOrKept {A} P s r = ((a : A) × (r.0 ≡ returned a) × P a r.1) ⊎ (r.1 ≡ s)

pub bind-DoneOrKept :
    {S A B : Type 0} (P : B → S → Type 0) (m : Action S A) (f : A → Action S B) (s : S)
    → (m s).1 ≡ s
    → ((a : A) → (m s).0 ≡ returned a → DoneOrKept P s (f a (m s).1))
    → DoneOrKept P s ((m >>= f) s)
bind-DoneOrKept {S} {A} P m f s same k = go (m s) same k
  where
    go :
        (r : Outcome A × S)
        → r.1 ≡ s
        → ((a : A) → r.0 ≡ returned a → DoneOrKept P s (f a r.1))
        → DoneOrKept P s (continue f r)
    go (returned a, t) e k = k a refl
    go (thrown x, t) e k = inr e
    go (unfinished, t) e k = inr e

pub transaction-DoneOrKept :
    {S A : Type 0} (P : A → S → Type 0) (m : Action S A) (s : S)
    → ((a : A) → (m s).0 ≡ returned a → P a (m s).1)
    → DoneOrKept P s (transaction m s)
transaction-DoneOrKept {S} {A} P m s k = go (m s) k
  where
    go : (r : Outcome A × S) → ((a : A) → r.0 ≡ returned a → P a r.1) → DoneOrKept P s (settled s r)
    go (returned a, t) k = inl (a, refl, k a refl)
    go (thrown e, t) k = inr refl
    go (unfinished, t) k = inr refl
