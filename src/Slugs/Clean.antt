-- ===== src/Slugs/Clean.antt =====
-- What the texts that `slugify` makes look like.
use Prim.Native.Char.{Char}
use Prim.Native.String as NativeString
use heidi_microservices.Common.{
  ◌≡◌, refl, inl, inr, Bool, true, false, ◌&&◌, ◌||◌, String, arith, either, Bool-cases,
}
use heidi_microservices.Slugs.{
  lower, drop_while, drop_end, keep_before, strip, space, dash, is_slug_letter, hyphenate, slugify,
}

pub all_chars : (Char → Bool) → String → Bool
all_chars p NativeString.[] = true
all_chars p (NativeString.◌∷◌ c s) = p c && all_chars p s

-- Whether a text begins or ends with a character of a kind.
pub begins : (Char → Bool) → String → Bool
begins p NativeString.[] = false
begins p (NativeString.◌∷◌ c s) = p c

pub ends : (Char → Bool) → String → Bool
ends p NativeString.[] = false
ends p (NativeString.◌∷◌ c NativeString.[]) = p c
ends p (NativeString.◌∷◌ c (NativeString.◌∷◌ d s)) = ends p (NativeString.◌∷◌ d s)

abbrev pub is_slug_char : Char → Bool
is_slug_char c = is_slug_letter c || dash c

-- A text of letters, digits and hyphens, none of them a hyphen at the front or at the end.
pub record IsSlug (s : String) : Type 0 where
  pub chars : all_chars is_slug_char s ≡ true
  pub front : begins dash s ≡ false
  pub back : ends dash s ≡ false

slug_letter_lem : (c : Char) → is_slug_letter c ≡ true → (is_slug_char c && true) ≡ true
slug_letter_lem c e = ground arith

all_chars-hyphenate :
    (after : Bool) (s : String) → all_chars is_slug_char (hyphenate after s) ≡ true
unfolding all_chars hyphenate
all_chars-hyphenate after NativeString.[] = refl
all_chars-hyphenate after (NativeString.◌∷◌ c s) =
    let letter = all_chars-hyphenate false s in
    let other = all_chars-hyphenate true s in
    elim (Bool-cases (is_slug_letter c)) [
      | inl e ↦ rw (e, letter) (slug_letter_lem c e)
      | inr e ↦
          rw e (either (λ t. all_chars is_slug_char t ≡ true) after (λ _. other) (λ _. rw other))
    ]

module _ (p q : Char → Bool) where
  all_chars-drop_while : (s : String) → all_chars q s ≡ true → all_chars q (drop_while p s) ≡ true
  unfolding all_chars drop_while
  all_chars-drop_while NativeString.[] h = refl
  all_chars-drop_while (NativeString.◌∷◌ c s) h =
      let ih = all_chars-drop_while s in
      either (λ t. all_chars q t ≡ true) (p c) (λ _. ih (ground arith)) (λ _. h)

  all_chars-keep_before :
      (c : Char) (s : String)
      → q c ≡ true
      → all_chars q s ≡ true
      → all_chars q (keep_before p c s) ≡ true
  unfolding all_chars
  all_chars-keep_before c NativeString.[] h k =
      either (λ t. all_chars q t ≡ true) (p c) (λ _. refl) (λ _. rw h)
  all_chars-keep_before c (NativeString.◌∷◌ d s) h k = rw h k

  all_chars-drop_end : (s : String) → all_chars q s ≡ true → all_chars q (drop_end p s) ≡ true
  unfolding all_chars drop_end
  all_chars-drop_end NativeString.[] h = refl
  all_chars-drop_end (NativeString.◌∷◌ c s) h =
      let ih = all_chars-drop_end s in
      all_chars-keep_before c (drop_end p s) (ground arith) (ih (ground arith))

module _ (p : Char → Bool) where
  begins-drop_while : (s : String) → begins p (drop_while p s) ≡ false
  unfolding begins drop_while
  begins-drop_while NativeString.[] = refl
  begins-drop_while (NativeString.◌∷◌ c s) =
      let ih = begins-drop_while s in either (λ t. begins p t ≡ false) (p c) (λ _. ih) (λ e. e)

  begins-keep_before : (c : Char) (s : String) → p c ≡ false → begins p (keep_before p c s) ≡ false
  unfolding begins
  begins-keep_before c NativeString.[] h = rw h h
  begins-keep_before c (NativeString.◌∷◌ d s) h = h

  begins-drop_end : (s : String) → begins p s ≡ false → begins p (drop_end p s) ≡ false
  unfolding begins drop_end
  begins-drop_end NativeString.[] h = refl
  begins-drop_end (NativeString.◌∷◌ c s) h = begins-keep_before c (drop_end p s) h

  ends-keep_before : (c : Char) (s : String) → ends p s ≡ false → ends p (keep_before p c s) ≡ false
  unfolding ends
  ends-keep_before c NativeString.[] h = either (λ t. ends p t ≡ false) (p c) (λ _. refl) (λ e. e)
  ends-keep_before c (NativeString.◌∷◌ d s) h = h

  ends-drop_end : (s : String) → ends p (drop_end p s) ≡ false
  unfolding ends drop_end
  ends-drop_end NativeString.[] = refl
  ends-drop_end (NativeString.◌∷◌ c s) = ends-keep_before c (drop_end p s) (ends-drop_end s)

-- A text that `slugify` makes consists of the letters a to z, digits and hyphens, and neither begins
-- nor ends with a hyphen.
pub slugify-IsSlug : (value : String) → IsSlug (slugify value)
unfolding slugify
slugify-IsSlug value =
    let h = hyphenate false (strip space (lower value)) in
    record {
      chars = all_chars-drop_end dash is_slug_char (drop_while dash h) (
          all_chars-drop_while dash is_slug_char h
            (all_chars-hyphenate false (strip space (lower value))));
      front = begins-drop_end dash (drop_while dash h) (begins-drop_while dash h);
      back = ends-drop_end dash (drop_while dash h);
    }
