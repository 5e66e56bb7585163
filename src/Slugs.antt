-- ===== src/Slugs.antt =====
-- `slugify` and `ensureUniqueSlug`, which apps/core/src/modules/listings/listings.service.ts and
-- apps/core/src/modules/tiles/tiles.service.ts have in the same words. The loop has fuel for its
-- queries; a letter outside ASCII is no letter of a slug, unless its lower case is one.
pub mod Unique
pub mod Kept
pub mod Clean
mod Tests
use Prim.Native.Char.{Char, char, code}
use Prim.Native.String as NativeString
use heidi_microservices.Common.{
  ℕ, zero, suc, ◌-◌, Bool, true, false, not, ◌&&◌, ◌||◌, Option, none, some, String, text_append,
  str_eq, is_space, leb, ◌==◌, if◌then◌else◌,
}
use heidi_microservices.Common.Decimals.{decimal}
use heidi_microservices.Common.Outcome.{Outcome, returned, unfinished, ◌>>=◌, map_returned}
use heidi_microservices.Common.Action.{Action}
use heidi_microservices.Database.{Table}

-- The character at a place of a text.
char_at : ℕ → String → Char
char_at n NativeString.[] = "a"
char_at zero (NativeString.◌∷◌ c s) = c
char_at (suc n) (NativeString.◌∷◌ c s) = char_at n s

abbrev alphabet : String
alphabet = "abcdefghijklmnopqrstuvwxyz"

-- `value.toLowerCase()`, as far as `slugify` looks: the letters A to Z, and the two others whose lower
-- case has an ASCII letter, U+0130 and U+212A.
lower_onto : Char → String → String
unfolding char_at
lower_onto c s =
    if leb 65 (code c) && leb (code c) 90
    then NativeString.◌∷◌ (char_at (code c - 65) alphabet) s
    else if code c == 8490
    then NativeString.◌∷◌ "k" s
    else if code c == 304
    then NativeString.◌∷◌ "i" (NativeString.◌∷◌ (char 775 tt) s)
    else NativeString.◌∷◌ c s

unfoldable pub lower : String → String
unfolding lower_onto
lower NativeString.[] = ""
lower (NativeString.◌∷◌ c s) = lower_onto c (lower s)

-- The text without the characters of a kind at its front.
unfoldable pub drop_while : (Char → Bool) → String → String
drop_while p NativeString.[] = ""
drop_while p (NativeString.◌∷◌ c s) =
    let rest = drop_while p s in if p c then rest else NativeString.◌∷◌ c s

-- A character before a text, or nothing if the text is empty and the character of a kind.
abbrev keep_before : (Char → Bool) → Char → String → String
keep_before p c NativeString.[] =
    if p c then NativeString.[] else NativeString.◌∷◌ c NativeString.[]
keep_before p c (NativeString.◌∷◌ d s) = NativeString.◌∷◌ c (NativeString.◌∷◌ d s)

-- The text without the characters of a kind at its end.
unfoldable pub drop_end : (Char → Bool) → String → String
drop_end p NativeString.[] = ""
drop_end p (NativeString.◌∷◌ c s) = keep_before p c (drop_end p s)

abbrev pub strip : (Char → Bool) → String → String
strip p s = drop_end p (drop_while p s)

abbrev pub space : Char → Bool
space c = is_space (code c)

abbrev dash : Char → Bool
dash c = code c == b'-'

-- `[a-z0-9]`
abbrev pub is_slug_letter : Char → Bool
is_slug_letter c =
    (leb b'a' (code c) && leb (code c) b'z') || (leb b'0' (code c) && leb (code c) b'9')

-- `.replace(/[^a-z0-9]+/g, '-')`, and whether the character before was replaced.
unfoldable pub hyphenate : Bool → String → String
hyphenate after NativeString.[] = ""
hyphenate after (NativeString.◌∷◌ c s) =
    let letter = hyphenate false s in
    let other = hyphenate true s in
    if is_slug_letter c
    then NativeString.◌∷◌ c letter
    else if after
    then other
    else NativeString.◌∷◌ "-" other

unfoldable pub slugify : String → String
unfolding lower drop_while drop_end hyphenate
slugify value = strip dash (hyphenate false (strip space (lower value)))

-- The candidate after `counter` others: the base, then `${baseSlug}-${counter}`.
abbrev pub numbered : String → ℕ → String
numbered base counter = text_append base (text_append "-" (decimal counter))

module _ {S Row : Type 0} (table : Table S Row) (slug_of id_of : Row → String) where
  abbrev pub has_slug : String → Row → Bool
  has_slug slug r = str_eq (slug_of r) slug

  -- `!existing || existing.id === currentId`
  abbrev pub is_free : Option String → Option Row → Bool
  is_free current none = true
  is_free none (some row) = false
  is_free (some id) (some row) = str_eq (id_of row) id

  -- The `while (true)` loop.
  unfoldable pub next_slug : ℕ → String → Option String → String → ℕ → S → Outcome String
  next_slug zero base current candidate counter s = unfinished
  next_slug (suc fuel) base current candidate counter s =
      table.find (has_slug candidate) s >>= λ existing.
      if is_free current existing
      then returned candidate
      else next_slug fuel base current (numbered base counter) (suc counter) s

  unfoldable pub ensure_unique_slug : ℕ → String → Option String → S → Outcome String
  ensure_unique_slug fuel base current s = next_slug fuel base current base 1 s

  -- `if (dto.slug !== undefined)`: the slug that an update sets, if it sets one.
  pub slug_if_set : ℕ → String → Option String → Action S (Option String)
  slug_if_set fuel id none s = (returned none, s)
  slug_if_set fuel id (some slug) s =
      (map_returned some (ensure_unique_slug fuel (slugify slug) (some id) s), s)
