-- ===== src/Clients/Patterns.antt =====
-- What the regular expressions of src/sprinter/integrations/ share: letters in either case, words and
-- runs of characters. `is_word` is the table of the characters of `\w`, an argument.
use Prim.Native.Char.{Char, code}
use sprinter_oss.Prelude.{
  ℕ, ◌+◌, String, Bool, true, false, not, ◌&&◌, ◌||◌, Option, none, some, List, ◌==◌, nat_eq,
  string_eq, leb, if◌then◌else◌, lstrip, is_char,
}
use sprinter_oss.Models.Table.{exists}

-- The letter that a character is compared as under `(?i)`: four characters that are no ASCII letters
-- stand for i, s and k.
unfoldable pub letter : Char → ℕ
letter c =
    let n : ℕ = code c in
    if leb 65 n && leb n 90
    then n + 32
    else if n == 304 || n == 305
    then 105
    else if n == 383
    then 115
    else if n == 8490
    then 107
    else n

-- What follows a word in lower case, read under `(?i)`.
unfoldable pub after_word : String → String → Option String
unfolding letter
after_word String.[] s = some s
after_word (String.◌∷◌ w ws) String.[] = none
after_word (String.◌∷◌ w ws) (String.◌∷◌ c s) =
    let rest = after_word ws s in if letter c == code w then rest else none

-- `\b` after a word: the text does not go on with a character of a word.
unfoldable pub is_break : (Char → Bool) → String → Bool
is_break is_word String.[] = true
is_break is_word (String.◌∷◌ c s) = not (is_word c)

unfoldable pub has_word_at : (Char → Bool) → String → String → Bool
unfolding after_word is_break
has_word_at is_word s word = elim (after_word word s) [
  | none ↦ false
  | some rest ↦ is_break is_word rest
]

-- `\s*(?:word|...)\b` at the beginning of a text.
unfoldable pub has_command_at : (Char → Bool) → List String → String → Bool
unfolding has_word_at lstrip
has_command_at is_word commands s = exists (has_word_at is_word (lstrip s)) commands

-- `before` somewhere, and what is to follow it.
unfoldable pub occurs : (Char → Bool) → (String → Bool) → String → Bool
occurs before follows String.[] = false
occurs before follows (String.◌∷◌ c s) = (before c && follows s) || occurs before follows s

-- `(?:^|\|)\s*(?:word|...)\b`, searched in a text.
unfoldable pub has_command : (Char → Bool) → List String → String → Bool
unfolding has_command_at occurs
has_command is_word commands s =
    has_command_at is_word commands s || occurs (is_char "|") (has_command_at is_word commands) s

-- The longest run of characters of a class, and what follows it.
unfoldable pub span : (Char → Bool) → String → String × String
span p String.[] = ("", "")
span p (String.◌∷◌ c s) =
    let (front, back) = span p s in if p c then (String.◌∷◌ c front, back) else ("", String.◌∷◌ c s)

-- `[A-Za-z0-9_]` and the like, without `(?i)`.
unfoldable pub is_ascii_letter : Char → Bool
is_ascii_letter c = let n : ℕ = code c in (leb 65 n && leb n 90) || (leb 97 n && leb n 122)

unfoldable pub is_digit : Char → Bool
is_digit c = leb 48 (code c) && leb (code c) 57
