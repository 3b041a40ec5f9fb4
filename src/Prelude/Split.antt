-- ===== src/Prelude/Split.antt =====
-- Python's `strip`, `split` and `join` on native strings.
use Prim.Native.Char.{Char, code}
use Prim.Native.Nat.{ℕ}
use Prim.Native.String.{String, ◌++◌}
use sprinter_oss.Prelude.Tests.{◌==◌, nat_eq, string_eq, leb, if◌then◌else◌}
use mathlib.Core.Bool.{Bool, ◌&&◌, ◌||◌}
use mathlib.Core.List.{List, [], ◌∷◌}
use mathlib.Core.Option.{Option, none, some}
use mathlib.Core.Path.{◌≡◌, refl}

-- `c.isspace()`: the white space of Unicode, as Python's str knows it.
unfoldable pub is_space : Char → Bool
is_space c =
    let n : ℕ = code c in
    (leb 9 n && leb n 13)
    || ((leb 28 n && leb n 32)
        || (n == 133
            || (n == 160
                || (n == 5760
                    || ((leb 8192 n && leb n 8202)
                        || (n == 8232
                            || (n == 8233 || (n == 8239 || (n == 8287 || n == 12288)))))))))

unfoldable pub lstrip : String → String
unfolding is_space
lstrip String.[] = ""
lstrip (String.◌∷◌ c s) = let rest = lstrip s in if is_space c then rest else String.◌∷◌ c s

unfoldable pub rstrip : String → String
unfolding is_space
rstrip String.[] = ""
rstrip (String.◌∷◌ c s) =
    let rest = rstrip s in if rest == "" && is_space c then "" else String.◌∷◌ c rest

-- `s.strip()`.
unfoldable pub strip : String → String
unfolding lstrip rstrip
strip s = lstrip (rstrip s)

-- Is the character the given one?
abbrev pub is_char : String → Char → Bool
is_char old c = String.◌∷◌ c "" == old

unfoldable pub add_to_first : Char → List String → List String
add_to_first c [] = String.◌∷◌ c "" ∷ []
add_to_first c (part ∷ parts) = String.◌∷◌ c part ∷ parts

-- `s.split(sep)`, where the test knows the characters that separate.
unfoldable pub split : (Char → Bool) → String → List String
unfolding add_to_first
split sep String.[] = "" ∷ []
split sep (String.◌∷◌ c s) =
    let rest = split sep s in if sep c then "" ∷ rest else add_to_first c rest

-- `s.partition(sep)`, `none` where the separator is missing.
unfoldable pub cut : (Char → Bool) → String → Option (String × String)
cut sep String.[] = none
cut sep (String.◌∷◌ c s) =
    let rest = cut sep s in
    if sep c
    then some ("", s)
    else elim rest [ none ↦ none | some (front, back) ↦ some (String.◌∷◌ c front, back) ]

-- `filter(None, parts)`.
unfoldable pub nonempty : List String → List String
nonempty [] = []
nonempty (part ∷ parts) = let rest = nonempty parts in if part == "" then rest else part ∷ rest

-- `s.split()`.
unfoldable pub words : String → List String
unfolding split nonempty is_space
words s = nonempty (split is_space s)

-- `sep.join(parts)`.
unfoldable pub join : String → List String → String
join sep [] = ""
join sep (part ∷ []) = part
join sep (part ∷ other ∷ parts) = part ++ (sep ++ join sep (other ∷ parts))

-- `s.rstrip(c)`, for one character.
unfoldable pub rstrip_char : String → String → String
rstrip_char old String.[] = ""
rstrip_char old (String.◌∷◌ c s) =
    let rest = rstrip_char old s in if rest == "" && is_char old c then "" else String.◌∷◌ c rest

words_runs : words "  a b\tc " ≡ "a" ∷ "b" ∷ "c" ∷ []
unfolding words
words_runs = refl

strip_runs : strip "  a b " ≡ "a b"
unfolding strip
strip_runs = refl

cut_runs : cut (is_char ":") "a:b:c" ≡ some ("a", "b:c")
unfolding cut
cut_runs = refl
