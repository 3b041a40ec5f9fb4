-- ===== src/Engine/Evidence/Literals.antt =====
-- The texts that `_splunk_literal` of src/sprinter/engine.py puts between quotes.
use Prim.Native.Char.{Char}
use Prim.Native.String.{◌++◌}
use text.Mathlib.TextLemmas.{append_assoc, nil-append, cons-append, append-nil, head-eq_of_cons-eq}
use sprinter_oss.Prelude.{
  ℕ, suc, zero, ◌≤◌, ◌+◌, ◌*◌, ◌≡◌, refl, sym, ap, ◌∙◌, String, Bool, true, false, Option, none,
  some, arith, ◌==◌, string_eq, eq_iff, if◌then◌else◌, Bool-cases, inl, inr, chars, clip, replace,
}
use sprinter_oss.Engine.Evidence.{escaped, splunk_literal}

-- One character, as a text.
abbrev single : Char → String
single c = String.◌∷◌ c ""

unfoldable escape : Char → String
escape c = if single c == "\\" then "\\\\" else if single c == "\"" then "\\\"" else single c

replace-append :
    (old new s t : String) → replace old new (s ++ t) ≡ replace old new s ++ replace old new t
unfolding replace
replace-append old new String.[] t =
    ap (replace old new) (nil-append t) ∙ sym (nil-append (replace old new t))
replace-append old new (String.◌∷◌ c s) t =
    ap (replace old new) (cons-append c s t)
    ∙ (ap (λ r. (if single c == old then new else single c) ++ r) (replace-append old new s t)
        ∙ sym (
            append_assoc (if single c == old then new else single c) (replace old new s)
              (replace old new t)))

-- A text that the next character is put before.
unfoldable push : Char → Option (String × String) → Option (String × String)
push c none = none
push c (some (s, rest)) = some (String.◌∷◌ c s, rest)

-- A reader of a quoted text, after its first quote: the text up to the quote that ends it, and what
-- follows. A character after a backslash stands for itself. The flag tells that a backslash came.
unfoldable pub read_quoted : Bool → String → Option (String × String)
unfolding push
read_quoted after String.[] = none
read_quoted true (String.◌∷◌ c s) = push c (read_quoted false s)
read_quoted false (String.◌∷◌ c s) = elim (single c == "\"") [
  | true ↦ some ("", s)
  | false ↦ elim (single c == "\\") [
    | true ↦ read_quoted true s
    | false ↦ push c (read_quoted false s)
  ]
]

escape_step :
    (c : Char) → replace "\"" "\\\"" (if single c == "\\" then "\\\\" else single c) ≡ escape c
unfolding replace escape
escape_step c = elim (Bool-cases (single c == "\\")) [
  | inl e ↦ rw e refl
  | inr e ↦ rw e (append-nil (if single c == "\"" then "\\\"" else single c))
]

escaped-cons : (c : Char) (s : String) → escaped (String.◌∷◌ c s) ≡ escape c ++ escaped s
unfolding escaped replace
escaped-cons c s =
    replace-append "\"" "\\\"" (if single c == "\\" then "\\\\" else single c)
      (replace "\\" "\\\\" s)
    ∙ ap (λ r. r ++ replace "\"" "\\\"" (replace "\\" "\\\\" s)) (escape_step c)

same_char : (c d : Char) → (single c == single d) ≡ true → c ≡ d
same_char c d e = head-eq_of_cons-eq ((eq_iff (single c) (single d)).0 e)

cons2 : (c d : Char) (t : String) → String.◌∷◌ c (single d) ++ t ≡ String.◌∷◌ c (String.◌∷◌ d t)
cons2 c d t =
    cons-append c (single d) t
    ∙ ap (String.◌∷◌ c) (cons-append d "" t ∙ ap (String.◌∷◌ d) (nil-append t))

read_plain :
    (c : Char) (t : String)
    → (single c == "\"") ≡ false
    → (single c == "\\") ≡ false
    → read_quoted false (String.◌∷◌ c t) ≡ push c (read_quoted false t)
unfolding read_quoted
read_plain c t q e = ground arith

push-some :
    (c : Char) (s rest : String) (o : Option (String × String))
    → o ≡ some (s, rest)
    → push c o ≡ some (String.◌∷◌ c s, rest)
unfolding push
push-some c s rest o e = ap (push c) e

-- The reader takes an escaped character back to the character.
read-escape :
    (c : Char) (t : String) → read_quoted false (escape c ++ t) ≡ push c (read_quoted false t)
unfolding escape read_quoted
read-escape c t = elim (Bool-cases (single c == "\\")) [
  | inl e ↦ rw e (
      ap (read_quoted false) (cons2 _ _ t)
      ∙ ap (λ d. push d (read_quoted false t)) (sym (same_char c _ e)))
  | inr e ↦ elim (Bool-cases (single c == "\"")) [
    | inl q ↦
        rw (e, q)
          (ap (read_quoted false) (cons2 _ _ t)
            ∙ ap (λ d. push d (read_quoted false t)) (sym (same_char c _ q)))
    | inr q ↦
        rw (e, q)
          (ap (read_quoted false) (cons-append c "" t ∙ ap (String.◌∷◌ c) (nil-append t))
            ∙ read_plain c t q e)
  ]
]

-- The reader takes an escaped text back, up to the quote that ends it.
pub read-escaped :
    (s rest : String) → read_quoted false (escaped s ++ ("\"" ++ rest)) ≡ some (s, rest)
read-escaped String.[] rest =
    unfold escaped replace read_quoted in
    (ap (read_quoted false) (nil-append ("\"" ++ rest) ∙ cons-append _ "" rest)
      ∙ ap (λ t. some ("", t)) (nil-append rest))
read-escaped (String.◌∷◌ c s) rest =
    ap (λ r. read_quoted false (r ++ ("\"" ++ rest))) (escaped-cons c s)
    ∙ (ap (read_quoted false) (append_assoc (escape c) (escaped s) ("\"" ++ rest))
        ∙ (read-escape c (escaped s ++ ("\"" ++ rest))
            ∙ push-some c s rest _ (read-escaped s rest)))

pub chars-append : (s t : String) → chars (s ++ t) ≡ chars s + chars t
chars-append String.[] t = ap chars (nil-append t) ∙ omega arith
chars-append (String.◌∷◌ c s) t = ap chars (cons-append c s t) ∙ omega (arith, chars-append s t)

chars-escape : (c : Char) → chars (escape c) ≤ 2
unfolding escape
chars-escape c = elim (Bool-cases (single c == "\\")) [
  | inl e ↦ rw e (omega arith)
  | inr e ↦ elim (Bool-cases (single c == "\"")) [
    | inl q ↦ rw (e, q) (omega arith)
    | inr q ↦ rw (e, q) (omega arith)
  ]
]

chars-escaped : (s : String) → chars (escaped s) ≤ 2 * chars s
chars-escaped String.[] = unfold escaped replace in omega arith
chars-escaped (String.◌∷◌ c s) =
    let split : chars (escaped (String.◌∷◌ c s)) ≡ chars (escape c) + chars (escaped s) =
      ap chars (escaped-cons c s) ∙ chars-append (escape c) (escaped s) in
    omega (arith, split, chars-escape c, chars-escaped s)

clip_all : (n : ℕ) (s : String) → chars s ≤ n → clip n s ≡ s
unfolding clip
clip_all zero String.[] h = refl
clip_all zero (String.◌∷◌ c s) h = absurd (omega arith)
clip_all (suc n) String.[] h = refl
clip_all (suc n) (String.◌∷◌ c s) h = ap (String.◌∷◌ c) (clip_all n s (omega arith))

-- A text of at most 256 characters, between quotes in the query, is read back as itself, and the
-- quote that ends it is the one that the query puts there.
pub read_quoted-splunk_literal :
    (s rest : String)
    → chars s ≤ 256
    → read_quoted false (splunk_literal s ++ ("\"" ++ rest)) ≡ some (s, rest)
unfolding splunk_literal
read_quoted-splunk_literal s rest h =
    ap (λ r. read_quoted false (r ++ ("\"" ++ rest)))
      (clip_all 512 (escaped s) (omega (arith, chars-escaped s)))
    ∙ read-escaped s rest
