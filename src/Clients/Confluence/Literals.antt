-- ===== src/Clients/Confluence/Literals.antt =====
-- How a reader of CQL reads the queries of src/sprinter/integrations/confluence.py.
use Prim.Native.String.{◌++◌}
use text.Mathlib.TextLemmas.{append_assoc, nil-append, cons-append, append-nil}
use sprinter_oss.Prelude.{
  ◌≡◌, refl, sym, ap, ◌∙◌, String, Bool, true, false, some, List, [], ◌∷◌, arith, map, string_eq,
  Bool-cases, inl, inr, is_char, replace, join,
}
use sprinter_oss.Config.{Settings, allowed_confluence_spaces}
use sprinter_oss.Engine.Evidence.{escaped}
use sprinter_oss.Engine.Evidence.Literals.{read_quoted, read-escaped}
use sprinter_oss.Clients.Patterns.{occurs}
use sprinter_oss.Clients.Confluence.{
  in_quotes, sorted_names, escaped_query, text_clause, space_clauses, cql_of,
}

-- Does a text hold a backslash?
abbrev has_backslash : String → Bool
has_backslash s = occurs (is_char "\\") (λ rest. true) s

-- What follows the quoted text: the list of the allowed spaces, if there are any.
abbrev pub restriction : List String → String
restriction [] = ""
restriction (space ∷ spaces) =
    " and " ++ ("space in (" ++ (join "," (map in_quotes (sorted_names (space ∷ spaces))) ++ ")"))

replace-plain : (s : String) → has_backslash s ≡ false → replace "\\" "\\\\" s ≡ s
unfolding replace occurs
replace-plain String.[] h = refl
replace-plain (String.◌∷◌ c s) h = elim (Bool-cases (is_char "\\" c)) [
  | inl e ↦ absurd (ground (arith, e, h))
  | inr e ↦ rw e (
      cons-append c "" (replace "\\" "\\\\" s)
      ∙ ap (String.◌∷◌ c)
          (nil-append (replace "\\" "\\\\" s) ∙ replace-plain s (rw (e, has_backslash) at h)))
]

escaped-plain : (s : String) → has_backslash s ≡ false → escaped_query s ≡ escaped s
unfolding escaped_query escaped
escaped-plain s h = ap (replace "\"" "\\\"") (sym (replace-plain s h))

clauses :
    (text : String) (spaces : List String)
    → join " and " (text ∷ space_clauses spaces) ≡ text ++ restriction spaces
unfolding join space_clauses
clauses text [] = sym (append-nil text)
clauses text (space ∷ spaces) = refl

-- A query without a backslash is read back from the CQL as the quoted text that `text ~` is given, and
-- what follows the text is the restriction to the allowed spaces and nothing else.
pub cql_of-read :
    (settings : Settings) (query : String)
    → has_backslash query ≡ false
    → (rest : String) × (cql_of settings query ≡ "text ~ \"" ++ rest)
      × (read_quoted false rest ≡ some (query, restriction (allowed_confluence_spaces settings)))
unfolding cql_of text_clause
cql_of-read settings query h =
    let tail : String = restriction (allowed_confluence_spaces settings) in
    (
      escaped_query query ++ ("\"" ++ tail),
      clauses (text_clause query) (allowed_confluence_spaces settings)
          ∙ (append_assoc "text ~ \"" (escaped_query query ++ "\"") tail
              ∙ ap (λ t. "text ~ \"" ++ t) (append_assoc (escaped_query query) "\"" tail)),
      ap (λ t. read_quoted false (t ++ ("\"" ++ tail))) (escaped-plain query h)
          ∙ read-escaped query tail,
    )

-- A backslash before a quote ends the quoted text.
backslash_ends :
    read_quoted false (escaped_query "a\\\" or space = HR or text ~ \\\"b" ++ "\"")
    ≡ some ("a\\", " or space = HR or text ~ \\\\\"b\"")
unfolding escaped_query read_quoted
backslash_ends = refl
