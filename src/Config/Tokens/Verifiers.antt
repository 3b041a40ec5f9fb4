-- ===== src/Config/Tokens/Verifiers.antt =====
-- A verifier that `make_token_verifier` of src/sprinter/config.py makes, seen by `verify_token`.
use Prim.Native.Char.{Char}
use Prim.Native.String.{◌++◌}
use mathlib.Core.Bool.{false≢true}
use text.Mathlib.TextLemmas.{nil-append, cons-append}
use sprinter_oss.Prelude.{
  ℕ, zero, suc, ◌≡◌, refl, sym, ap, ◌∙◌, String, Bool, true, false, some, arith, ◌==◌, string_eq,
  eq_iff, eq_refl, cut, is_char, Bool-cases, inl, inr,
}
use sprinter_oss.Config.Tokens.{
  is_hex, is_hex_text, after_prefix, verifier_prefix, match_verifier, make_token_verifier,
  verify_token,
}

after_prefix-append : (p s : String) → after_prefix p (p ++ s) ≡ some s
unfolding after_prefix
after_prefix-append String.[] s = ap some (nil-append s)
after_prefix-append (String.◌∷◌ c p) s =
    ap (after_prefix (String.◌∷◌ c p)) (cons-append c p s)
    ∙ ground (arith, eq_refl (String.◌∷◌ c ""), after_prefix-append p s)

abbrev begins_hex : String → Bool
begins_hex String.[] = false
begins_hex (String.◌∷◌ c s) = is_hex c

is_hex-not_underscore : (c : Char) → is_hex c ≡ true → is_char "_" c ≡ false
unfolding is_hex
is_hex-not_underscore c h = elim (Bool-cases (is_char "_" c)) [
  | inr e ↦ e
  | inl e ↦
      let same : begins_hex (String.◌∷◌ c "") ≡ begins_hex "_" =
        ap begins_hex ((eq_iff (String.◌∷◌ c "") "_").0 e) in
      absurd (false≢true (sym same ∙ h))
]

cut-append :
    (n : ℕ) (salt hash : String)
    → is_hex_text n salt ≡ true
    → cut (is_char "_") (salt ++ ("_" ++ hash)) ≡ some (salt, hash)
unfolding cut is_hex_text
cut-append zero String.[] hash h =
    ap (cut (is_char "_")) (nil-append ("_" ++ hash) ∙ cons-append _ "" hash)
    ∙ ap (λ t. some ("", t)) (nil-append hash)
cut-append zero (String.◌∷◌ c s) hash h = absurd (ground (arith, h))
cut-append (suc n) String.[] hash h = absurd (ground (arith, h))
cut-append (suc n) (String.◌∷◌ c s) hash h =
    ap (cut (is_char "_")) (cons-append c s ("_" ++ hash))
    ∙ ground (arith, is_hex-not_underscore c, cut-append n s hash)

-- A verifier is read back as the digits of its salt and of its hash.
match_verifier_lem :
    (salt hash : String)
    → is_hex_text 32 salt ≡ true
    → is_hex_text 64 hash ≡ true
    → match_verifier (verifier_prefix ++ (salt ++ ("_" ++ hash))) ≡ some (salt, hash)
unfolding match_verifier
match_verifier_lem salt hash s h =
    rw (after_prefix-append verifier_prefix (salt ++ ("_" ++ hash)), match_verifier)
      (rw (cut-append 32 salt hash s) (ground (arith, s, h)))

-- A token passes the verifier made of a token and a salt exactly if the two tokens have one hash under
-- that salt. The salt has 16 bytes, and hashes have 32.
pub verify_token-make_token_verifier :
    (digest : String → String → String) (token given salt : String)
    → is_hex_text 32 salt ≡ true
    → ((t : String) → is_hex_text 64 (digest t salt) ≡ true)
    → verify_token digest given (make_token_verifier digest token salt)
      ≡ (digest given salt == digest token salt)
unfolding verify_token make_token_verifier
verify_token-make_token_verifier digest token given salt s h =
    rw (match_verifier_lem salt (digest token salt) s (h token), verify_token) refl
