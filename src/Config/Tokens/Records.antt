-- ===== src/Config/Tokens/Records.antt =====
-- What `parse_token_records` of src/sprinter/config.py accepts.
use sprinter_oss.Prelude.{
  ◌+◌, ◌≡◌, sym, subst, String, true, false, List, [], ◌∷◌, ◌++◌, arith, ◌==◌, string_eq, All,
  All-append, length, length-append, map, strip, split, nonempty, is_char, inl, inr, Bool-cases,
  Option-cases,
}
use sprinter_oss.Errors.{ok, Result-cases}
use sprinter_oss.Models.Table.{exists, insert, select}
use sprinter_oss.Models.Table.Keys.{Distinct, Distinct-insert}
use sprinter_oss.Config.Tokens.{
  TokenRecord, is_named, is_known, is_verifier, unknown_scopes, is_empty, checked_record, fields_of,
  scopes_of, parse_record, parse_items, parse_token_records,
}

-- A record with a name, a verifier of the right form, and at least one scope, all of them known.
abbrev pub IsRecord : TokenRecord → Type 0
IsRecord r =
    ((r.name == "") ≡ false)
    × (is_verifier r.verifier ≡ true)
    × (is_empty r.scopes ≡ false)
    × All (λ scope. is_known scope ≡ true) r.scopes

unknown_scopes-empty :
    (scopes : List String)
    → is_empty (unknown_scopes scopes) ≡ true
    → All (λ scope. is_known scope ≡ true) scopes
unfolding unknown_scopes is_empty select
unknown_scopes-empty [] e = tt
unknown_scopes-empty (s ∷ ss) e = elim (Bool-cases (is_known s)) [
  | inl k ↦ (k, unknown_scopes-empty ss (rw k at e))
  | inr k ↦ absurd (ground (arith, (rw k at e)))
]

checked_record_ok :
    (done : List TokenRecord) (name verifier : String) (scopes : List String) (r : TokenRecord)
    → checked_record done name verifier scopes ≡ ok r
    → ((name == "") ≡ false)
      × (exists (is_named name) done ≡ false)
      × (is_verifier verifier ≡ true)
      × (is_empty (unknown_scopes scopes) ≡ true)
      × (is_empty scopes ≡ false)
      × (r ≡ record { name = name; verifier = verifier; scopes = scopes })
unfolding checked_record
checked_record_ok done name verifier scopes r e = ground arith

checked_record-IsRecord :
    (done : List TokenRecord) (name verifier : String) (scopes : List String) (r : TokenRecord)
    → checked_record done name verifier scopes ≡ ok r
    → IsRecord r × (exists (is_named r.name) done ≡ false)
checked_record-IsRecord done name verifier scopes r e =
    let (named, fresh, valid, known, some_scope, same) =
      checked_record_ok done name verifier scopes r e in
    subst (λ q. IsRecord q × (exists (is_named q.name) done ≡ false)) (sym same)
      ((named, valid, some_scope, unknown_scopes-empty scopes known), fresh)

parse_record-IsRecord :
    (done : List TokenRecord) (item : String) (r : TokenRecord)
    → parse_record done item ≡ ok r
    → IsRecord r × (exists (is_named r.name) done ≡ false)
unfolding parse_record
parse_record-IsRecord done item r e = elim (Option-cases (fields_of item)) [
  | inl n ↦ absurd (ground (arith, n, e))
  | inr ((name, verifier, csv), f) ↦
      checked_record-IsRecord done name verifier (scopes_of csv) r (rw (f, parse_record) at e)
]

-- Records of distinct names, each of the right form.
abbrev pub AreRecords : List TokenRecord → Type 0
AreRecords rs = All IsRecord rs × Distinct (λ r. r.name) rs

parse_items-AreRecords :
    (done : List TokenRecord) (items : List String) (rs : List TokenRecord)
    → AreRecords done
    → parse_items done items ≡ ok rs
    → AreRecords rs × (length rs ≡ length done + length items)
unfolding parse_items
parse_items-AreRecords done [] rs a e =
    let same : done ≡ rs = ground (arith, e) in
    subst (λ q. AreRecords q × (length q ≡ length done + 0)) same (a, omega arith)
parse_items-AreRecords done (item ∷ items) rs a e = elim (Result-cases (parse_record done item)) [
  | inr (x, f) ↦ absurd (ground (arith, f, e))
  | inl (r, f) ↦
      let (good, fresh) = parse_record-IsRecord done item r f in
      let (all, count) =
        parse_items-AreRecords (done ++ r ∷ []) items rs
          (
            All-append IsRecord done (r ∷ []) a.0 (good, tt),
            unfold insert in Distinct-insert (λ q. q.name) r done a.1 fresh,
          )
          (rw f at e) in
      (all, omega (arith, count, length-append done (r ∷ [])))
]

-- The records that `parse_token_records` gives have distinct names that are not empty, verifiers of
-- the right form, and each at least one scope, all of them known; there is one for each item of the
-- text that is not blank.
pub parse_token_records-AreRecords :
    (raw : String) (rs : List TokenRecord)
    → parse_token_records raw ≡ ok rs
    → AreRecords rs × (length rs ≡ length (nonempty (map strip (split (is_char ";") raw))))
unfolding parse_token_records
parse_token_records-AreRecords raw rs e =
    let (all, count) =
      parse_items-AreRecords [] (nonempty (map strip (split (is_char ";") raw))) rs (tt, tt) e in
    (all, omega (arith, count))
