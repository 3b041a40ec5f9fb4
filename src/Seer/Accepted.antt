-- ===== src/Seer/Accepted.antt =====
-- What the API makes of the payload of scripts/submit_seer_run.py.
use sprinter_oss.Prelude.{
  ℕ, ◌≤◌, ◌≡◌, refl, subst, String, false, Option, none, some, arith, tests, ltb, le→leb, ◌==◌,
  string_eq, chars, strip, Bool-cases, inl, inr,
}
use sprinter_oss.Json.{Value, Fields, number, get}
use sprinter_oss.Errors.{ok, ok-bind}
use sprinter_oss.Engine.{run}
use sprinter_oss.Engine.Evidence.Literals.{chars-append}
use sprinter_oss.Schemas.{text_field}
use sprinter_oss.Schemas.Requests.{
  is_sized, text_or, optional_text, int_or, dict_or_empty, selector_of, review_selector,
  review_job_request,
}
use sprinter_oss.Seer.{
  selected_run_id, workflow_of, checked_text, checked_run_id, checked_workflow, payload_of,
  build_payload, key_of,
}

-- A text that is not empty has a character.
chars-one : (s : String) → (s == "") ≡ false → 1 ≤ chars s
chars-one String.[] h = absurd (ground (arith, h))
chars-one (String.◌∷◌ c s) h = omega arith

checked_text-sized :
    (missing too_long : String) (limit : ℕ) (found : Option String) (s : String)
    → checked_text missing too_long limit found ≡ ok s
    → (1 ≤ chars s) × (chars s ≤ limit)
unfolding checked_text
checked_text-sized missing too_long limit none s h = absurd (ground (arith, h))
checked_text-sized missing too_long limit (some t) s h = elim (Bool-cases (strip t == "")) [
  | inl e ↦ absurd (ground (arith, e, h))
  | inr e ↦ elim (Bool-cases (ltb limit (chars (strip t)))) [
    | inl n ↦ absurd (ground (arith, e, n, h))
    | inr n ↦
        subst (λ x. (1 ≤ chars x) × (chars x ≤ limit)) (ground (arith, e, n, h))
          (chars-one (strip t) e, grind (tests, n))
  ]
]

payload_of-accepted :
    (as_int : Value → Option ℕ) (summary : Fields) (run_id workflow : String)
    → as_int (number 20) ≡ some 20
    → (1 ≤ chars run_id) × (chars run_id ≤ 96)
    → (1 ≤ chars workflow) × (chars workflow ≤ 128)
    → review_job_request as_int (payload_of summary run_id workflow)
      ≡ ok (record {
        selector = run run_id (some workflow);
        source = "seer-stix-runner";
        summary = summary;
        limit = 20;
      })
unfolding review_job_request payload_of review_selector selector_of text_field text_or optional_text
    int_or dict_or_empty is_sized get
payload_of-accepted as_int summary run_id workflow i (r1, r2) (w1, w2) = ground (
  arith,
  i,
  le→leb 1 (chars run_id) r1,
  le→leb (chars run_id) 256 (omega arith),
  le→leb 0 (chars workflow) (omega arith),
  le→leb (chars workflow) 128 w2,
)

chars_key :
    (given : Option String) (run_id : String)
    → (1 ≤ chars run_id) × (chars run_id ≤ 96)
    → given ≡ none
    → (8 ≤ chars (key_of given run_id)) × (chars (key_of given run_id) ≤ 128)
unfolding key_of
chars_key given run_id (r1, r2) g = rw g (
  omega (arith, chars-append "seer:osint-bot:" run_id),
  omega (arith, chars-append "seer:osint-bot:" run_id),
)

-- A payload that the API reads as the review of the run, and the key that goes with it.
abbrev pub IsAccepted : (Value → Option ℕ) → Fields → Fields × String → Type 0
IsAccepted as_int summary (payload, run_id) =
    ((workflow : String) × (review_job_request as_int payload
        ≡ ok (record {
          selector = run run_id (some workflow);
          source = "seer-stix-runner";
          summary = summary;
          limit = 20;
        })))
    × (chars run_id ≤ 96)
    × (8 ≤ chars (key_of none run_id))
    × (chars (key_of none run_id) ≤ 128)

checked_run_id-sized :
    (summary : Fields) (given : Option String) (s : String)
    → checked_run_id summary given ≡ ok s
    → (1 ≤ chars s) × (chars s ≤ 96)
unfolding checked_run_id
checked_run_id-sized summary given s h =
    checked_text-sized _ _ 96 (selected_run_id summary given) s h

checked_workflow-sized :
    (summary : Fields) (s : String)
    → checked_workflow summary ≡ ok s
    → (1 ≤ chars s) × (chars s ≤ 128)
unfolding checked_workflow
checked_workflow-sized summary s h = checked_text-sized _ _ 128 (workflow_of summary) s h

-- Where the conversion to an int takes the number 20 to 20: a payload that the script builds is valid
-- for the API, which reads it as the review of the run, with the id of at most 96 characters that the
-- script names too, some workflow, the summary as given, and a limit of 20; and the default key of the
-- submission has between 8 and 128 characters, the bounds of the header.
pub build_payload-IsAccepted :
    (as_int : Value → Option ℕ) (summary : Fields) (given : Option String) (built : Fields × String)
    → as_int (number 20) ≡ some 20
    → build_payload summary given ≡ ok built
    → IsAccepted as_int summary built
unfolding build_payload
build_payload-IsAccepted as_int summary given built i h =
    let (selected, f, h1) = ok-bind (checked_run_id summary given) _ built h in
    let (workflow, g, h2) = ok-bind (checked_workflow summary) _ built h1 in
    let run_sized : (1 ≤ chars selected) × (chars selected ≤ 96) =
      checked_run_id-sized summary given selected f in
    let made : Fields × String = (payload_of summary selected workflow, selected) in
    let same : made ≡ built = ground (arith, h2) in
    let (low, high) = chars_key none selected run_sized refl in
    subst (IsAccepted as_int summary) same (
      (
        workflow,
        payload_of-accepted as_int summary selected workflow i run_sized
            (checked_workflow-sized summary workflow g),
      ),
      run_sized.1,
      low,
      high,
    )
