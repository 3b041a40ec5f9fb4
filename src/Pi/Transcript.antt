-- ===== src/Pi/Transcript.antt =====
-- What `_rpc_prompt` of src/sprinter/pi_gateway.py returns, told from the lines of the process as a whole.
use Prim.Native.String.{◌++◌}
use text.Mathlib.TextLemmas.{append_assoc, append-nil, nil-append}
use sprinter_oss.Prelude.{
  ℕ, ◌+◌, ◌≤◌, ◌≡◌, refl, sym, ap, subst, ◌∙◌, String, Bool, true, false, ◌&&◌, ◌||◌, Option, arith,
  tests, ltb, ◌==◌, string_eq, if◌then◌else◌, Bool-cases, inl, inr, strip,
}
use sprinter_oss.Json.{Value, Fields, no_fields}
use sprinter_oss.Errors.{ok, err, Result-cases, ok-bind}
use sprinter_oss.Dynamic.{is_text}
use sprinter_oss.Config.{Settings}
use sprinter_oss.Pi.Rpc.{
  Lines, line, ended, stalled, overrun, Host, Progress, Session, no_progress, is_response,
  is_settled, succeeded, answered, delta_of, delta_text, updated, on_event, event_of, on_line,
  rpc_loop, finished, run_session, rpc_prompt, started,
}

-- The text that an event says.
abbrev pub said : (Value → String) → Fields → String
said repr event =
    if is_text "type" "message_update" event
    then elim (delta_of event) [ ok delta ↦ delta_text repr delta | err e ↦ "" ]
    else ""

abbrev pub accepts : Fields → Bool
accepts event = is_response event && succeeded event

-- The event of a line; one that is no object says nothing.
abbrev pub event_at : Host → String → Fields
event_at host text = elim (event_of host.loads text) [ ok event ↦ event | err e ↦ no_fields ]

-- The texts of the events up to the one that settles, joined.
unfoldable pub transcript : Host → Lines → String
transcript host (line bytes text rest) =
    said host.repr (event_at host text)
    ++ (if is_settled (event_at host text) then "" else transcript host rest)
transcript host ended = ""
transcript host stalled = ""
transcript host overrun = ""

-- Does an event up to the one that settles accept the prompt?
unfoldable pub is_accepted : Host → Lines → Bool
is_accepted host (line bytes text rest) =
    accepts (event_at host text)
    || (if is_settled (event_at host text) then false else is_accepted host rest)
is_accepted host ended = false
is_accepted host stalled = false
is_accepted host overrun = false

updated_ok :
    (repr : Value → String) (event : Fields) (p q : Progress)
    → updated repr event p ≡ ok q
    → (q.output ≡ p.output ++ said repr event)
      × (q.accepted ≡ p.accepted)
      × (q.output_bytes ≡ p.output_bytes)
unfolding updated
updated_ok repr event p q h = elim (Bool-cases (is_text "type" "message_update" event)) [
  | inr n ↦ rw n (ground (arith, n, h, append-nil p.output))
  | inl n ↦ elim (Result-cases (delta_of event)) [
    | inl (delta, d) ↦ rw (n, d) (ground (arith, n, d, h))
    | inr (e, d) ↦ absurd (ground (arith, n, d, h))
  ]
]

answered_ok :
    (repr : Value → String) (event : Fields) (p q : Progress)
    → answered repr event p ≡ ok q
    → (q.output ≡ p.output)
      × (q.accepted ≡ (p.accepted || accepts event))
      × (q.output_bytes ≡ p.output_bytes)
unfolding answered
answered_ok repr event p q h = elim (Bool-cases (is_response event)) [
  | inr n ↦ rw n (ground (arith, n, h))
  | inl n ↦ elim (Bool-cases (succeeded event)) [
    | inl s ↦ rw (n, s) (ground (arith, n, s, h))
    | inr s ↦ absurd (ground (arith, n, s, h))
  ]
]

on_event_ok :
    (repr : Value → String) (event : Fields) (p q : Progress)
    → on_event repr event p ≡ ok q
    → (q.output ≡ p.output ++ said repr event)
      × (q.accepted ≡ (p.accepted || accepts event))
      × (q.output_bytes ≡ p.output_bytes)
unfolding on_event
on_event_ok repr event p q h =
    let (p1, f, h1) = ok-bind (answered repr event p) (updated repr event) q h in
    let (o1, a1, b1) = answered_ok repr event p p1 f in
    let (o2, a2, b2) = updated_ok repr event p1 q h1 in
    (o2 ∙ ap (λ o. o ++ said repr event) o1, a2 ∙ a1, b2 ∙ b1)

on_line_ok :
    (host : Host) (limit bytes : ℕ) (text : String) (p q : Progress) (settled : Bool)
    → on_line host limit bytes text p ≡ ok (q, settled)
    → (q.output ≡ p.output ++ said host.repr (event_at host text))
      × (q.accepted ≡ (p.accepted || accepts (event_at host text)))
      × (q.output_bytes ≤ limit)
      × (settled ≡ is_settled (event_at host text))
unfolding on_line
on_line_ok host limit bytes text p q settled h =
    elim (Bool-cases (ltb limit (p.output_bytes + bytes))) [
      | inl n ↦ absurd (ground (arith, n, h))
      | inr n ↦
          let (event, f, h1) =
            ok-bind (event_of host.loads text) _ (q, settled) (rw (n, on_line) at h) in
          let (p1, g, h2) = ok-bind (on_event host.repr event _) _ (q, settled) h1 in
          let (o, a, b) =
            on_event_ok host.repr event (record p { output_bytes = p.output_bytes + bytes }) p1 g in
          let same : q.output_bytes ≡ p.output_bytes + bytes = ground (arith, h2, b) in
          let within : p.output_bytes + bytes ≤ limit = grind (tests, n) in
          rw f (
            ground (arith, h2, o),
            ground (arith, h2, a),
            omega (arith, same, within),
            ground (arith, h2),
          )
    ]

-- The progress after the lines, told from them as a whole.
abbrev IsRead : Host → ℕ → Lines → Progress → Progress → Type 0
IsRead host limit lines p q =
    (q.output ≡ p.output ++ transcript host lines)
    × (q.accepted ≡ (p.accepted || is_accepted host lines))
    × (q.output_bytes ≤ limit)

or_assoc : (a b c : Bool) → ((a || b) || c) ≡ (a || (b || c))
or_assoc true b c = refl
or_assoc false b c = refl

or_false : (a : Bool) → (a || false) ≡ a
or_false true = refl
or_false false = refl

rpc_loop-IsRead :
    (host : Host) (limit : ℕ) (lines : Lines) (p q : Progress)
    → p.output_bytes ≤ limit
    → rpc_loop host limit lines p ≡ ok q
    → IsRead host limit lines p q
unfolding rpc_loop transcript is_accepted
rpc_loop-IsRead host limit ended p q l h =
    let same : p ≡ q = ground (arith, h) in
    subst (IsRead host limit ended p) same (sym (append-nil p.output), sym (or_false p.accepted), l)
rpc_loop-IsRead host limit stalled p q l h = absurd (ground (arith, h))
rpc_loop-IsRead host limit overrun p q l h = absurd (ground (arith, h))
rpc_loop-IsRead host limit (line bytes text rest) p q l h =
    elim (Result-cases (on_line host limit bytes text p)) [
      | inr (e, f) ↦ absurd (ground (arith, f, h))
      | inl ((p1, true), f) ↦
          let (o, a, b, t) = on_line_ok host limit bytes text p p1 true f in
          let same : p1 ≡ q = ground (arith, f, h) in
          subst (IsRead host limit (line bytes text rest) p) same (
            rw (← t) (
              o ∙ ap (λ x. p.output ++ x) (sym (append-nil (said host.repr (event_at host text)))),
              a ∙ ap (λ x. p.accepted || x) (sym (or_false (accepts (event_at host text)))),
              b,
            ))
      | inl ((p1, false), f) ↦
          let (o, a, b, t) = on_line_ok host limit bytes text p p1 false f in
          let (o2, a2, b2) = rpc_loop-IsRead host limit rest p1 q b (ground (arith, f, h)) in
          rw (← t) (
            o2
                ∙ (ap (λ x. x ++ transcript host rest) o
                    ∙ append_assoc p.output (said host.repr (event_at host text))
                        (transcript host rest)),
            a2
                ∙ (ap (λ x. x || is_accepted host rest) a
                    ∙ or_assoc p.accepted (accepts (event_at host text)) (is_accepted host rest)),
            b2,
          )
    ]

finished_ok :
    (stderr : Option String) (p : Progress) (out : String)
    → finished stderr p ≡ ok out
    → (out ≡ p.output) × (p.accepted ≡ true) × ((strip p.output == "") ≡ false)
unfolding finished
finished_ok stderr p out h = elim (Bool-cases p.accepted) [
  | inr n ↦ absurd (ground (arith, n, h))
  | inl n ↦ elim (Bool-cases (strip p.output == "")) [
    | inl e ↦ absurd (ground (arith, n, e, h))
    | inr e ↦ (ground (arith, n, e, h), n, e)
  ]
]

run_session_ok :
    (host : Host) (limit : ℕ) (session : Session) (out : String)
    → run_session host limit session ≡ ok out
    → (out ≡ transcript host session.lines)
      × (is_accepted host session.lines ≡ true)
      × ((strip out == "") ≡ false)
unfolding run_session
run_session_ok host limit session out h =
    let (p, f, h1) =
      ok-bind (rpc_loop host limit session.lines no_progress) (finished session.stderr) out h in
    let (o, a, b) = rpc_loop-IsRead host limit session.lines no_progress p (omega arith) f in
    let (o2, a2, e) = finished_ok session.stderr p out h1 in
    (
      o2 ∙ (o ∙ nil-append (transcript host session.lines)),
      sym a ∙ a2,
      ap (λ t. strip t == "") o2 ∙ e,
    )

-- A prompt that is answered by a process that was started was accepted by an event of the process, up
-- to the one that settles, and the answer, which is not blank, is what the updates up to that event
-- said, in their order and nothing else.
pub rpc_prompt-transcript :
    (host : Host) (settings : Settings) (prompt out : String) (session : Session)
    → host.prompt prompt ≡ started session
    → rpc_prompt host settings prompt ≡ ok out
    → (out ≡ transcript host session.lines)
      × (is_accepted host session.lines ≡ true)
      × ((strip out == "") ≡ false)
unfolding rpc_prompt
rpc_prompt-transcript host settings prompt out session f h =
    run_session_ok host settings.pi_max_output_bytes session out (rw (f, rpc_prompt) at h)
