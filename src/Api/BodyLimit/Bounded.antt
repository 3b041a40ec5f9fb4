-- ===== src/Api/BodyLimit/Bounded.antt =====
-- How much of a body the application behind the limit of src/sprinter/api.py is handed.
use sprinter_oss.Prelude.{
  ℕ, ◌+◌, ◌≤◌, ◌≡◌, refl, sym, subst, ◌∙◌, String, Bool, Option, some, List, [], ◌∷◌, arith, tests,
  ltb, string_eq, Bool-cases, Option-cases, inl, inr,
}
use sprinter_oss.Api.{Response}
use sprinter_oss.Api.BodyLimit.{App, receive_all, limited, declared, call}

-- The number of bytes of the messages.
abbrev pub total : List ℕ → ℕ
total [] = 0
total (n ∷ ns) = n + total ns

total_le :
    (max_bytes : ℕ) (got out : List ℕ) (received : ℕ)
    → received ≡ total got
    → received ≤ max_bytes
    → got ≡ out
    → total out ≤ max_bytes
total_le max_bytes got out received s l e = subst (λ x. total x ≤ max_bytes) e (omega (arith, s, l))

receive_all-total :
    (max_bytes : ℕ) (app : App) (got : List ℕ) (received : ℕ) (messages out : List ℕ)
    → received ≡ total got
    → received ≤ max_bytes
    → receive_all max_bytes app got received messages ≡ some out
    → total out ≤ max_bytes
unfolding receive_all
receive_all-total max_bytes app got received [] out s l h =
    total_le max_bytes got out received s l (ground (arith, h))
receive_all-total max_bytes app got received (n ∷ messages) out s l h =
    elim (Bool-cases (app.wants got)) [
      | inr w ↦ total_le max_bytes got out received s l (ground (arith, w, h))
      | inl w ↦ elim (Bool-cases (ltb max_bytes (received + n))) [
        | inl o ↦ absurd (ground (arith, w, o, h))
        | inr o ↦
            receive_all-total max_bytes app (n ∷ got) (received + n) messages out (omega (arith, s))
              (grind (tests, o)) (rw (w, receive_all, o) at h)
      ]
    ]

receive_all-wants :
    (max_bytes : ℕ) (app : App) (f : List ℕ → Response) (got : List ℕ) (received : ℕ)
    (messages : List ℕ)
    → receive_all max_bytes app got received messages
      ≡ receive_all max_bytes (record app { respond = f }) got received messages
unfolding receive_all
receive_all-wants max_bytes app f got received [] = refl
receive_all-wants max_bytes app f got received (n ∷ messages) =
    rw (receive_all-wants max_bytes app f (n ∷ got) (received + n) messages) refl

limited-bounded :
    (max_bytes : ℕ) (app : App) (f : List ℕ → Response) (messages : List ℕ)
    → ((got : List ℕ) → total got ≤ max_bytes → app.respond got ≡ f got)
    → limited max_bytes app messages ≡ limited max_bytes (record app { respond = f }) messages
unfolding limited
limited-bounded max_bytes app f messages same =
    elim (Option-cases (receive_all max_bytes app [] 0 messages)) [
      | inl e ↦ ground (arith, e, sym (receive_all-wants max_bytes app f [] 0 messages) ∙ e)
      | inr (got, e) ↦ ground (
        arith,
        e,
        sym (receive_all-wants max_bytes app f [] 0 messages) ∙ e,
        same got (receive_all-total max_bytes app [] 0 messages got refl (omega arith) e),
      )
    ]

-- Whatever the header says, and in however many messages the body comes, the application is never
-- handed more bytes than the limit: the answer is the same for two applications that want the same
-- messages and answer alike on bodies within the limit.
pub call-bounded :
    (int_of : String → Option (Bool × ℕ)) (max_bytes : ℕ) (header : Option String) (app : App)
    (f : List ℕ → Response) (messages : List ℕ)
    → ((got : List ℕ) → total got ≤ max_bytes → app.respond got ≡ f got)
    → call int_of max_bytes header app messages
      ≡ call int_of max_bytes header (record app { respond = f }) messages
unfolding call declared
call-bounded int_of max_bytes header app f messages same =
    grind (arith, limited-bounded max_bytes app f messages same)
