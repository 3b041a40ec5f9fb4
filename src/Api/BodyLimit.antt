-- ===== src/Api/BodyLimit.antt =====
-- `BodyLimitMiddleware` of src/sprinter/api.py. The body comes as messages, each with its number of
-- bytes. `int_of` is `int` of the header: a number, which is negative or not, or none.
pub mod Bounded
use sprinter_oss.Prelude.{
  ℕ, ◌+◌, zero, suc, String, Bool, true, false, not, ◌&&◌, Option, none, some, List, [], ◌∷◌, ◌==◌,
  string_eq, ltb, if◌then◌else◌,
}
use sprinter_oss.Api.{Response, detail}

-- What an application does with a body: it receives messages until it has enough, and answers.
pub record App : Type 0 where
  pub wants : List ℕ → Bool
  pub respond : List ℕ → Response

-- `limited_receive`, called as long as the application wants a message: the messages that it got, the
-- last first, or none where one exceeds the limit.
unfoldable pub receive_all : ℕ → App → List ℕ → ℕ → List ℕ → Option (List ℕ)
receive_all max_bytes app got received [] = some got
receive_all max_bytes app got received (n ∷ messages) =
    if app.wants got
    then (if ltb max_bytes (received + n)
        then none
        else receive_all max_bytes app (n ∷ got) (received + n) messages)
    else some got

-- The application behind the limit; an HTTPException that reaches the middleware is answered.
unfoldable pub limited : ℕ → App → List ℕ → Response
unfolding receive_all detail
limited max_bytes app messages = elim (receive_all max_bytes app [] 0 messages) [
  | none ↦ detail 413 "request body too large"
  | some got ↦ app.respond got
]

-- The header, an integer with its sign.
unfoldable pub declared : ℕ → Bool × ℕ → App → List ℕ → Response
unfolding limited detail
declared max_bytes (negative, n) app messages =
    if not negative && ltb max_bytes n
    then detail 413 "request body too large"
    else limited max_bytes app messages

-- `__call__` for HTTP; a header that is missing or empty is not read.
unfoldable pub call : (String → Option (Bool × ℕ)) → ℕ → Option String → App → List ℕ → Response
unfolding limited declared detail
call int_of max_bytes none app messages = limited max_bytes app messages
call int_of max_bytes (some header) app messages =
    if header == "" then limited max_bytes app messages else elim (int_of header) [
      | none ↦ detail 400 "invalid content length"
      | some n ↦ declared max_bytes n app messages
    ]
