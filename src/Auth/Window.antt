-- ===== src/Auth/Window.antt =====
-- The sliding window of src/sprinter/auth.py, against a plain count of the accepted requests.
use sprinter_oss.Prelude.{
  ℕ, ◌+◌, ◌≤◌, ◌<◌, ◌≡◌, refl, ◌∙◌, ap, Bool, List, [], ◌∷◌, ◌++◌, arith, ltb, leb, if◌then◌else◌,
  length, length-append, All, All-map, All-append, Bool-cases, inl, inr,
}
use native.Mathlib.Nat.{le_trans, le_refl}
use sprinter_oss.Models.{seconds}
use sprinter_oss.Models.Table.{count_where}
use sprinter_oss.Auth.{is_old, drop_old, check_events}

-- The requests of one key, the newest first, in the order of time.
abbrev pub IsChronological : List ℕ → Type 0
IsChronological [] = Unit {0}
IsChronological (t ∷ ts) = All (λ s. s ≤ t) ts × IsChronological ts

-- The deque after these requests, and the times of those that were accepted, newest first.
unfoldable pub serve : ℕ → List ℕ → List ℕ × List ℕ
serve limit [] = ([], [])
serve limit (now ∷ earlier) =
    let (events, log) = serve limit earlier in
    let (accepted, events') = check_events limit now events in
    (events', if accepted then now ∷ log else log)

-- Accepted within the last 60 seconds.
unfoldable pub is_recent : ℕ → ℕ → Bool
is_recent now t = leb now (t + seconds 60)

-- The specification: a request is accepted if fewer than `limit` of the accepted ones are recent.
unfoldable pub accepted_times : ℕ → List ℕ → List ℕ
accepted_times limit [] = []
accepted_times limit (now ∷ earlier) =
    let log : List ℕ = accepted_times limit earlier in
    if ltb (count_where (is_recent now) log) limit then now ∷ log else log

drop_old_twice : (s t : ℕ) (ts : List ℕ) → s ≤ t → drop_old t (drop_old s ts) ≡ drop_old t ts
unfolding drop_old is_old
drop_old_twice s t [] h = refl
drop_old_twice s t (x ∷ ts) h = ground (arith, drop_old_twice s t ts h)

drop_old-le : (s t : ℕ) (ts : List ℕ) → All (λ x. x ≤ s) ts → All (λ x. x ≤ s) (drop_old t ts)
unfolding drop_old
drop_old-le s t [] a = tt
drop_old-le s t (x ∷ ts) a = elim (Bool-cases (is_old t x)) [
  | inl e ↦ rw e (drop_old-le s t ts a.1)
  | inr e ↦ rw e a
]

-- A new event at the end is kept with the others, or is the only one that is not too old.
length-drop_old-append :
    (now t : ℕ) (ts : List ℕ)
    → All (λ x. x ≤ now) ts
    → length (drop_old t (ts ++ now ∷ []))
      ≡ length (drop_old t ts) + (if is_recent t now then 1 else 0)
unfolding drop_old is_old is_recent
length-drop_old-append now t [] a = ground arith
length-drop_old-append now t (x ∷ ts) a =
    ground (arith, a.0, length-drop_old-append now t ts a.1, length-append ts (now ∷ []))

-- What the deque knows of the accepted requests, from the time `last` on.
record Tracks (limit last : ℕ) (events log : List ℕ) : Type 0 where
  past : All (λ x. x ≤ last) events
  counts : (t : ℕ) → last ≤ t → length (drop_old t events) ≡ count_where (is_recent t) log
  bounded : length events ≤ limit

length-drop_old : (t : ℕ) (ts : List ℕ) → length (drop_old t ts) ≤ length ts
unfolding drop_old
length-drop_old t [] = omega arith
length-drop_old t (x ∷ ts) = ground (arith, length-drop_old t ts)

Tracks-later :
    (limit s t : ℕ) (events log : List ℕ)
    → s ≤ t
    → Tracks limit s events log
    → Tracks limit t events log
Tracks-later limit s t events log h k = record {
  past = All-map _ (λ x (e : x ≤ s). le_trans e h) events k.past;
  counts = λ u le. k.counts u (le_trans h le);
  bounded = k.bounded;
}

-- One check, where the deque tracks the accepted requests: it accepts as the count says.
module _ (limit now : ℕ) (events log : List ℕ) (k : Tracks limit now events log) where
  left-counts :
      (t : ℕ) → now ≤ t → length (drop_old t (drop_old now events)) ≡ count_where (is_recent t) log
  left-counts t h = ap length (drop_old_twice now t events h) ∙ k.counts t h

  refused-Tracks : Tracks limit now (drop_old now events) log
  refused-Tracks = record {
    past = drop_old-le now now events k.past;
    counts = left-counts;
    bounded = omega (arith, length-drop_old now events, k.bounded);
  }

  accepted-Tracks :
      length (drop_old now events) < limit
      → Tracks limit now (drop_old now events ++ now ∷ []) (now ∷ log)
  unfolding count_where
  accepted-Tracks room = record {
    past =
        All-append _ (drop_old now events) (now ∷ []) (drop_old-le now now events k.past)
          (le_refl now, tt);
    counts = λ t h. omega (
      arith,
      length-drop_old-append now t (drop_old now events) (drop_old-le now now events k.past),
      left-counts t h,
    );
    bounded = omega (arith, length-append (drop_old now events) (now ∷ []));
  }

check_events-count :
    (limit now : ℕ) (events log : List ℕ)
    → Tracks limit now events log
    → (check_events limit now events).0 ≡ ltb (count_where (is_recent now) log) limit
unfolding check_events
check_events-count limit now events log k = ground (
  arith,
  left-counts limit now events log k now (le_refl now),
  drop_old_twice now now events (le_refl now),
)

check_events-Tracks :
    (limit now : ℕ) (events log : List ℕ)
    → Tracks limit now events log
    → Tracks limit now
        (check_events limit now events).1
        (if (check_events limit now events).0 then now ∷ log else log)
unfolding check_events
check_events-Tracks limit now events log k =
    elim (Bool-cases (leb limit (length (drop_old now events)))) [
      | inl e ↦ rw e (refused-Tracks limit now events log k)
      | inr e ↦ rw e (accepted-Tracks limit now events log k (ground arith))
    ]

serve-Tracks :
    (limit last : ℕ) (ts : List ℕ)
    → IsChronological ts
    → All (λ t. t ≤ last) ts
    → Tracks limit last (serve limit ts).0 (serve limit ts).1
unfolding serve
serve-Tracks limit last [] c a = record {
  past = tt;
  counts = λ t h. unfold drop_old count_where in refl;
  bounded = omega arith;
}
serve-Tracks limit last (now ∷ earlier) c a =
    Tracks-later limit now last _ _ a.0
      (check_events-Tracks limit now _ _ (serve-Tracks limit now earlier c.1 c.0))

-- The limiter accepts exactly the requests of the specification: those for which fewer than `limit`
-- of the requests accepted before lie in the last 60 seconds. The requests of a key come in the order
-- of time.
pub serve-accepted_times :
    (limit : ℕ) (ts : List ℕ) → IsChronological ts → (serve limit ts).1 ≡ accepted_times limit ts
unfolding serve accepted_times
serve-accepted_times limit [] c = refl
serve-accepted_times limit (now ∷ earlier) c =
    let same : (serve limit earlier).1 ≡ accepted_times limit earlier =
      serve-accepted_times limit earlier c.1 in
    ground (
      arith,
      same,
      check_events-count limit now _ _ (serve-Tracks limit now earlier c.1 c.0),
      ap (λ log. count_where (is_recent now) log) same,
    )

-- At a moment not before any request of a key, at most `limit` of its accepted requests lie in the last
-- 60 seconds. The requests come in the order of time.
pub serve_bounded :
    (limit : ℕ) (now : ℕ) (ts : List ℕ)
    → IsChronological ts
    → All (λ t. t ≤ now) ts
    → count_where (is_recent now) (serve limit ts).1 ≤ limit
serve_bounded limit now ts c a =
    let k : Tracks limit now (serve limit ts).0 (serve limit ts).1 =
      serve-Tracks limit now ts c a in
    omega (arith, k.counts now (le_refl now), length-drop_old now (serve limit ts).0, k.bounded)
