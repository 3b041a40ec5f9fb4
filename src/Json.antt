-- ===== src/Json.antt =====
-- JSON values and the two helpers `dumps` and `loads` of src/sprinter/db.py.
--
-- A number is kept as the text that json writes for it, with the mark whether it is 0, since the
-- program only copies, prints and tests numbers. A text column that holds JSON is kept as the value
-- which the text denotes: `json.dumps(..., sort_keys=True)` is `sort_keys`, and `json.loads` of a
-- text that `dumps` wrote is the value itself.
use mathlib.Core.Bool.{false≢true}
use text.Mathlib.Text.{is_le}
use Prim.Native.String.{compare}
use sprinter_oss.Prelude.{
  ℕ, nat_eq, decimal, String, Bool, true, false, not, Option, none, some, List, [], ◌∷◌, ◌==◌,
  Comparable, string_eq, ◌↔◌, if◌then◌else◌, Bool-cases, eq_iff, inl, inr, sym, refl, ◌≡◌, ◌∙◌,
}

mutual
  pub data Value : Type 0 where
    null : Value
    bool : Bool → Value
    num : Bool → String → Value
    str : String → Value
    list : Elements → Value
    dict : Fields → Value

  pub data Elements : Type 0 where
    no_items : Elements
    element : Value → Elements → Elements

  pub data Fields : Type 0 where
    no_fields : Fields
    field : String → Value → Fields → Fields

pub String-discrete : Discrete String
String-discrete s t = elim (Bool-cases (s == t)) [
  | inl e ↦ yes ((eq_iff s t).0 e)
  | inr e ↦ no (λ p. false≢true (sym e ∙ (eq_iff s t).1 p))
]

pub Value-discrete : Discrete Value
Value-discrete = hlevel String-discrete

unfoldable pub value_beq : Value → Value → Bool
value_beq v w = elim (Value-discrete v w) [ yes p ↦ true | no p ↦ false ]

pub value_beq_iff : (v w : Value) → (value_beq v w ≡ true) ↔ (v ≡ w)
unfolding value_beq
value_beq_iff v w =
    elim (Value-discrete v w) as (λ d. (elim d [ yes p ↦ true | no p ↦ false ] ≡ true) ↔ (v ≡ w)) [
      | yes p ↦ (λ e. p, λ e. refl)
      | no p ↦ (λ e. absurd (false≢true e), λ e. absurd (p e))
    ]

instance abbrev pub value_eq : Comparable Value
value_eq = record { equals = value_beq }

-- A Python int that is not negative.
unfoldable pub number : ℕ → Value
number n = num (n == 0) (decimal n)

-- `d.get(k)`.
unfoldable pub get : String → Fields → Option Value
get k no_fields = none
get k (field j v fs) = if j == k then some v else get k fs

-- `{**d, k: v}`: the key keeps its place, a new key goes to the end.
unfoldable pub put : String → Value → Fields → Fields
put k v no_fields = field k v no_fields
put k v (field j w fs) = if j == k then field j v fs else field j w (put k v fs)

-- `bool(v)`.
unfoldable pub truthy : Value → Bool
truthy null = false
truthy (bool b) = b
truthy (num zero? t) = not zero?
truthy (str s) = not (s == "")
truthy (list no_items) = false
truthy (list (element v xs)) = true
truthy (dict no_fields) = false
truthy (dict (field k v fs)) = true

-- The value of a key that may be missing or falsy: `d.get(k) or default`.
unfoldable pub get_truthy : String → Fields → Option Value
unfolding get truthy
get_truthy k fs = elim (get k fs) [ none ↦ none | some v ↦ if truthy v then some v else none ]

-- The items of a list, as a list.
unfoldable pub items : Elements → List Value
items no_items = []
items (element v xs) = v ∷ items xs

-- One field put in its place among fields sorted by their keys.
unfoldable pub insert_sorted : String → Value → Fields → Fields
insert_sorted k v no_fields = field k v no_fields
insert_sorted k v (field j w fs) =
    if is_le (compare k j) then field k v (field j w fs) else field j w (insert_sorted k v fs)

unfoldable mutual
  unfolding insert_sorted

  pub sort_keys : Value → Value
  sort_keys null = null
  sort_keys (bool b) = bool b
  sort_keys (num z t) = num z t
  sort_keys (str s) = str s
  sort_keys (list xs) = list (sort_items xs)
  sort_keys (dict fs) = dict (sort_fields fs)

  pub sort_items : Elements → Elements
  sort_items no_items = no_items
  sort_items (element v xs) = element (sort_keys v) (sort_items xs)

  pub sort_fields : Fields → Fields
  sort_fields no_fields = no_fields
  sort_fields (field k v fs) = insert_sorted k (sort_keys v) (sort_fields fs)

-- `dumps(value)`, as the value that the text denotes.
unfoldable pub dumps : Value → Value
unfolding sort_keys
dumps v = sort_keys v

-- `loads(column, default)`: NULL gives the default.
unfoldable pub loads : Option Value → Value → Value
loads none default = default
loads (some v) default = v

dumps_sorts :
    dumps (dict (field "b" null (field "a" (str "x") no_fields)))
    ≡ dict (field "a" (str "x") (field "b" null no_fields))
unfolding dumps
dumps_sorts = refl
