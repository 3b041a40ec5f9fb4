-- ===== src/Dynamic.antt =====
-- What Python does with a JSON value whose type is not known: `str(v)`, `v[key]`, `v.get(key)`. `repr`
-- is Python's text of a list or a dict.
use sprinter_oss.Prelude.{String, Bool, false, none, some, ◌==◌, string_eq, if◌then◌else◌}
use sprinter_oss.Json.{
  Value, Fields, null, bool, num, str, list, dict, no_fields, get, get_truthy, truthy,
}
use sprinter_oss.Errors.{Result, ok, err, key_error, type_error, attribute_error}

-- `str(v)`.
unfoldable pub show : (Value → String) → Value → String
show repr null = "None"
show repr (bool b) = if b then "True" else "False"
show repr (num z t) = t
show repr (str s) = s
show repr (list xs) = repr (list xs)
show repr (dict fs) = repr (dict fs)

-- `value[key]`.
unfoldable pub subscript : String → Value → Result Value
unfolding get
subscript key (dict fs) = elim (get key fs) [ some v ↦ ok v | none ↦ err (key_error key) ]
subscript key null = err type_error
subscript key (bool b) = err type_error
subscript key (num z t) = err type_error
subscript key (str s) = err type_error
subscript key (list xs) = err type_error

-- The dict whose method `get` is called.
unfoldable pub as_dict : Value → Result Fields
as_dict (dict fs) = ok fs
as_dict null = err attribute_error
as_dict (bool b) = err attribute_error
as_dict (num z t) = err attribute_error
as_dict (str s) = err attribute_error
as_dict (list xs) = err attribute_error

-- `(value or {})`, as the dict whose method `get` is called.
unfoldable pub or_empty : Value → Result Fields
unfolding truthy as_dict
or_empty v = if truthy v then as_dict v else ok no_fields

-- `fields.get(key)`, where a missing key gives None.
unfoldable pub get_or_null : String → Fields → Value
unfolding get
get_or_null key fs = elim (get key fs) [ none ↦ null | some v ↦ v ]

-- `str(fields.get(key) or default)`.
unfoldable pub text_of : (Value → String) → String → String → Fields → String
unfolding get_truthy show
text_of repr key default fs = elim (get_truthy key fs) [ some v ↦ show repr v | none ↦ default ]

-- `fields.get(key) == text`.
unfoldable pub is_text : String → String → Fields → Bool
unfolding get
is_text key text fs = elim (get key fs) [ some (str s) ↦ s == text | _ ↦ false ]
