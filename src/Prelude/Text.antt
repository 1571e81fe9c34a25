-- ===== src/Prelude/Text.antt =====
-- What the source asks of its texts: JavaScript's `length`, and whether a text is truthy.
use Prim.Native.Char.{code}
use text.Mathlib.Text.{starts_with}
use my_pi.Prelude.{
  ℕ, ◌+◌, ◌&&◌, ◌||◌, not, String, Bool, true, Option, none, some, leb, str_eq, if◌then◌else◌,
}

-- The number of UTF-16 code units.
abbrev pub js_length : String → ℕ
js_length String.[] = 0
js_length (String.◌∷◌ c s) = (if leb 65536 (code c) then 2 else 1) + js_length s

-- `if (s)`
abbrev pub truthy : String → Bool
truthy String.[] = Bool.false
truthy (String.◌∷◌ c s) = true

-- `stringField(record, key)` for a field that holds a text: `undefined` if it is empty.
abbrev pub string_field : String → Option String
string_field s = if truthy s then some s else none

-- `if (s)` for an optional text.
abbrev pub is_given : Option String → Bool
is_given none = Bool.false
is_given (some s) = truthy s

-- `a === b` for an optional text and a text.
abbrev pub is_text : Option String → String → Bool
is_text none t = Bool.false
is_text (some s) t = str_eq s t

abbrev pub only_slashes : String → Bool
only_slashes String.[] = Bool.true
only_slashes (String.◌∷◌ c s) = str_eq (String.◌∷◌ c String.[]) "/" && only_slashes s

-- `text.replace(/\/+$/, "")`
unfoldable pub without_last_slashes : String → String
without_last_slashes String.[] = String.[]
without_last_slashes (String.◌∷◌ c s) =
    let rest = without_last_slashes s in
    if only_slashes (String.◌∷◌ c s) then String.[] else String.◌∷◌ c rest

-- `text.includes(part)`
unfoldable pub includes : String → String → Bool
includes String.[] part = not (truthy part)
includes (String.◌∷◌ c rest) part = starts_with (String.◌∷◌ c rest) part || includes rest part
