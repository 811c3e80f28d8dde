-- ===== src/Ops/Values.antt =====
-- The values of a request body and their checks (integer, optionalInteger, string and oneOf of
-- apps/api/src/platform/operations-support.ts).
use topology_supply_chain.Common.{
  ℕ, String, str_eq, Bool, false, ◌&&◌, ◌||◌, Option, none, some, ltb, ◌==◌, if◌then◌else◌,
}
use topology_supply_chain.Common.Int.{ℤ, pos, pos_part, leb_ℤ, is_safe_integer}
use topology_supply_chain.Platform.Failure.{bad}
use topology_supply_chain.Platform.Tx.{Outcome, ok, fail}

-- A JavaScript number: an integer, or any other (a fraction, an infinity, NaN).
pub data JsNumber : Type 0 where
  int : ℤ → JsNumber
  other_number : JsNumber

-- A value of a request body. Where it is no number, it comes with what `Number` makes of it; a text
-- also comes with what `trim` makes of it.
pub data JsValue : Type 0 where
  undefined null : JsValue
  number : JsNumber → JsValue
  text : (raw trimmed : String) → (as_number : JsNumber) → JsValue
  other_value : (as_number : JsNumber) → JsValue

-- Number(value): NaN for undefined, 0 for null.
unfoldable pub to_number : JsValue → JsNumber
to_number undefined = other_number
to_number null = int (pos 0)
to_number (number n) = n
to_number (text s t n) = n
to_number (other_value n) = n

-- integer(value, name, minimum): the message stands for `Invalid ${name}`.
in_range : ℤ → JsNumber → (message : String) → Outcome ℤ
in_range minimum other_number message = fail (bad message)
in_range minimum (int z) message =
    if is_safe_integer z && leb_ℤ minimum z then ok z else fail (bad message)

unfoldable pub integer_from : ℤ → JsValue → (message : String) → Outcome ℤ
unfolding to_number in_range
integer_from minimum value message = in_range minimum (to_number value) message

abbrev to_natural : Outcome ℤ → Outcome ℕ
to_natural (ok z) = ok (pos_part z)
to_natural (fail e) = fail e

-- integer, where the minimum is not negative
unfoldable pub integer : ℕ → JsValue → (message : String) → Outcome ℕ
unfolding integer_from
integer minimum value message = to_natural (integer_from (pos minimum) value message)

abbrev to_some : Outcome ℕ → Outcome (Option ℕ)
to_some (ok n) = ok (some n)
to_some (fail e) = fail e

-- optionalInteger
unfoldable pub optional_integer : JsValue → (message : String) → Outcome (Option ℕ)
unfolding integer
optional_integer undefined message = ok none
optional_integer null message = ok none
optional_integer (text String.[] t n) message = ok none
optional_integer value message = to_some (integer 1 value message)

-- string(value, name, maximum): the length counts UTF-16 code units, and is the argument's.
unfoldable pub string :
    (length_of : String → ℕ) → (maximum : ℕ) → JsValue → (message : String) → Outcome String
string length_of maximum (text s t n) message =
    if length_of t == 0 || ltb maximum (length_of t) then fail (bad message) else ok t
string length_of maximum value message = fail (bad message)

-- oneOf, against one of the values it lists
abbrev pub is_text : String → JsValue → Bool
is_text expected (text s t n) = str_eq s expected
is_text expected value = false
