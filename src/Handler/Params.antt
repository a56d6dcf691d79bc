-- ===== src/Handler/Params.antt =====
-- The parameters of a request, and the parts of the standard library that read them.
use Prim.Native.Char.{Char, code}
use Prim.Native.String
use mquery_fcs.Prelude.Integers.{Integer}
use mquery_fcs.Prelude.{
  ℕ, ◌+◌, ◌-◌, ◌*◌, ◌==◌, leb, str_eq, if◌then◌else◌, String, Bool, true, false, ◌&&◌, Option, none,
  some, List, [], ◌∷◌,
}

-- `URL.Query()`: each name once, with the first of its values.
abbrev pub Params : Type 0
Params = List (String × String)

-- `GetQuery`.
unfoldable pub get_query : Params → String → Option String
get_query [] name = none
get_query ((k, v) ∷ ps) name = if str_eq k name then some v else get_query ps name

abbrev pub value_or : String → Option String → String
value_or dflt none = dflt
value_or dflt (some v) = v

-- `DefaultQuery`, which `getTypedArg` passes on.
abbrev pub default_query : Params → String → String → String
default_query ps name dflt = value_or dflt (get_query ps name)

-- `Query`.
abbrev pub query : Params → String → String
query ps name = default_query ps name ""

abbrev pub is_given : Option String → Bool
is_given none = false
is_given (some v) = true

-- `Has`.
abbrev pub has : Params → String → Bool
has ps name = is_given (get_query ps name)

abbrev pub is_digit : Char → Bool
is_digit c = leb 48 (code c) && leb (code c) 57

-- The digits read so far stand for the number.
unfoldable pub read_digits : String → ℕ → Option ℕ
read_digits String.[] n = some n
read_digits (String.◌∷◌ c s) n =
    let rest = read_digits s (n * 10 + (code c - 48)) in if is_digit c then rest else none

-- At least one digit.
abbrev pub read_number : String → Option ℕ
read_number String.[] = none
read_number (String.◌∷◌ c s) = read_digits (String.◌∷◌ c s) 0

abbrev pub in_int_range : Bool → Option ℕ → Option Integer
in_int_range negative none = none
in_int_range negative (some n) =
    if leb n (if negative then 9223372036854775808 else 9223372036854775807)
    then some (record { negative = negative; magnitude = n })
    else none

-- `strconv.Atoi` on 64 bits; `none` is an error.
unfoldable pub atoi : String → Option Integer
unfolding read_digits
atoi String.[] = none
atoi (String.◌∷◌ c s) =
    if code c == 45
    then in_int_range true (read_number s)
    else if code c == 43
    then in_int_range false (read_number s)
    else in_int_range false (read_number (String.◌∷◌ c s))

-- `strings.Split` at the character.
unfoldable pub split_at : ℕ → String → String → List String
split_at sep String.[] part = part ∷ []
split_at sep (String.◌∷◌ c s) part =
    if code c == sep
    then part ∷ split_at sep s ""
    else split_at sep s (String.◌++◌ part (String.◌∷◌ c ""))

abbrev pub split_comma : String → List String
split_comma s = split_at 44 s ""
