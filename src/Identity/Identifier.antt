-- ===== src/Identity/Identifier.antt =====
-- modules/identity/identifier.util.ts, over the character codes of the text. `uuid_of` and
-- `bigint_of` go on to the value that the database reads in an accepted text.
use voyagi.Prelude.{
  ℕ, zero, suc, ◌+◌, ◌-◌, ◌*◌, Bool, true, false, ◌&&◌, ◌||◌, List, [], ◌∷◌, Option, none, some,
  all, leb, ltb, ◌==◌, if◌then◌else◌,
}

abbrev pub Text : Type 0
Text = List ℕ

-- `[0-9]`, `[1-9]` and `[0-9a-f]` with the flag `i`.
abbrev pub is_digit : ℕ → Bool
is_digit c = leb b'0' c && leb c b'9'

abbrev is_leading_digit : ℕ → Bool
is_leading_digit c = leb b'1' c && leb c b'9'

abbrev is_hex : ℕ → Bool
is_hex c = is_digit c || ((leb b'a' c && leb c b'f') || (leb b'A' c && leb c b'F'))

-- The rest of a text behind `n` hexadecimal digits, or behind one dash.
take_hex : ℕ → Text → Option Text
take_hex zero cs = some cs
take_hex (suc n) [] = none
take_hex (suc n) (c ∷ cs) = elim (is_hex c) [ true ↦ take_hex n cs | false ↦ none ]

take_dash : Option Text → Option Text
take_dash none = none
take_dash (some []) = none
take_dash (some (c ∷ cs)) = if c == b'-' then some cs else none

then_hex : ℕ → Option Text → Option Text
then_hex n none = none
then_hex n (some cs) = take_hex n cs

is_end : Option Text → Bool
is_end none = false
is_end (some []) = true
is_end (some (c ∷ cs)) = false

-- `UUID_PATTERN.test(value)`
pub is_uuid : Text → Bool
unfolding take_hex take_dash then_hex is_end
is_uuid cs = is_end (
    then_hex 12 (
      take_dash
        (then_hex 4 (take_dash (then_hex 4 (take_dash (then_hex 4 (take_dash (take_hex 8 cs)))))))))

hex_digit : ℕ → ℕ
hex_digit c = if leb c b'9' then c - b'0' else if leb c b'F' then c - 55 else c - 87

uuid_value : ℕ → Text → ℕ
uuid_value acc [] = acc
uuid_value acc (c ∷ cs) = uuid_value (if c == b'-' then acc else acc * 16 + hex_digit c) cs

unfoldable pub uuid_of : Text → Option ℕ
unfolding is_uuid uuid_value hex_digit
uuid_of cs = if is_uuid cs then some (uuid_value 0 cs) else none

-- `BigInt(value)`
abbrev pub decimal : ℕ → Text → ℕ
decimal acc [] = acc
decimal acc (c ∷ cs) = decimal (acc * 10 + (c - b'0')) cs

-- `POSITIVE_INTEGER_PATTERN.test(value)`
abbrev pub is_positive_integer : Text → Bool
is_positive_integer [] = false
is_positive_integer (c ∷ cs) = is_leading_digit c && all is_digit cs

abbrev pub max_bigint : ℕ
max_bigint = 9223372036854775807

unfoldable pub parse_positive_bigint : Text → Option Text
parse_positive_bigint cs =
    if is_positive_integer cs
    then (if ltb max_bigint (decimal 0 cs) then none else some cs)
    else none

unfoldable pub bigint_of : Text → Option ℕ
unfolding parse_positive_bigint
bigint_of cs = elim (parse_positive_bigint cs) [ none ↦ none | some t ↦ some (decimal 0 t) ]
