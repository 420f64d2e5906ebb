-- ===== src/Common/Text.antt =====
-- Numbers as text, in the way that Rust's formatting and parsing spell them.
use Prim.Native.Nat.{ℕ, zero, suc, ◌/◌, ◌%◌}
use Prim.Native.Nat.{◌^◌, ◌+◌, ◌-◌, ◌*◌}
use Prim.Native.Char.{Char, code}
use mathlib.Core.Bool.{Bool, ◌&&◌}
use mathlib.Core.Option.{Option, none, some}
use text.Mathlib.Text.{find?}
use torpc.Common.Results.{Result, ok, err}
use Prim.Native.String.{String}
use mathlib.Core.List.{List, [], ◌∷◌, ◌++◌}
use torpc.Common.Tests.{is_some, leb, ◌==◌, ltb, if◌then◌else◌}
use torpc.Common.Lists.{get_or}

-- The digits of a number, the most significant first. `fuel` is above the number of digits.
unfoldable pub digits : ℕ → ℕ → ℕ → List ℕ
digits radix zero n = []
digits radix (suc fuel) n =
    let rest = digits radix fuel (n / radix) ++ (n % radix) ∷ [] in
    if ltb n radix then n ∷ [] else rest

-- The digits 0 to 9 and a to f.
abbrev pub digit_char : ℕ → Char
digit_char d =
    get_or
      ("0" ∷ "1" ∷ "2" ∷ "3" ∷ "4" ∷ "5" ∷ "6" ∷ "7" ∷ "8" ∷ "9" ∷ "a" ∷ "b" ∷ "c" ∷ "d" ∷ "e" ∷ "f"
        ∷ [])
      d "0"

unfoldable pub join : List ℕ → String
join [] = ""
join (d ∷ ds) = String.◌∷◌ (digit_char d) (join ds)

-- `{n}`: a number below 10 ^ 20, so every u64.
unfoldable pub decimal : ℕ → String
unfolding digits join
decimal n = join (digits 10 20 n)

-- `{n:x}`: a number below 16 ^ 16, so every u64.
unfoldable pub hex : ℕ → String
unfolding digits join
hex n = join (digits 16 16 n)

-- `{n:o}`, for a number below 8 ^ 22.
unfoldable pub octal : ℕ → String
unfolding digits join
octal n = join (digits 8 22 n)

-- `text.contains(part)`.
unfoldable pub contains_text : String → String → Bool
contains_text text part = is_some (find? text part)

-- `text.trim_start_matches("0x")`: every leading "0x" goes.
unfoldable pub trim_0x : String → String
trim_0x String.[] = ""
trim_0x (String.◌∷◌ c String.[]) = String.◌∷◌ c String.[]
trim_0x (String.◌∷◌ c (String.◌∷◌ d s)) =
    let rest = trim_0x s in
    if code c == b'0' && code d == b'x' then rest else String.◌∷◌ c (String.◌∷◌ d s)

-- `text.strip_prefix("0x").unwrap_or(text)`: one leading "0x" goes.
unfoldable pub strip_0x : String → String
strip_0x String.[] = ""
strip_0x (String.◌∷◌ c String.[]) = String.◌∷◌ c String.[]
strip_0x (String.◌∷◌ c (String.◌∷◌ d s)) =
    if code c == b'0' && code d == b'x' then s else String.◌∷◌ c (String.◌∷◌ d s)

-- The value of a hexadecimal digit, in either case.
unfoldable pub hex_digit : ℕ → Option ℕ
hex_digit c =
    if leb b'0' c && leb c b'9'
    then some (c - b'0')
    else if leb b'a' c && leb c b'f'
    then some (c - b'a' + 10)
    else if leb b'A' c && leb c b'F'
    then some (c - b'A' + 10)
    else none

-- The value of a digit below `radix`.
unfoldable pub digit_value : ℕ → ℕ → Option ℕ
unfolding hex_digit
digit_value radix c = elim (hex_digit c) [
  | none ↦ none
  | some d ↦ if ltb d radix then some d else none
]

unfoldable pub parse_digits : ℕ → ℕ → ℕ → String → Result String ℕ
unfolding digit_value
parse_digits radix limit acc String.[] = ok acc
parse_digits radix limit acc (String.◌∷◌ c s) =
    let next = λ (d : ℕ). acc * radix + d in
    elim (digit_value radix (code c)) [
      | none ↦ err "invalid digit found in string"
      | some d ↦
          let rest = parse_digits radix limit (next d) s in
          if ltb (next d) limit then rest else err "number too large to fit in target type"
    ]

-- `from_str_radix` of the unsigned type whose values are below `limit`: one leading plus sign is
-- allowed, before at least one digit.
unfoldable pub parse_unsigned : ℕ → ℕ → String → Result String ℕ
unfolding parse_digits
parse_unsigned radix limit String.[] = err "cannot parse integer from empty string"
parse_unsigned radix limit (String.◌∷◌ c String.[]) =
    parse_digits radix limit 0 (String.◌∷◌ c String.[])
parse_unsigned radix limit (String.◌∷◌ c (String.◌∷◌ d s)) =
    if code c == b'+'
    then parse_digits radix limit 0 (String.◌∷◌ d s)
    else parse_digits radix limit 0 (String.◌∷◌ c (String.◌∷◌ d s))

-- `u64::from_str_radix(text, 16)`
abbrev pub parse_hex : String → Result String ℕ
parse_hex = parse_unsigned 16 (2 ^ 64)

-- `text.parse::<u64>()`
abbrev pub parse_u64 : String → Result String ℕ
parse_u64 = parse_unsigned 10 (2 ^ 64)

-- `text.parse::<u16>()`
abbrev pub parse_u16 : String → Result String ℕ
parse_u16 = parse_unsigned 10 (2 ^ 16)

-- The bytes of an ASCII text.
abbrev pub as_bytes : String → List ℕ
as_bytes String.[] = []
as_bytes (String.◌∷◌ c text) = let rest = as_bytes text in code c ∷ rest
