-- ===== src/Common/RoundTrip.antt =====
-- A number that is written as text is read back.
use Prim.Native.Nat.{ℕ, zero, suc, ◌+◌, ◌*◌, ◌/◌, ◌%◌, ◌^◌, ◌≤◌, ◌<◌}
use Prim.Native.Char.{Char, code}
use Prim.Native.String
use Prim.Native.String.{String}
use mathlib.Core.Path.{◌≡◌, refl, sym, ap, ◌∙◌}
use mathlib.Core.Bool.{Bool, true, false, not, ◌&&◌}
use mathlib.Core.Logic.{inl, inr}
use mathlib.Core.Option.{Option, none, some}
use mathlib.Core.List.{List, [], ◌∷◌, ◌++◌, append_assoc, append-nil}
use native.Mathlib.Omega.{arith}
use text.Mathlib.TextLemmas.{nil-append, cons-append}
use native.Mathlib.Nat.{div-add-mod, mod-lt, pow-zero, pow-suc}
use torpc.Common.Tests.{ltb, ◌==◌, ==_iff, if◌then◌else◌, Bool-cases}
use torpc.Common.Lists.{get_or, length}
use torpc.Common.Results.{ok}
use torpc.Common.Text.{
  parse_u64, parse_hex, decimal, hex, digits, digit_char, join, hex_digit, digit_value,
  parse_digits, parse_unsigned, trim_0x,
}

-- Whether a test holds of every number below a bound.
every_below : (ℕ → Bool) → ℕ → Bool
every_below test zero = true
every_below test (suc bound) =
    let rest = every_below test bound in if test bound then rest else false

every_below-holds :
    (test : ℕ → Bool) (bound k : ℕ) → every_below test bound ≡ true → k < bound → test k ≡ true
unfolding every_below
every_below-holds test zero k all less = absurd (omega arith)
every_below-holds test (suc bound) k all less = elim (Bool-cases (k == bound)) [
  | inl same ↦ rw ((==_iff k bound).0 same) (ground arith)
  | inr other ↦ every_below-holds test bound k (ground arith) (ground arith)
]

-- The character of a digit is read as that digit, and is neither a plus sign nor an x.
abbrev is_value : Option ℕ → ℕ → Bool
is_value none d = false
is_value (some e) d = e == d

is_value-some : (o : Option ℕ) (d : ℕ) → is_value o d ≡ true → o ≡ some d
is_value-some none d h = cc
is_value-some (some e) d h = ap some ((==_iff e d).0 h)

abbrev is_own_digit : ℕ → Bool
is_own_digit d =
    let c = code (digit_char d) in is_value (hex_digit c) d && (not (c == b'+') && not (c == b'x'))

own_digits : every_below is_own_digit 16 ≡ true
unfolding every_below hex_digit
own_digits = refl

own_digit : (d : ℕ) → d < 16 → is_own_digit d ≡ true
own_digit d h = every_below-holds is_own_digit 16 d own_digits h

both : (p q : Bool) → (p && q) ≡ true → (p ≡ true) × (q ≡ true)
both true true h = (refl, refl)
both true false h = cc
both false q h = cc

hex_digit-digit_char : (d : ℕ) → d < 16 → hex_digit (code (digit_char d)) ≡ some d
hex_digit-digit_char d h =
    is_value-some (hex_digit (code (digit_char d))) d (both _ _ (own_digit d h)).0

parse_digits-cons :
    (radix limit acc d : ℕ) (c : Char) (text : String)
    → digit_value radix (code c) ≡ some d
    → acc * radix + d < limit
    → parse_digits radix limit acc (String.◌∷◌ c text)
      ≡ parse_digits radix limit (acc * radix + d) text
unfolding parse_digits
parse_digits-cons radix limit acc d c text reads fits =
    let within : ltb (acc * radix + d) limit ≡ true = ground arith in
    rw (parse_digits, reads, within) refl

parse_digits-join :
    (radix limit acc d : ℕ) (ds : List ℕ)
    → radix ≤ 16
    → d < radix
    → acc * radix + d < limit
    → parse_digits radix limit acc (join (d ∷ ds))
      ≡ parse_digits radix limit (acc * radix + d) (join ds)
unfolding join digit_value
parse_digits-join radix limit acc d ds small digit fits =
    let below : ltb d radix ≡ true = ground arith in
    parse_digits-cons radix limit acc d (digit_char d) (join ds)
      (rw (digit_value, hex_digit-digit_char d (omega arith), below) refl) fits

div-below : (radix p n : ℕ) → 0 < radix → n < p * radix → n / radix < p
div-below radix p n pos h = grind (arith, div-add-mod n radix)

-- The digits of n, read from zero, come to n.
digits-read :
    (radix limit fuel n : ℕ) (more : List ℕ)
    → 2 ≤ radix
    → radix ≤ 16
    → n < radix ^ fuel
    → n < limit
    → parse_digits radix limit 0 (join (digits radix fuel n ++ more))
      ≡ parse_digits radix limit n (join more)
unfolding digits
digits-read radix limit zero n more two small below fits =
    let nothing : n ≡ 0 = omega (arith, pow-zero radix) in rw nothing refl
digits-read radix limit (suc fuel) n more two small below fits = elim (Bool-cases (ltb n radix)) [
  | inl one ↦ rw one (
      parse_digits-join radix limit 0 n more small (ground arith) (omega arith)
      ∙ ap (λ m. parse_digits radix limit m (join more)) (omega arith))
  | inr many ↦
      let last : n / radix * radix + n % radix ≡ n = grind (arith, div-add-mod n radix) in
      let before =
        digits-read radix limit fuel (n / radix) (n % radix ∷ more) two small
          (div-below radix (radix ^ fuel) n (omega arith) (rw (← pow-suc radix fuel) below))
          (grind arith) in
      rw (many, append_assoc)
        (before
          ∙ parse_digits-join radix limit (n / radix) (n % radix) more small
              (mod-lt n (omega arith)) (rw last fits)
          ∙ ap (λ m. parse_digits radix limit m (join more)) last)
]

digits-cons : (radix fuel n : ℕ) → (d : ℕ) × (ds : List ℕ) × (digits radix (suc fuel) n ≡ d ∷ ds)
unfolding digits
digits-cons radix fuel n = elim (Bool-cases (ltb n radix)) [
  | inl one ↦ (n, [], rw one refl)
  | inr many ↦
      let (d, ds, same) = append-cons (digits radix fuel (n / radix)) (n % radix) in
      (d, ds, rw many same)
]
  where
    append-cons : (xs : List ℕ) (y : ℕ) → (d : ℕ) × (ds : List ℕ) × (xs ++ y ∷ [] ≡ d ∷ ds)
    append-cons [] y = (y, [], refl)
    append-cons (x ∷ xs) y = (x, xs ++ y ∷ [], refl)

get_or-past : {A : Type 0} (xs : List A) (i : ℕ) (d : A) → length xs ≤ i → get_or xs i d ≡ d
get_or-past [] i d h = refl
get_or-past (x ∷ xs) zero d h = absurd (omega arith)
get_or-past (x ∷ xs) (suc i) d h = get_or-past xs i d (omega arith)

not-false : (b : Bool) → not b ≡ true → b ≡ false
not-false false h = refl
not-false true h = cc

-- A digit of any size is written as a character that is neither a plus sign nor an x.
digit_char-plain :
    (d : ℕ) → ((code (digit_char d) == b'+') ≡ false) × ((code (digit_char d) == b'x') ≡ false)
digit_char-plain d = elim (Bool-cases (ltb d 16)) [
  | inl small ↦
      let plain = both _ _ (both _ _ (own_digit d (ground arith))).1 in
      (not-false _ plain.0, not-false _ plain.1)
  | inr large ↦
      let zeroth : digit_char d ≡ "0" =
        get_or-past
          ("0" ∷ "1" ∷ "2" ∷ "3" ∷ "4" ∷ "5" ∷ "6" ∷ "7" ∷ "8" ∷ "9" ∷ "a" ∷ "b" ∷ "c" ∷ "d" ∷ "e"
            ∷ "f" ∷ [])
          d "0" (ground arith) in
      rw zeroth (refl, refl)
]

parse_unsigned-join :
    (radix limit d : ℕ) (ds : List ℕ)
    → parse_unsigned radix limit (join (d ∷ ds)) ≡ parse_digits radix limit 0 (join (d ∷ ds))
unfolding join parse_unsigned
parse_unsigned-join radix limit d [] = refl
parse_unsigned-join radix limit d (e ∷ ds) = ground (arith, (digit_char-plain d).0)

trim_0x-join : (ds : List ℕ) → trim_0x (join ds) ≡ join ds
unfolding join trim_0x
trim_0x-join [] = refl
trim_0x-join (d ∷ []) = refl
trim_0x-join (d ∷ e ∷ ds) = ground (arith, (digit_char-plain e).1)

trim_0x-prefix : (text : String) → trim_0x (String.◌++◌ "0x" text) ≡ trim_0x text
unfolding trim_0x
trim_0x-prefix text =
    let spelled : String.◌++◌ "0x" text ≡ String.◌∷◌ "0" (String.◌∷◌ "x" text) =
      cons-append "0" "x" text
      ∙ ap (String.◌∷◌ "0") (cons-append "x" "" text ∙ ap (String.◌∷◌ "x") (nil-append text)) in
    ap trim_0x spelled

parse_unsigned-digits :
    (radix limit fuel n : ℕ)
    → 2 ≤ radix
    → radix ≤ 16
    → n < radix ^ suc fuel
    → n < limit
    → parse_unsigned radix limit (join (digits radix (suc fuel) n)) ≡ ok n
unfolding join parse_digits
parse_unsigned-digits radix limit fuel n two small below fits =
    let (d, ds, same) = digits-cons radix fuel n in
    let read = digits-read radix limit (suc fuel) n [] two small below fits in
    ap (λ l. parse_unsigned radix limit (join l)) same
    ∙ parse_unsigned-join radix limit d ds
    ∙ ap (λ l. parse_digits radix limit 0 (join l))
        (sym (append-nil (digits radix (suc fuel) n) ∙ same))
    ∙ read

-- Every u64 is read back from its decimal text.
pub parse_u64-decimal : (n : ℕ) → n < 2 ^ 64 → parse_u64 (decimal n) ≡ ok n
unfolding decimal
parse_u64-decimal n h =
    parse_unsigned-digits 10 (2 ^ 64) 19 n (omega arith) (omega arith) (omega arith) h

-- Every u64 is read back from its hexadecimal text after "0x".
pub parse_hex-trim_0x : (n : ℕ) → n < 2 ^ 64 → parse_hex (trim_0x (String.◌++◌ "0x" (hex n))) ≡ ok n
unfolding hex
parse_hex-trim_0x n h =
    ap parse_hex (trim_0x-prefix (join (digits 16 16 n)) ∙ trim_0x-join (digits 16 16 n))
    ∙ parse_unsigned-digits 16 (2 ^ 64) 15 n (omega arith) (omega arith) (omega arith) h
