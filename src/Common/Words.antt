-- ===== src/Common/Words.antt =====
-- Text in lines and words, as `str` of Rust's standard library takes it apart.
use Prim.Native.Char.{code}
use Prim.Native.String.{String}
use Prim.Native.Nat.{ℕ, ◌+◌}
use mathlib.Core.Bool.{Bool, true, false, ◌&&◌, ◌||◌}
use mathlib.Core.List.{List, [], ◌∷◌}
use text.Mathlib.Text.{◌==◌ as str_eq}
use torpc.Common.Tests.{leb, ◌==◌, if◌then◌else◌}

-- `char::is_whitespace` of a code point: the property White_Space of Unicode.
unfoldable pub is_whitespace : ℕ → Bool
is_whitespace c =
    (leb 0x09 c && leb c 0x0d)
    || (c == 0x20
        || (c == 0x85
            || (c == 0xa0
                || (c == 0x1680
                    || ((leb 0x2000 c && leb c 0x200a)
                        || (c == 0x2028
                            || (c == 0x2029 || (c == 0x202f || (c == 0x205f || c == 0x3000)))))))))

abbrev pub is_empty_text : String → Bool
is_empty_text String.[] = true
is_empty_text (String.◌∷◌ c s) = false

-- A piece of text before more pieces; an empty one is left out.
abbrev pub with_word : String → List String → List String
with_word String.[] ws = ws
with_word (String.◌∷◌ c s) ws = String.◌∷◌ c s ∷ ws

-- The word that a text begins with, which may be empty, and the words after it.
unfoldable pub split_word : String → String × List String
unfolding is_whitespace
split_word String.[] = ("", [])
split_word (String.◌∷◌ c s) =
    let rest = split_word s in
    if is_whitespace (code c) then ("", with_word rest.0 rest.1) else (String.◌∷◌ c rest.0, rest.1)

-- `text.split_whitespace()`
unfoldable pub split_whitespace : String → List String
unfolding split_word
split_whitespace s = let parts = split_word s in with_word parts.0 parts.1

unfoldable pub trim_start : String → String
unfolding is_whitespace
trim_start String.[] = ""
trim_start (String.◌∷◌ c s) =
    let rest = trim_start s in if is_whitespace (code c) then rest else String.◌∷◌ c s

unfoldable pub trim_end : String → String
unfolding is_whitespace
trim_end String.[] = ""
trim_end (String.◌∷◌ c s) =
    let rest = trim_end s in
    if is_empty_text rest && is_whitespace (code c) then "" else String.◌∷◌ c rest

-- `text.trim()`
unfoldable pub trim : String → String
unfolding trim_start trim_end
trim s = trim_start (trim_end s)

-- `text.split(mark).next()`, for a mark of one character: what stands before the first mark.
unfoldable pub before_mark : ℕ → String → String
before_mark mark String.[] = ""
before_mark mark (String.◌∷◌ c s) =
    let rest = before_mark mark s in if code c == mark then "" else String.◌∷◌ c rest

-- A line without a carriage return at its end.
unfoldable pub drop_return : String → String
drop_return String.[] = ""
drop_return (String.◌∷◌ c s) =
    let rest = drop_return s in if code c == 0x0d && is_empty_text s then "" else String.◌∷◌ c rest

-- The first line, whether a line feed ends it, and the lines after that.
pub record Line : Type 0 where
  pub text : String
  pub is_ended : Bool
  pub following : List String

-- The lines of a text that is not empty: a line feed takes a carriage return before it along.
abbrev pub all_lines : Line → List String
all_lines l = (if l.is_ended then drop_return l.text else l.text) ∷ l.following

unfoldable pub split_line : String → Line
unfolding drop_return
split_line String.[] = record { text = ""; is_ended = false; following = [] }
split_line (String.◌∷◌ c s) =
    let rest = split_line s in
    let after = if is_empty_text s then [] else all_lines rest in
    if code c == 0x0a
    then record { text = ""; is_ended = true; following = after }
    else record rest { text = String.◌∷◌ c rest.text }

-- `text.lines()`
unfoldable pub lines : String → List String
unfolding split_line
lines String.[] = []
lines (String.◌∷◌ c s) = all_lines (split_line (String.◌∷◌ c s))

-- `text.ends_with(suffix)`
unfoldable pub ends_with : String → String → Bool
ends_with String.[] suffix = str_eq "" suffix
ends_with (String.◌∷◌ c s) suffix =
    let rest = ends_with s suffix in str_eq (String.◌∷◌ c s) suffix || rest

-- `to_ascii_lowercase` of a code point.
abbrev pub ascii_lower : ℕ → ℕ
ascii_lower c = if leb b'A' c && leb c b'Z' then c + 32 else c

-- The code points of a text in lower case.
unfoldable pub lower_codes : String → List ℕ
lower_codes String.[] = []
lower_codes (String.◌∷◌ c s) = ascii_lower (code c) ∷ lower_codes s

unfoldable pub equal_codes : List ℕ → List ℕ → Bool
equal_codes [] [] = true
equal_codes (x ∷ xs) (y ∷ ys) = x == y && equal_codes xs ys
equal_codes [] (y ∷ ys) = false
equal_codes (x ∷ xs) [] = false

unfoldable pub ends_with_codes : List ℕ → List ℕ → Bool
unfolding equal_codes
ends_with_codes [] suffix = equal_codes [] suffix
ends_with_codes (x ∷ xs) suffix = equal_codes (x ∷ xs) suffix || ends_with_codes xs suffix
