-- ===== src/Prelude/Text.antt =====
-- Text as the program uses it: equality, substring tests, lower case, and numbers in f-strings.
use Prim.Native.Char.{Char, code}
use Prim.Native.Nat.{Ordering, ℕ, zero, suc, ◌+◌, ◌-◌, ◌/◌, ◌%◌}
use Prim.Native.String.{compare as text_compare, char_at, ◌++◌ as text_append}
use mathlib.Core.Bool.{Bool, true, false, ◌&&◌}
use mathlib.Core.Path.{◌≡◌, refl}
use mathlib.Core.List.{List, [], ◌∷◌, map}
use mathlib.Core.Option.{Option, none, some}
use text.Mathlib.Text.{◌==◌ as text_eq, find?}
use support_operations_intel.Prelude.Tests.{leb, ltb, ◌==◌, if◌then◌else◌, is_some}
use Prim.Native.String.{String}
pub use text.Mathlib.TextEquality.{eq_iff}
pub use text.Mathlib.TextPositions.{eq_refl}

abbrev pub str_eq : String → String → Bool
str_eq = text_eq

-- `needle in text`
abbrev pub contains : String → String → Bool
contains needle text = is_some (find? text needle)

-- The truth value of a text, and `a or b` on an optional text.
abbrev pub truthy : String → Bool
truthy String.[] = false
truthy (String.◌∷◌ c s) = true

abbrev pub or_text : Option String → String → String
or_text none other = other
or_text (some s) other = if truthy s then s else other

-- The code points of a text, and of its lower case: exact for ASCII text.
abbrev pub codes : String → List ℕ
codes String.[] = []
codes (String.◌∷◌ c s) = code c ∷ codes s

unfoldable pub lower_code : ℕ → ℕ
lower_code c = if leb b'A' c && leb c b'Z' then c + 32 else c

abbrev pub lower : String → List ℕ
lower s = map lower_code (codes s)

-- `text.lower()`, for ASCII text
unfoldable lower_char : Char → Char
lower_char c =
    if leb b'A' (code c) && leb (code c) b'Z'
    then char_at "abcdefghijklmnopqrstuvwxyz" (code c - b'A')
    else c

unfoldable pub lower_text : String → String
unfolding lower_char
lower_text String.[] = ""
lower_text (String.◌∷◌ c s) = let rest = lower_text s in String.◌∷◌ (lower_char c) rest

lower_text-TimeOut : lower_text "TimeOut_Z[" ≡ "timeout_z["
unfolding lower_text lower_char
lower_text-TimeOut = refl

unfoldable pub codes_eq : List ℕ → List ℕ → Bool
codes_eq [] [] = true
codes_eq (c ∷ cs) (d ∷ ds) = (c == d) && codes_eq cs ds
codes_eq _ _ = false

-- `a <= b` on texts, by code points
abbrev pub text_le : String → String → Bool
text_le a b = elim (text_compare a b) [ Ordering.gt ↦ false | _ ↦ true ]

-- The parts of an f-string, joined.
unfoldable pub f_string : List String → String
f_string [] = ""
f_string (s ∷ parts) = text_append s (f_string parts)

abbrev pub digit : ℕ → String
digit d =
    if d == 0
    then "0"
    else if d == 1
    then "1"
    else if d == 2
    then "2"
    else if d == 3
    then "3"
    else if d == 4
    then "4"
    else if d == 5
    then "5"
    else if d == 6
    then "6"
    else if d == 7
    then "7"
    else if d == 8
    then "8"
    else "9"

-- Each division by ten takes a digit, so `n + 1` rounds are enough.
unfoldable pub str_from : ℕ → ℕ → String
str_from zero n = ""
str_from (suc fuel) n =
    let rest = text_append (str_from fuel (n / 10)) (digit (n % 10)) in
    if ltb n 10 then digit n else rest

-- `str(n)`
unfoldable pub str : ℕ → String
unfolding str_from
str n = str_from (suc n) n

str-10407 : f_string ("n=" ∷ str 10407 ∷ []) ≡ "n=10407"
unfolding str f_string
str-10407 = refl
