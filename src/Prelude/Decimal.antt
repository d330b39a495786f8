-- ===== src/Prelude/Decimal.antt =====
-- Decimal texts as JavaScript reads and writes them: `split` and `join` at one character, `trim`,
-- `parseInt(s, 10)` and `String(n)`. Numbers are exact here, doubles in JavaScript.
use Prim.Native.Nat.{ℕ, zero, suc, ◌+◌, ◌-◌, ◌*◌, ◌/◌, ◌%◌}
use Prim.Native.Char.{code}
use Prim.Native.String.{String}
use mathlib.Core.Bool.{Bool, true, false, ◌&&◌, ◌||◌}
use mathlib.Core.Option.{Option, none, some}
use mathlib.Core.List.{List, [], ◌∷◌}
use infra_inventory.Prelude.Tests.{◌==◌, ltb, leb, if◌then◌else◌}
use infra_inventory.Prelude.Text.{append}

pub data ℤ : Type 0 where
  pos negsuc : ℕ → ℤ

-- The text between two separators, with one more character in front.
abbrev push : String → List String → List String
push c [] = c ∷ []
push c (s ∷ ss) = append c s ∷ ss

unfoldable pub split : ℕ → String → List String
split sep String.[] = "" ∷ []
split sep (String.◌∷◌ c s) =
    let rest = split sep s in
    if code c == sep then "" ∷ rest else push (String.◌∷◌ c String.[]) rest

unfoldable pub join : String → List String → String
join sep [] = ""
join sep (s ∷ []) = s
join sep (s ∷ t ∷ ss) = append s (append sep (join sep (t ∷ ss)))

-- WhiteSpace and LineTerminator of ECMAScript.
unfoldable pub is_space : ℕ → Bool
is_space c =
    leb 9 c && leb c 13
    || c == 32
    || c == 160
    || c == 5760
    || leb 8192 c && leb c 8202
    || c == 8232
    || c == 8233
    || c == 8239
    || c == 8287
    || c == 12288
    || c == 65279

unfoldable pub trim_start : String → String
trim_start String.[] = ""
trim_start (String.◌∷◌ c s) =
    let rest = trim_start s in if is_space (code c) then rest else String.◌∷◌ c s

abbrev is_empty : String → Bool
is_empty String.[] = true
is_empty (String.◌∷◌ c s) = false

unfoldable pub trim_end : String → String
trim_end String.[] = ""
trim_end (String.◌∷◌ c s) =
    let rest = trim_end s in if is_empty rest && is_space (code c) then "" else String.◌∷◌ c rest

abbrev pub trim : String → String
trim s = trim_end (trim_start s)

unfoldable pub is_digit : ℕ → Bool
is_digit c = leb 48 c && leb c 57

-- The longest prefix of digits, on the value read so far; `seen` tells whether there was one.
unfoldable pub read_digits : ℕ → Bool → String → Option ℕ
read_digits value seen String.[] = if seen then some value else none
read_digits value seen (String.◌∷◌ c s) =
    let rest = read_digits (value * 10 + (code c - 48)) true s in
    if is_digit (code c) then rest else if seen then some value else none

abbrev negative : Option ℕ → Option ℤ
negative none = none
negative (some zero) = some (pos 0)
negative (some (suc n)) = some (negsuc n)

abbrev positive : Option ℕ → Option ℤ
positive none = none
positive (some n) = some (pos n)

unfoldable pub read_signed : String → Option ℤ
read_signed String.[] = none
read_signed (String.◌∷◌ c s) =
    if code c == 45
    then negative (read_digits 0 false s)
    else if code c == 43
    then positive (read_digits 0 false s)
    else positive (read_digits 0 false (String.◌∷◌ c s))

-- `parseInt(s, 10)`; `none` is NaN.
abbrev pub parse_int : String → Option ℤ
parse_int s = read_signed (trim_start s)

unfoldable pub digit : ℕ → String
digit n =
    if n == 0
    then "0"
    else if n == 1
    then "1"
    else if n == 2
    then "2"
    else if n == 3
    then "3"
    else if n == 4
    then "4"
    else if n == 5
    then "5"
    else if n == 6
    then "6"
    else if n == 7
    then "7"
    else if n == 8
    then "8"
    else "9"

-- One digit more than the number itself is enough fuel.
unfoldable pub decimal : ℕ → ℕ → String
decimal zero n = ""
decimal (suc fuel) n =
    let rest = decimal fuel (n / 10) in if ltb n 10 then digit n else append rest (digit (n % 10))

-- `String(n)`.
abbrev pub to_decimal : ℕ → String
to_decimal n = decimal (suc n) n
