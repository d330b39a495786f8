-- ===== src/Prelude/Text.antt =====
-- The string methods of JavaScript that the program calls: `startsWith`, `includes`, `substring`,
-- and the truth of an optional string.
use Prim.Native.Nat.{ℕ, zero, suc, ◌+◌}
use Prim.Native.Char.{code}
use Prim.Native.String.{String}
use mathlib.Core.Bool.{Bool, true, false, not, ◌&&◌, ◌||◌}
use mathlib.Core.Option.{Option, none, some}
use infra_inventory.Prelude.Tests.{◌==◌, ltb, str_eq, if◌then◌else◌}

unfoldable pub starts_with : String → String → Bool
starts_with s String.[] = true
starts_with String.[] (String.◌∷◌ d t) = false
starts_with (String.◌∷◌ c s) (String.◌∷◌ d t) = code c == code d && starts_with s t

-- `s.includes(t)`.
unfoldable pub includes_text : String → String → Bool
includes_text String.[] t = starts_with String.[] t
includes_text (String.◌∷◌ c s) t = starts_with (String.◌∷◌ c s) t || includes_text s t

-- `s.substring(n)`.
unfoldable pub substring : ℕ → String → String
substring zero s = s
substring (suc n) String.[] = String.[]
substring (suc n) (String.◌∷◌ c s) = substring n s

abbrev pub is_truthy : Option String → Bool
is_truthy none = false
is_truthy (some s) = not (str_eq s "")

-- `o || ''`.
abbrev pub or_empty : Option String → String
or_empty none = ""
or_empty (some s) = s

-- `s + t`.
unfoldable pub append : String → String → String
append String.[] t = t
append (String.◌∷◌ c s) t = String.◌∷◌ c (append s t)

-- `s.length`: characters outside the basic plane count two.
unfoldable pub utf16_length : String → ℕ
utf16_length String.[] = 0
utf16_length (String.◌∷◌ c s) = (if ltb (code c) 65536 then 1 else 2) + utf16_length s
