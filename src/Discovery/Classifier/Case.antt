-- ===== src/Discovery/Classifier/Case.antt =====
-- Lower case is lower case already.
use Prim.Native.Char.{Char, code}
use Prim.Native.String.{String}
use mathlib.Core.Path.{ap₂}
use infra_inventory.Prelude.{
  ℕ, ◌-◌, ◌≡◌, refl, true, ◌&&◌, arith, leb, below, below-at, substring, Bool-cases, inl, inr,
}
use infra_inventory.Discovery.Classifier.{first_or, lower_char, to_lower_case}

abbrev letter : Char → ℕ → Char
letter c n = first_or c (substring n "abcdefghijklmnopqrstuvwxyz")

letters_low : (c : Char) → below 26 (λ n. leb 97 (code (letter c n))) ≡ true
unfolding below substring
letters_low c = refl

lower_char_low : (c : Char) → leb 97 (code c) ≡ true → lower_char c ≡ c
unfolding lower_char
lower_char_low c h = ground arith

lower_char_idem : (c : Char) → lower_char (lower_char c) ≡ lower_char c
unfolding lower_char
lower_char_idem c = elim (Bool-cases (leb 65 (code c) && leb (code c) 90)) [
  | inl upper ↦ rw upper (
      lower_char_low (letter c (code c - 65))
        (below-at 26 _ (code c - 65) (letters_low c) (ground arith)))
  | inr other ↦ rw (other, other) refl
]

pub to_lower_case_idem : (s : String) → to_lower_case (to_lower_case s) ≡ to_lower_case s
unfolding to_lower_case
to_lower_case_idem String.[] = refl
to_lower_case_idem (String.◌∷◌ c s) = ap₂ String.◌∷◌ (lower_char_idem c) (to_lower_case_idem s)
