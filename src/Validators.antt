-- ===== src/Validators.antt =====
-- The tests of texts of backend/src/utils/validators.ts; a regular expression is a split at its
-- separator and a test of each part.
use Prim.Native.Char.{code}
use infra_inventory.Prelude.{
  ℕ, ◌+◌, ◌*◌, ◌-◌, Bool, true, false, ◌&&◌, ◌||◌, List, [], ◌∷◌, String, ◌==◌, leb, ltb,
}
use infra_inventory.Prelude.Decimal.{split, trim, is_digit}

unfoldable pub all_digits : String → Bool
all_digits String.[] = true
all_digits (String.◌∷◌ c s) = is_digit (code c) && all_digits s

unfoldable pub value_of : ℕ → String → ℕ
value_of n String.[] = n
value_of n (String.◌∷◌ c s) = value_of (n * 10 + (code c - 48)) s

unfoldable pub char_count : String → ℕ
char_count String.[] = 0
char_count (String.◌∷◌ c s) = 1 + char_count s

-- `25[0-5]|2[0-4][0-9]|[01]?[0-9][0-9]?`: one to three digits, up to 255.
unfoldable pub is_octet_text : String → Bool
is_octet_text s =
    all_digits s && (leb 1 (char_count s) && (leb (char_count s) 3 && leb (value_of 0 s) 255))

unfoldable pub are_octets : ℕ → List String → Bool
are_octets n [] = n == 0
are_octets n (o ∷ os) = is_octet_text o && (ltb 0 n && are_octets (n - 1) os)

unfoldable pub is_valid_ipv4 : String → Bool
is_valid_ipv4 ip = are_octets 4 (split 46 (trim ip))

-- `[0-9]|[1-2][0-9]|3[0-2]`: no zero in front of another digit, up to 32.
unfoldable pub is_prefix_text : String → Bool
is_prefix_text s =
    all_digits s
    && (char_count s == 1
        || (char_count s == 2 && (leb 10 (value_of 0 s) && leb (value_of 0 s) 32)))

unfoldable pub is_address_and_prefix : List String → Bool
is_address_and_prefix (ip ∷ prefix ∷ []) = are_octets 4 (split 46 ip) && is_prefix_text prefix
is_address_and_prefix _ = false

unfoldable pub is_valid_cidr : String → Bool
is_valid_cidr cidr = is_address_and_prefix (split 47 (trim cidr))

unfoldable pub is_hex : ℕ → Bool
is_hex c = is_digit c || ((leb 65 c && leb c 70) || (leb 97 c && leb c 102))

-- `n` pairs of digits with a separator behind each, and a last pair.
unfoldable pub are_hex_pairs : ℕ → String → Bool
are_hex_pairs n (String.◌∷◌ a (String.◌∷◌ b String.[])) =
    is_hex (code a) && (is_hex (code b) && (n == 0))
are_hex_pairs n (String.◌∷◌ a (String.◌∷◌ b (String.◌∷◌ c s))) =
    let rest = are_hex_pairs (n - 1) s in
    is_hex (code a) && (is_hex (code b) && ((code c == 58 || code c == 45) && (ltb 0 n && rest)))
are_hex_pairs _ _ = false

unfoldable pub is_valid_mac : String → Bool
is_valid_mac mac = are_hex_pairs 5 (trim mac)
