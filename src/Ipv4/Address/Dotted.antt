-- ===== src/Ipv4/Address/Dotted.antt =====
-- The two conversions are inverse to each other.
use Prim.Native.Char.{code}
use infra_inventory.Prelude.{
  ℕ, ◌+◌, ◌*◌, ◌/◌, ◌%◌, ◌^◌, ◌<◌, ◌≡◌, refl, ap, ◌∙◌, Bool, true, false, not, ◌&&◌, Option, none,
  some, List, [], ◌∷◌, String, All, arith, ◌==◌, ==_iff, below, below-at, and_both, append,
}
use infra_inventory.Prelude.Decimal.{
  ℤ, pos, negsuc, split, join, parse_int, read_signed, read_digits, trim_start, is_space, is_digit,
  to_decimal, decimal, digit,
}
use infra_inventory.Ipv4.Bits.{bit_and-255}
use infra_inventory.Ipv4.Address.{int_to_ip, push_octet, push_octets, ip_to_int}

lacks : ℕ → String → Bool
lacks sep String.[] = true
lacks sep (String.◌∷◌ c s) = not (code c == sep) && lacks sep s

split-lacks : (sep : ℕ) (s : String) → lacks sep s ≡ true → split sep s ≡ s ∷ []
unfolding lacks split append
split-lacks sep String.[] h = refl
split-lacks sep (String.◌∷◌ c s) h =
    let miss : (code c == sep) ≡ false = ground arith in
    rw miss (rw (split-lacks sep s (ground arith)) refl)

split-append :
    (s t : String) → lacks 46 s ≡ true → split 46 (append s (append "." t)) ≡ s ∷ split 46 t
unfolding lacks split append
split-append String.[] t h = refl
split-append (String.◌∷◌ c s) t h =
    let miss : (code c == 46) ≡ false = ground arith in
    rw miss (rw (split-append s t (ground arith)) refl)

split-join :
    (s : String) (ss : List String)
    → lacks 46 s ≡ true
    → All (λ t. lacks 46 t ≡ true) ss
    → split 46 (join "." (s ∷ ss)) ≡ s ∷ ss
unfolding join
split-join s [] h k = split-lacks 46 s h
split-join s (t ∷ ss) h k =
    split-append s (join "." (t ∷ ss)) h ∙ ap (λ r. s ∷ r) (split-join t ss k.0 k.1)

is_pos : ℕ → Option ℤ → Bool
is_pos n none = false
is_pos n (some (pos m)) = m == n
is_pos n (some (negsuc m)) = false

octet_test : ℕ → Bool
octet_test n = is_pos n (parse_int (to_decimal n)) && lacks 46 (to_decimal n)

octets_pass : below 256 octet_test ≡ true
unfolding below octet_test is_pos read_signed read_digits trim_start is_space is_digit decimal digit
    lacks append
octets_pass = refl

is_pos-eq : (n : ℕ) (o : Option ℤ) → is_pos n o ≡ true → o ≡ some (pos n)
unfolding is_pos
is_pos-eq n none h = absurd cc
is_pos-eq n (some (pos m)) h = ap (λ k. some (pos k)) ((==_iff m n).0 h)
is_pos-eq n (some (negsuc m)) h = absurd cc

octet_passes :
    (n : ℕ) → n < 256 → (parse_int (to_decimal n) ≡ some (pos n)) × (lacks 46 (to_decimal n) ≡ true)
unfolding octet_test
octet_passes n h =
    let (p, l) = and_both _ _ (below-at 256 octet_test n octets_pass h) in (is_pos-eq n _ p, l)

push_octet-byte :
    (acc n : ℕ) → n < 256 → push_octet acc (parse_int (to_decimal n)) ≡ (acc * 256 + n) % 2 ^ 32
unfolding push_octet
push_octet-byte acc n h = ap (push_octet acc) (octet_passes n h).0

push_octets-bytes :
    (a b c d : ℕ)
    → a < 256
    → b < 256
    → c < 256
    → d < 256
    → push_octets 0 (to_decimal a ∷ to_decimal b ∷ to_decimal c ∷ to_decimal d ∷ [])
      ≡ ((a * 256 + b) * 256 + c) * 256 + d
unfolding push_octets
push_octets-bytes a b c d ha hb hc hd = rw (push_octet-byte 0 a ha) (
    rw (push_octet-byte _ b hb)
      (rw (push_octet-byte _ c hc) (rw (push_octet-byte _ d hd) (omega arith))))

ip_to_int-bytes :
    (a b c d : ℕ)
    → a < 256
    → b < 256
    → c < 256
    → d < 256
    → ip_to_int (join "." (to_decimal a ∷ to_decimal b ∷ to_decimal c ∷ to_decimal d ∷ []))
      ≡ ((a * 256 + b) * 256 + c) * 256 + d
unfolding ip_to_int
ip_to_int-bytes a b c d ha hb hc hd =
    ap (push_octets 0) (
      split-join (to_decimal a) (to_decimal b ∷ to_decimal c ∷ to_decimal d ∷ [])
        (octet_passes a ha).1
        ((octet_passes b hb).1, ((octet_passes c hc).1, ((octet_passes d hd).1, tt))))
    ∙ push_octets-bytes a b c d ha hb hc hd

-- Writing a 32-bit number as a dotted text and reading it back gives the number.
pub ip_to_int-int_to_ip : (n : ℕ) → n < 2 ^ 32 → ip_to_int (int_to_ip n) ≡ n
unfolding int_to_ip
ip_to_int-int_to_ip n h = rw (bit_and-255 (n / 2 ^ 24)) (
    rw (bit_and-255 (n / 2 ^ 16)) (
      rw (bit_and-255 (n / 2 ^ 8)) (
        rw (bit_and-255 n) (
          ip_to_int-bytes (n / 2 ^ 24 % 256) (n / 2 ^ 16 % 256) (n / 2 ^ 8 % 256) (n % 256)
            (omega arith) (omega arith) (omega arith) (omega arith)
          ∙ omega arith))))

push_octet-lt : (acc : ℕ) (o : Option ℤ) → push_octet acc o < 2 ^ 32
unfolding push_octet
push_octet-lt acc none = omega arith
push_octet-lt acc (some (pos n)) = omega arith
push_octet-lt acc (some (negsuc n)) = omega arith

push_octets-lt : (acc : ℕ) (octets : List String) → acc < 2 ^ 32 → push_octets acc octets < 2 ^ 32
unfolding push_octets
push_octets-lt acc [] h = h
push_octets-lt acc (octet ∷ octets) h =
    push_octets-lt (push_octet acc (parse_int octet)) octets (push_octet-lt acc (parse_int octet))

-- Whatever the text is, the number has 32 bits.
pub ip_to_int-lt : (ip : String) → ip_to_int ip < 2 ^ 32
unfolding ip_to_int
ip_to_int-lt ip = push_octets-lt 0 (split 46 ip) (omega arith)
