-- ===== src/Ipv4/Bits.antt =====
-- Bitwise operations on natural numbers: masks that keep or fill the lowest k bits.
use Prim.Native.Nat.{digits, bit_and, bit_or, bit_and-bitwise, bit_or-bitwise, max}
use infra_inventory.Prelude.{
  ℕ, zero, suc, ◌+◌, ◌*◌, ◌/◌, ◌%◌, ◌≤◌, ◌<◌, min, ◌≡◌, refl, ap, ◌∙◌, arith,
}

module _ (z : ℕ → ℕ) (f : ℕ → ℕ → ℕ) where
  -- Any bound on the first number serves as the count of digits.
  digits_count : (n m a b : ℕ) → a ≤ n → a ≤ m → digits z f n a b ≡ digits z f m a b
  digits_count zero zero a b p q = refl
  digits_count zero (suc m) zero b p q = refl
  digits_count (suc n) zero zero b p q = refl
  digits_count (suc n) (suc m) zero b p q = refl
  digits_count zero m (suc a) b p q = absurd (omega arith)
  digits_count (suc n) zero (suc a) b p q = absurd (omega arith)
  digits_count (suc n) (suc m) (suc a) b p q =
      omega (arith, digits_count n m (suc a / 2) (b / 2) (omega arith) (omega arith))

-- The lowest bit apart from the others.
pub bit_and_lowest : (a b : ℕ) → bit_and a b ≡ 2 * bit_and (a / 2) (b / 2) + min (a % 2) (b % 2)
bit_and_lowest zero b = omega (arith, bit_and-bitwise 0 b, bit_and-bitwise 0 (b / 2))
bit_and_lowest (suc a) b = omega (
  arith,
  bit_and-bitwise (suc a) b,
  bit_and-bitwise (suc a / 2) (b / 2),
  digits_count (λ b. zero) min a (suc a / 2) (suc a / 2) (b / 2) (omega arith) (omega arith),
)

pub bit_or_lowest : (a b : ℕ) → bit_or a b ≡ 2 * bit_or (a / 2) (b / 2) + max (a % 2) (b % 2)
bit_or_lowest zero b = omega (arith, bit_or-bitwise 0 b, bit_or-bitwise 0 (b / 2))
bit_or_lowest (suc a) b = omega (
  arith,
  bit_or-bitwise (suc a) b,
  bit_or-bitwise (suc a / 2) (b / 2),
  digits_count (λ b. b) max a (suc a / 2) (suc a / 2) (b / 2) (omega arith) (omega arith),
)

-- 2 ^ k, 2 ^ k - 1, a * 2 ^ k and a / 2 ^ k, by recursion on k.
unfoldable pub pow : ℕ → ℕ
pow zero = 1
pow (suc k) = 2 * pow k

unfoldable pub ones : ℕ → ℕ
ones zero = 0
ones (suc k) = 2 * ones k + 1

unfoldable pub shl : ℕ → ℕ → ℕ
shl zero a = a
shl (suc k) a = 2 * shl k a

unfoldable pub shr : ℕ → ℕ → ℕ
shr zero a = a
shr (suc k) a = shr k (a / 2)

pub ones-pow : (k : ℕ) → suc (ones k) ≡ pow k
unfolding ones pow
ones-pow zero = refl
ones-pow (suc k) = omega (arith, ones-pow k)

bit_and_even : (a b : ℕ) → bit_and a (2 * b) ≡ 2 * bit_and (a / 2) b
bit_and_even a b =
    omega
      (arith, bit_and_lowest a (2 * b), ap (bit_and (a / 2)) {x = 2 * b / 2} {y = b} (omega arith))

bit_and_odd : (a b : ℕ) → bit_and a (2 * b + 1) ≡ 2 * bit_and (a / 2) b + a % 2
bit_and_odd a b = omega (
  arith,
  bit_and_lowest a (2 * b + 1),
  ap (bit_and (a / 2)) {x = (2 * b + 1) / 2} {y = b} (omega arith),
)

bit_or_odd : (a b : ℕ) → bit_or (2 * a) (2 * b + 1) ≡ 2 * bit_or a b + 1
bit_or_odd a b = omega (
  arith,
  bit_or_lowest (2 * a) (2 * b + 1),
  ap (λ x. bit_or x ((2 * b + 1) / 2)) {x = 2 * a / 2} {y = a} (omega arith),
  ap (bit_or a) {x = (2 * b + 1) / 2} {y = b} (omega arith),
)

bit_and-zero : (n a : ℕ) → a ≤ n → bit_and a 0 ≡ 0
bit_and-zero n zero h = refl
bit_and-zero zero (suc a) h = absurd (omega arith)
bit_and-zero (suc n) (suc a) h =
    omega (arith, bit_and_lowest (suc a) 0, bit_and-zero n (suc a / 2) (omega arith))

-- A number with no binary digit.
bit_or-zero : (n a : ℕ) → a ≤ n → bit_or a 0 ≡ a
bit_or-zero n zero h = refl
bit_or-zero zero (suc a) h = absurd (omega arith)
bit_or-zero (suc n) (suc a) h =
    omega (arith, bit_or_lowest (suc a) 0, bit_or-zero n (suc a / 2) (omega arith))

-- A mask whose lowest k bits are clear works on the bits above.
pub bit_and-shl : (k a q : ℕ) → bit_and a (shl k q) ≡ shl k (bit_and (shr k a) q)
unfolding shl shr
bit_and-shl zero a q = refl
bit_and-shl (suc k) a q = omega (arith, bit_and_even a (shl k q), bit_and-shl k (a / 2) q)

-- A mask of k ones keeps a number of k bits.
pub bit_and-ones : (k a : ℕ) → a < pow k → bit_and a (ones k) ≡ a
unfolding ones pow
bit_and-ones zero zero h = refl
bit_and-ones zero (suc a) h = absurd (omega arith)
bit_and-ones (suc k) a h =
    omega (arith, bit_and_odd a (ones k), bit_and-ones k (a / 2) (omega arith))

-- In general it keeps what is less than 2 ^ k.
bit_and-ones_split :
    (k a : ℕ) → (bit_and a (ones k) + shl k (shr k a) ≡ a) × (bit_and a (ones k) ≤ ones k)
unfolding ones shl shr
bit_and-ones_split zero zero = (refl, omega arith)
bit_and-ones_split zero (suc a) =
    let e = bit_and-zero (suc a) (suc a) (omega arith) in (omega (arith, e), omega (arith, e))
bit_and-ones_split (suc k) a =
    let (e, h) = bit_and-ones_split k (a / 2) in
    (omega (arith, bit_and_odd a (ones k), e), omega (arith, bit_and_odd a (ones k), h))

-- A byte.
pub bit_and-255 : (a : ℕ) → bit_and a 255 ≡ a % 256
unfolding ones shl
bit_and-255 a = omega (arith, (bit_and-ones_split 8 a).0, (bit_and-ones_split 8 a).1)

-- Filling clear bits is adding them.
pub bit_or-ones : (k q : ℕ) → bit_or (shl k q) (ones k) ≡ shl k q + ones k
unfolding ones shl
bit_or-ones zero q = omega (arith, bit_or-zero q q (omega arith))
bit_or-ones (suc k) q = omega (arith, bit_or_odd (shl k q) (ones k), bit_or-ones k q)

-- What the shifts clear is less than 2 ^ k.
pub shl-shr : (k a : ℕ) → (shl k (shr k a) ≤ a) × (a ≤ shl k (shr k a) + ones k)
unfolding shl shr ones
shl-shr zero a = (omega arith, omega arith)
shl-shr (suc k) a = let (low, high) = shl-shr k (a / 2) in (omega arith, omega arith)

pub shr-lt : (k j a : ℕ) → a < shl k (pow j) → shr k a < pow j
unfolding shr shl
shr-lt zero j a h = h
shr-lt (suc k) j a h = shr-lt k j (a / 2) (omega arith)

pub shr-le : (k a b : ℕ) → a ≤ b → shr k a ≤ shr k b
unfolding shr
shr-le zero a b h = h
shr-le (suc k) a b h = shr-le k (a / 2) (b / 2) (omega arith)

-- A block of 2 ^ k numbers.
pub shr-block : (k q r : ℕ) → r ≤ ones k → shr k (shl k q + r) ≡ q
unfolding shr shl ones
shr-block zero q r h = omega arith
shr-block (suc k) q r h = ap (shr k) (omega arith) ∙ shr-block k q (r / 2) (omega arith)

-- A block below a multiple of its size lies below it as a whole.
pub shl_block-lt : (k q m : ℕ) → q < m → shl k q + ones k < shl k m
unfolding shl ones
shl_block-lt zero q m h = omega arith
shl_block-lt (suc k) q m h = omega (arith, shl_block-lt k q m h)
