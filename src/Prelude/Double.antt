-- ===== src/Prelude/Double.antt =====
-- The doubles of JavaScript, as far as the engines compute with them: quotients and multiples of
-- whole numbers that are positive or 0, far below 2 ^ 53 and not below 2 ^ -53.
use infra_inventory.Prelude.{ℕ, zero, suc, ◌+◌, ◌*◌, ◌/◌, ◌%◌, ◌^◌, ltb, leb, if◌then◌else◌}

-- The number mantissa / 2 ^ scale.
pub record Double : Type 0 where
  pub mantissa : ℕ
  pub scale : ℕ

-- A quotient rounded to the nearest whole number, to the even one of two.
unfoldable pub half_even : ℕ → ℕ → ℕ
half_even n d =
    let q = n / d in
    let r = n % d in if ltb (2 * r) d then q else if ltb d (2 * r) then suc q else q + q % 2

-- The first scale at which the quotient has 53 bits before its point.
unfoldable pub scale_of : ℕ → ℕ → ℕ → ℕ
scale_of zero n d = 0
scale_of (suc fuel) n d =
    let further = suc (scale_of fuel (2 * n) d) in if leb (2 ^ 52 * d) n then 0 else further

-- `n / d`, with a mantissa of 53 bits. A quotient that is not below 2 ^ -53 needs a scale of 105 at
-- most.
unfoldable pub quotient : ℕ → ℕ → Double
quotient n d = let e = scale_of 106 n d in record { mantissa = half_even (n * 2 ^ e) d; scale = e }

-- `x * k` for a whole number k.
unfoldable pub multiple : Double → ℕ → Double
multiple x k = quotient (x.mantissa * k) (2 ^ x.scale)

-- `Math.round(x)`: the nearest whole number, the greater of two.
unfoldable pub round : Double → ℕ
round x = (2 * x.mantissa + 2 ^ x.scale) / (2 * 2 ^ x.scale)

-- `Number(x.toFixed(1))` in tenths: the nearest tenth, the greater of two.
unfoldable pub to_fixed_tenths : Double → ℕ
to_fixed_tenths x = (20 * x.mantissa + 2 ^ x.scale) / (2 * 2 ^ x.scale)
