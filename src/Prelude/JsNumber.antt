-- ===== src/Prelude/JsNumber.antt =====
-- JavaScript's `number`, its finite values as integers of a fixed minor unit (cents for money).
-- Rounding of the binary format is not modelled.
use mathlib.Core.Bool.{Bool, true, false, not, ◌&&◌}
use whmcs_mcp_server.Prelude.Int.{ℤ, pos, ltb_ℤ, ◌+ℤ◌}

pub data JsNumber : Type 0 where
  nan infinity neg_infinity : JsNumber
  finite : ℤ → JsNumber

-- `Number.isFinite`
abbrev pub is_finite : JsNumber → Bool
is_finite (finite a) = true
is_finite _ = false

-- `a < b`: false when either side is NaN.
abbrev pub lt : JsNumber → JsNumber → Bool
lt (finite a) (finite b) = ltb_ℤ a b
lt (finite a) infinity = true
lt neg_infinity (finite b) = true
lt neg_infinity infinity = true
lt _ _ = false

-- `a <= b`: false when either side is NaN.
abbrev pub le : JsNumber → JsNumber → Bool
le nan b = false
le (finite a) nan = false
le (finite a) (finite b) = not (ltb_ℤ b a)
le (finite a) infinity = true
le (finite a) neg_infinity = false
le infinity infinity = true
le infinity _ = false
le neg_infinity nan = false
le neg_infinity _ = true

unfoldable pub plus : JsNumber → JsNumber → JsNumber
plus (finite a) (finite b) = finite (a +ℤ b)
plus nan b = nan
plus (finite a) nan = nan
plus (finite a) infinity = infinity
plus (finite a) neg_infinity = neg_infinity
plus infinity nan = nan
plus infinity neg_infinity = nan
plus infinity _ = infinity
plus neg_infinity nan = nan
plus neg_infinity infinity = nan
plus neg_infinity _ = neg_infinity

abbrev pub num_zero : JsNumber
num_zero = finite (pos 0)

-- `a === b`: NaN is not equal to itself.
abbrev pub strict_eq : JsNumber → JsNumber → Bool
strict_eq a b = le a b && le b a
